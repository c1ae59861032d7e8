-- ===== src/Relay/Node/Accounts.antt =====
-- What a relay's counters say about the packets that came in, in whatever order events arrive.
use anonymous.Common.Results.{Result, ok, err}
use anonymous.Common.{
  ℕ, suc, ◌+◌, ◌%◌, ◌^◌, ◌≡◌, refl, sym, ap, ◌∙◌, Bool, true, Option, none, some, List, [], ◌∷◌,
  arith, Bool-cases, inl, inr,
}
use anonymous.Kem.{Primitives, CryptoError, integrity_failure, replay_rejected}
use anonymous.Replay.{CtEq}
use anonymous.Sphinx.{Processed, forward, loop_returned, dropped, SphinxPacket, process}
use anonymous.CoverFlow.{is_cover_sink_hop, CoverFlow, Rng, CoverEmitResult, close_and_emit}
use anonymous.Relay.Channels.{Mpsc, ChannelClosed}
use anonymous.Relay.Config.{cover_flow_config}
use anonymous.Relay.Node.{
  record_cover, ForwardedPacket, RelayStats, coarse, RelayNode, RelayState, begin_round, end_round,
  RelayEvent, control, inbound, taken, forward_packet, route, process_one_packet, apply_command,
  turn, run,
}

-- The packets that the coarse counters know of.
abbrev pub handled : RelayStats → ℕ
handled s = (coarse s).processed_ok + (coarse s).processed_fail

-- The packets among the events.
abbrev pub arrivals : List RelayEvent → ℕ
arrivals [] = 0
arrivals (inbound packet ∷ events) = suc (arrivals events)
arrivals (control command ∷ events) = arrivals events
arrivals (taken ∷ events) = arrivals events

arrivals_step :
    (e : RelayEvent) (es : List RelayEvent) → arrivals (e ∷ es) ≡ arrivals (e ∷ []) + arrivals es
arrivals_step (inbound packet) es = omega arith
arrivals_step (control command) es = omega arith
arrivals_step taken es = omega arith

module _ (p : Primitives) (subtle : CtEq) {F : Type 0} (fill_threshold : ℕ → F → ℕ) {S : Type 0}
    (rng : Rng p S) {M D : Type 0} (sample_mixing_delay : M → S → D × S)
    (out : Mpsc (ForwardedPacket D)) {C : Type 0} (cover_send : C → CoverFlow → Bool × C)
    (node : RelayNode p M) where
  abbrev State : Type 0
  State = RelayState p subtle fill_threshold rng sample_mixing_delay out cover_send

  abbrev routed : Result CryptoError Processed → State → Result ChannelClosed (Unit {0}) × State
  routed = route p subtle fill_threshold rng sample_mixing_delay out cover_send node

  route_counts :
      (result : Result CryptoError Processed) (s : State)
      → handled (routed result s).1.stats % 2 ^ 64 ≡ (handled s.stats + 1) % 2 ^ 64
  unfolding route coarse forward_packet
  route_counts (ok (forward next_hop packet)) s = elim (Bool-cases (is_cover_sink_hop next_hop)) [
    | inl sink ↦ rw sink (omega arith)
    | inr real ↦ rw real (omega arith)
  ]
  route_counts (ok loop_returned) s = omega arith
  route_counts (ok dropped) s = omega arith
  route_counts (err integrity_failure) s = omega arith
  route_counts (err replay_rejected) s = omega arith
  route_counts (err e) s = omega arith

  abbrev turned : RelayEvent → State → Bool × State
  turned = turn p subtle fill_threshold rng sample_mixing_delay out cover_send node

  abbrev ran : List RelayEvent → State → Bool × State
  ran = run p subtle fill_threshold rng sample_mixing_delay out cover_send node

  -- A loop that has not ended has made its turn and goes on from there.
  pub run_step :
      (e : RelayEvent) (es : List RelayEvent) (s : State)
      → (ran (e ∷ es) s).0 ≡ true
      → ((turned e s).0 ≡ true) × (ran (e ∷ es) s ≡ ran es (turned e s).1)
  unfolding run
  run_step e es s h = elim (Bool-cases (turned e s).0) [
    | inl on ↦ (on, rw on refl)
    | inr off ↦ absurd (ground (arith, off, h))
  ]

  -- The state behind a packet is the routed one.
  turned_inbound :
      (packet : SphinxPacket) (s : State)
      → let r = process p subtle fill_threshold packet node.secret s.replay in
        (turned (inbound packet) s).1 ≡ (routed r.0 (record s { replay = r.1 })).1
  unfolding turn process_one_packet
  turned_inbound packet s = refl

  record_cover_counts :
      (o : Option (CoverEmitResult p)) (s : State)
      → handled
          (record_cover p subtle fill_threshold rng sample_mixing_delay out cover_send o s).stats
        ≡ handled s.stats
  unfolding coarse
  record_cover_counts none s = refl
  record_cover_counts (some r) s = refl

  turned_counts :
      (e : RelayEvent) (s : State)
      → handled (turned e s).1.stats % 2 ^ 64 ≡ (handled s.stats + arrivals (e ∷ [])) % 2 ^ 64
  unfolding turn apply_command
  turned_counts (inbound packet) s =
      let r = process p subtle fill_threshold packet node.secret s.replay in
      rw (turned_inbound packet s) (route_counts r.0 (record s { replay = r.1 }))
  turned_counts taken s = omega arith
  turned_counts (control (begin_round dial requirement)) s = omega arith
  turned_counts (control end_round) s =
      let (round, (result, rng_state)) =
        close_and_emit p rng s.round (cover_flow_config p node.config.bulk_cover) s.rng_state in
      omega (arith, record_cover_counts result (record s { round = round; rng_state = rng_state }))

  -- Every packet that comes in is counted once, as handled well or as failed, whatever it is and
  -- whatever commands, and packets taken by the bridge, come between: after a run that has not been stopped, the coarse counters have
  -- grown by the packets among the events, as u64.
  pub run-Counts :
      (es : List RelayEvent) (s : State)
      → (ran es s).0 ≡ true
      → handled (ran es s).1.stats % 2 ^ 64 ≡ (handled s.stats + arrivals es) % 2 ^ 64
  unfolding run
  run-Counts [] s h = omega arith
  run-Counts (e ∷ es) s h =
      let (on, same) = run_step e es s h in
      let rest : (ran es (turned e s).1).0 ≡ true = ap (λ r. r.0) (sym same) ∙ h in
      let later = run-Counts es (turned e s).1 rest in
      let now = turned_counts e s in rw same (omega (arith, later, now, arrivals_step e es))
