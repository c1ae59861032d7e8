-- ===== src/Relay/Node/Rounds.antt =====
-- What a relay makes of a replayed packet, and what an observer counts over a bulk round.
use anonymous.Common.Results.{Result, ok, err}
use anonymous.Common.{
  ℕ, ◌+◌, ◌-◌, ◌%◌, ◌^◌, ◌<◌, ◌≡◌, refl, sym, ap, ◌∙◌, Bool, true, Option, none, some, List, [],
  length, arith,
}
use mathlib.Core.Path.{subst}
use anonymous.Kem.{Primitives, CryptoError, replay_rejected}
use anonymous.Negotiator.{l2_uniform_batched, CoverRequirement}
use anonymous.Replay.{CtEq, ReplayTag, ReplayCache}
use anonymous.Replay.Window.{Holds}
use anonymous.Sphinx.{Processed, SphinxPacket, process}
use anonymous.Sphinx.Process.{process_twice}
use anonymous.CoverFlow.{CoverFlow, Rng, CoverEmitResult, close_and_emit, baseline_local_discard}
use anonymous.CoverFlow.Plans.{emitted, flows_of}
use anonymous.CoverFlow.Rounds.{round_flows}
use anonymous.Relay.Channels.{Mpsc, ChannelClosed, fetch_add}
use anonymous.Relay.Config.{cover_flow_config}
use anonymous.Relay.Node.{
  ForwardedPacket, RelayNode, RelayState, begin_round, end_round, RelayEvent, control, send_cover,
  send_flows, route, process_one_packet, apply_command, record_cover, turn, run,
}
use anonymous.Relay.Node.Forwards.{
  route-replay, to_forward, to_forward-few, IsUncommanded, run-Forwards,
}

module _ (p : Primitives) (subtle : CtEq) {F : Type 0} (fill_threshold : ℕ → F → ℕ) {S : Type 0}
    (rng : Rng p S) {M D : Type 0} (sample_mixing_delay : M → S → D × S)
    (out : Mpsc (ForwardedPacket D)) {C : Type 0} (cover_send : C → CoverFlow → Bool × C)
    (node : RelayNode p M) where
  abbrev State : Type 0
  State = RelayState p subtle fill_threshold rng sample_mixing_delay out cover_send

  abbrev processed : SphinxPacket → State → Result ChannelClosed (Unit {0}) × State
  processed = process_one_packet p subtle fill_threshold rng sample_mixing_delay out cover_send node

  abbrev routed : Result CryptoError Processed → State → Result ChannelClosed (Unit {0}) × State
  routed = route p subtle fill_threshold rng sample_mixing_delay out cover_send node

  abbrev ran : List RelayEvent → State → Bool × State
  ran = run p subtle fill_threshold rng sample_mixing_delay out cover_send node

  abbrev turned : RelayEvent → State → Bool × State
  turned = turn p subtle fill_threshold rng sample_mixing_delay out cover_send node

  abbrev real_packets : List RelayEvent → ReplayCache F → ℕ
  real_packets = to_forward p subtle fill_threshold rng sample_mixing_delay out cover_send node

  -- On a cache that holds a window: a packet that a relay accepted changes nothing when it comes
  -- again but the count of replays; no packet is sent and no flow is observed.
  pub process_one_packet_twice :
      (packet : SphinxPacket) (s : State) (w : List ReplayTag) (result : Processed)
      → Holds s.replay w
      → (process p subtle fill_threshold packet node.secret s.replay).0 ≡ ok result
      → let s' = (processed packet s).1 in
        processed packet s' ≡ (
          ok tt,
          record s' {
            stats = record s'.stats {
              replay_error_count = fetch_add s'.stats.replay_error_count 1;
            };
          },
        )
  unfolding process_one_packet route
  process_one_packet_twice packet s w result h accepted =
      let r = process p subtle fill_threshold packet node.secret s.replay in
      let s' = (processed packet s).1 in
      let kept : s'.replay ≡ r.1 =
        route-replay p subtle fill_threshold rng sample_mixing_delay out cover_send node r.0
          (record s { replay = r.1 }) in
      let again =
        process_twice p subtle fill_threshold packet node.secret s.replay w result h accepted in
      let now : process p subtle fill_threshold packet node.secret s'.replay
          ≡ (err replay_rejected, s'.replay) =
        ap (process p subtle fill_threshold packet node.secret) kept
        ∙ again
        ∙ ap (λ c. (err replay_rejected, c)) (sym kept) in
      ap (λ (q : Result CryptoError Processed × _). routed q.0 (record s' { replay = q.1 })) now

  -- What closing the round of a state comes to.
  abbrev closing : State → Option (CoverEmitResult p)
  closing s =
      (close_and_emit p rng s.round (cover_flow_config p node.config.bulk_cover) s.rng_state).1.0

  abbrev sending : List CoverFlow → Option C → Option C
  sending = send_cover p subtle fill_threshold rng sample_mixing_delay out cover_send

  sending-nothing : (tx : Option C) → sending [] tx ≡ tx
  unfolding send_flows
  sending-nothing none = refl
  sending-nothing (some tx) = refl

  record_cover-Sends :
      (o : Option (CoverEmitResult p)) (s : State)
      → let u = record_cover p subtle fill_threshold rng sample_mixing_delay out cover_send o s in
        (u.stats.cover_flow_count % 2 ^ 64 ≡ (s.stats.cover_flow_count + emitted p rng o) % 2 ^ 64)
        × (u.cover_tx ≡ sending (flows_of p rng o) s.cover_tx)
  unfolding send_flows
  record_cover-Sends none s = (omega arith, sym (sending-nothing s.cover_tx))
  record_cover-Sends (some r) s = (omega arith, refl)

  -- A bulk round of uniform batching in a relay with the baseline defense, which has not been
  -- stopped meanwhile, with fewer than 2^32 events in it, none of them a command. The relay counts
  -- as forwarded the packets among the events (real ones, replays, forged ones, cover) that
  -- `process` takes to a hop other than the sink of cover. At the round's end it counts the cover
  -- flows that are missing to the target, none where the forwarded packets reach it, and hands as
  -- many flows to its cover channel. The counts are of u64.
  pub relay_round-constant :
      (es : List RelayEvent) (requirement : CoverRequirement) (s : State)
      → node.config.bulk_cover.multihop_defense ≡ baseline_local_discard
      → requirement.target_flow_count < 2 ^ 32
      → length es < 2 ^ 32
      → IsUncommanded p subtle fill_threshold rng sample_mixing_delay out cover_send node es
      → let opened = (turned (control (begin_round l2_uniform_batched requirement)) s).1 in
        (ran es opened).0 ≡ true
        → let t = (ran es opened).1 in
          let u = (turned (control end_round) t).1 in
          let real = real_packets es s.replay in
          let cover = requirement.target_flow_count - real in
          (t.stats.forwarded_count % 2 ^ 64 ≡ (s.stats.forwarded_count + real) % 2 ^ 64)
          × (u.stats.cover_flow_count % 2 ^ 64 ≡ (s.stats.cover_flow_count + cover) % 2 ^ 64)
          × ((flows : List CoverFlow) × (length flows ≡ cover)
              × (u.cover_tx ≡ sending flows s.cover_tx))
  unfolding turn apply_command
  relay_round-constant es requirement s base bound few free h =
      let opened = (turned (control (begin_round l2_uniform_batched requirement)) s).1 in
      let t = (ran es opened).1 in
      let real = real_packets es s.replay in
      let f =
        run-Forwards p subtle fill_threshold rng sample_mixing_delay out cover_send node es opened
          free h in
      let config = cover_flow_config p node.config.bulk_cover in
      let (round, (result, rng_state)) = close_and_emit p rng t.round config t.rng_state in
      let (recorded, sent) =
        record_cover-Sends result (record t { round = round; rng_state = rng_state }) in
      let small : real < 2 ^ 32 = omega (
        arith,
        few,
        to_forward-few p subtle fill_threshold rng sample_mixing_delay out cover_send node es
            s.replay,
      ) in
      let (planned, counted) =
        subst
          (λ o.
            let r = (close_and_emit p rng o config t.rng_state).1.0 in
            (length (flows_of p rng r) ≡ requirement.target_flow_count - real)
            × (emitted p rng r ≡ length (flows_of p rng r) % 2 ^ 32))
          (sym f.observed)
          (round_flows p rng s.round requirement real config t.rng_state base small) in
      (
        f.counted,
        omega (arith, recorded, f.uncovered, planned, counted, bound),
        (flows_of p rng result, planned, sent ∙ ap (sending (flows_of p rng result)) f.unsent),
      )
