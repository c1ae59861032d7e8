-- ===== src/Relay/Node/Outbound.antt =====
-- The outbound queue of a relay, whatever packets and commands come in, and whenever the bridge
-- takes packets out (node.rs, and `outbound_rx` of net.rs).
use anonymous.Common.Results.{Result, ok, err}
use anonymous.Common.{
  ℕ, ◌+◌, ◌%◌, ◌^◌, ◌≤◌, ◌≡◌, refl, sym, ap, ◌∙◌, [], ◌∷◌, Bool, true, Option, none, some, List,
  length, arith, Bool-cases, inl, inr,
}
use mathlib.Core.Path.{subst}
use anonymous.Kem.{Primitives, CryptoError, integrity_failure, replay_rejected}
use anonymous.Replay.{CtEq}
use anonymous.Sphinx.{Processed, forward, loop_returned, dropped, process}
use anonymous.CoverFlow.{is_cover_sink_hop, CoverFlow, Rng, CoverEmitResult, close_and_emit}
use anonymous.Relay.Channels.{
  Mpsc, TryRecv, received, empty, disconnected, RecvLaw, ChannelClosed, try_send_drop_newest,
  try_send_drop_newest-Enqueued,
}
use anonymous.Relay.Config.{cover_flow_config}
use anonymous.Relay.Node.{
  is_ok, ForwardedPacket, RelayNode, RelayState, begin_round, end_round, RelayEvent, control,
  inbound, taken, forward_packet, route, apply_command, record_cover, turn, run, process_one_packet,
}
use anonymous.Relay.Node.Accounts.{run_step}

is_ok-eq : (r : Result ChannelClosed (Unit {0})) → is_ok r ≡ true → r ≡ ok tt
is_ok-eq (ok u) h = refl
is_ok-eq (err e) h = cc

module _ (p : Primitives) (subtle : CtEq) {F : Type 0} (fill_threshold : ℕ → F → ℕ) {S : Type 0}
    (rng : Rng p S) {M D : Type 0} (sample_mixing_delay : M → S → D × S)
    (out : Mpsc (ForwardedPacket D)) {C : Type 0} (cover_send : C → CoverFlow → Bool × C)
    (node : RelayNode p M) where
  abbrev State : Type 0
  State = RelayState p subtle fill_threshold rng sample_mixing_delay out cover_send

  -- The queue is within its capacity, and every packet that was counted as forwarded stands in it,
  -- is among the `n` that the bridge took from it, or was counted as dropped.
  pub record IsBalanced (n : ℕ) (s : State) : Type 0 where
    pub within : length (out.contents s.outbound) ≤ out.capacity s.outbound
    pub balanced :
        (length (out.contents s.outbound) + n + s.stats.queue_dropped) % 2 ^ 64
        ≡ s.stats.forwarded_count % 2 ^ 64

  abbrev routed : Result CryptoError Processed → State → Result ChannelClosed (Unit {0}) × State
  routed = route p subtle fill_threshold rng sample_mixing_delay out cover_send node

  route-IsBalanced :
      (result : Result CryptoError Processed) (n : ℕ) (s : State)
      → is_ok (routed result s).0 ≡ true
      → IsBalanced n s
      → IsBalanced n (routed result s).1
  unfolding route forward_packet
  route-IsBalanced (ok (forward next_hop packet)) n s h b =
      elim (Bool-cases (is_cover_sink_hop next_hop)) [
        | inl sink ↦ rw sink (record { within = b.within; balanced = b.balanced })
        | inr real ↦
            let item : ForwardedPacket D = record {
              next_hop = next_hop;
              packet = packet;
              delay_applied = (sample_mixing_delay node.config.mu s.rng_state).0;
            } in
            let (same, room, kept) =
              try_send_drop_newest-Enqueued out s.outbound item s.stats.queue_dropped in
            let sent = try_send_drop_newest out s.outbound item s.stats.queue_dropped in
            let went : is_ok sent.outcome ≡ true = ground (arith, h, real) in
            let counted = kept (is_ok-eq sent.outcome went) in
            rw real (record {
              within = omega (arith, same, room b.within);
              balanced = omega (arith, counted, b.balanced);
            })
      ]
  route-IsBalanced (ok loop_returned) n s h b = record { within = b.within; balanced = b.balanced }
  route-IsBalanced (ok dropped) n s h b = record { within = b.within; balanced = b.balanced }
  route-IsBalanced (err integrity_failure) n s h b = record {
    within = b.within;
    balanced = b.balanced;
  }
  route-IsBalanced (err replay_rejected) n s h b = record {
    within = b.within;
    balanced = b.balanced;
  }
  route-IsBalanced (err e) n s h b = record { within = b.within; balanced = b.balanced }

  record_cover-IsBalanced :
      (o : Option (CoverEmitResult p)) (n : ℕ) (s : State)
      → IsBalanced n s
      → IsBalanced n
          (record_cover p subtle fill_threshold rng sample_mixing_delay out cover_send o s)
  record_cover-IsBalanced none n s b = b
  record_cover-IsBalanced (some r) n s b = record { within = b.within; balanced = b.balanced }

  abbrev turned : RelayEvent → State → Bool × State
  turned = turn p subtle fill_threshold rng sample_mixing_delay out cover_send node

  abbrev ran : List RelayEvent → State → Bool × State
  ran = run p subtle fill_threshold rng sample_mixing_delay out cover_send node

  abbrev got : {A : Type 0} → TryRecv A → ℕ
  got (received a) = 1
  got empty = 0
  got disconnected = 0

  -- The packets that the bridge takes along a run.
  abbrev taken_at : RelayEvent → State → ℕ
  taken_at taken s = got (out.try_recv s.outbound).0
  taken_at (inbound packet) s = 0
  taken_at (control command) s = 0

  unfoldable pub taken_along : List RelayEvent → State → ℕ
  taken_along [] s = 0
  taken_along (e ∷ es) s = taken_at e s + taken_along es (turned e s).1

  got-taken :
      {A : Type 0} (before after : List A) (r : TryRecv A)
      → RecvLaw before after r
      → length after + got r ≡ length before
  got-taken before after (received a) law =
      let grown : length before ≡ length (a ∷ after) = ap length law in omega (arith, grown)
  got-taken before after empty (e, e') = rw (e, e') refl
  got-taken before after disconnected (e, e') = rw (e, e') refl

  turn-IsBalanced :
      (e : RelayEvent) (n : ℕ) (s : State)
      → (turned e s).0 ≡ true
      → IsBalanced n s
      → IsBalanced (n + taken_at e s) (turned e s).1
  unfolding turn process_one_packet apply_command
  turn-IsBalanced taken n s h b =
      let counted =
        got-taken (out.contents s.outbound) (out.contents (out.try_recv s.outbound).1)
          (out.try_recv s.outbound).0 (out.try_recv_law s.outbound) in
      let same = out.capacity-try_recv s.outbound in
      record {
        within = omega (arith, counted, same, b.within);
        balanced = omega (arith, counted, b.balanced);
      }
  turn-IsBalanced (inbound packet) n s h b =
      let r = process p subtle fill_threshold packet node.secret s.replay in
      route-IsBalanced r.0 (n + 0) (record s { replay = r.1 }) h
        (record { within = b.within; balanced = omega (arith, b.balanced) })
  turn-IsBalanced (control (begin_round dial requirement)) n s h b = record {
    within = b.within;
    balanced = omega (arith, b.balanced);
  }
  turn-IsBalanced (control end_round) n s h b =
      let (round, (result, rng_state)) =
        close_and_emit p rng s.round (cover_flow_config p node.config.bulk_cover) s.rng_state in
      record_cover-IsBalanced result (n + 0) (record s { round = round; rng_state = rng_state })
        (record { within = b.within; balanced = omega (arith, b.balanced) })

  -- Along a run that has not been stopped, in which the bridge takes packets at any time, the
  -- outbound queue stays within its capacity, and every packet that was counted as forwarded stands
  -- in the queue, was taken by the bridge or was counted as dropped, if this was so at the beginning
  -- with `n` packets taken before. The counts are of u64.
  pub run-IsBalanced :
      (es : List RelayEvent) (n : ℕ) (s : State)
      → (ran es s).0 ≡ true
      → IsBalanced n s
      → IsBalanced (n + taken_along es s) (ran es s).1
  unfolding run taken_along
  run-IsBalanced [] n s h b = record { within = b.within; balanced = omega (arith, b.balanced) }
  run-IsBalanced (e ∷ es) n s h b =
      let (on, same) =
        run_step p subtle fill_threshold rng sample_mixing_delay out cover_send node e es s h in
      let rest : (ran es (turned e s).1).0 ≡ true = ap (λ r. r.0) (sym same) ∙ h in
      let later =
        run-IsBalanced es (n + taken_at e s) (turned e s).1 rest (turn-IsBalanced e n s on b) in
      let sum : n + taken_at e s + taken_along es (turned e s).1 ≡ n + taken_along (e ∷ es) s =
        omega arith in
      subst (λ (r : Bool × State). IsBalanced (n + taken_along (e ∷ es) s) r.1) (sym same)
        (subst (λ k. IsBalanced k (ran es (turned e s).1).1) sum later)
