-- ===== src/Relay/Node/Forwards.antt =====
-- The packets that a relay forwards along a run without commands (node.rs).
use anonymous.Common.Results.{Result, ok, err}
use anonymous.Common.{
  ℕ, zero, suc, ◌+◌, if◌then◌else◌, ◌%◌, ◌^◌, ◌≤◌, ◌≡◌, refl, sym, ap, ◌∙◌, Bool, true, List, [],
  ◌∷◌, length, arith, Bool-cases, inl, inr,
}
use mathlib.Core.Path.{subst}
use anonymous.Kem.{Primitives, CryptoError, integrity_failure, replay_rejected}
use anonymous.Replay.{CtEq, ReplayCache}
use anonymous.Sphinx.{Processed, forward, loop_returned, dropped, process}
use anonymous.CoverFlow.{is_cover_sink_hop, CoverFlow, Rng, BulkRoundTracker, observe_real_flow}
use anonymous.CoverFlow.Rounds.{observe_all}
use anonymous.Relay.Channels.{Mpsc, ChannelClosed}
use anonymous.Relay.Node.{
  ForwardedPacket, RelayNode, RelayState, RelayEvent, control, inbound, taken, forward_packet,
  route, process_one_packet, turn, run,
}
use anonymous.Relay.Node.Accounts.{run_step}

observe_all-add :
    (n k : ℕ) (t : BulkRoundTracker) → observe_all k (observe_all n t) ≡ observe_all (n + k) t
unfolding observe_all
observe_all-add zero k t = let e : k ≡ 0 + k = omega arith in ap (λ i. observe_all i t) e
observe_all-add (suc n) k t =
    let e : suc (n + k) ≡ suc n + k = omega arith in
    observe_all-add n k (observe_real_flow t) ∙ ap (λ i. observe_all i t) e

module _ (p : Primitives) (subtle : CtEq) {F : Type 0} (fill_threshold : ℕ → F → ℕ) {S : Type 0}
    (rng : Rng p S) {M D : Type 0} (sample_mixing_delay : M → S → D × S)
    (out : Mpsc (ForwardedPacket D)) {C : Type 0} (cover_send : C → CoverFlow → Bool × C)
    (node : RelayNode p M) where
  abbrev State : Type 0
  State = RelayState p subtle fill_threshold rng sample_mixing_delay out cover_send

  abbrev routed : Result CryptoError Processed → State → Result ChannelClosed (Unit {0}) × State
  routed = route p subtle fill_threshold rng sample_mixing_delay out cover_send node

  abbrev ran : List RelayEvent → State → Bool × State
  ran = run p subtle fill_threshold rng sample_mixing_delay out cover_send node

  abbrev turned : RelayEvent → State → Bool × State
  turned = turn p subtle fill_threshold rng sample_mixing_delay out cover_send node

  -- The cache behind a packet is the one that `process` leaves.
  pub route-replay :
      (result : Result CryptoError Processed) (s : State) → (routed result s).1.replay ≡ s.replay
  unfolding route forward_packet
  route-replay (ok (forward next_hop packet)) s = elim (Bool-cases (is_cover_sink_hop next_hop)) [
    | inl e ↦ rw e refl
    | inr e ↦ rw e refl
  ]
  route-replay (ok loop_returned) s = refl
  route-replay (ok dropped) s = refl
  route-replay (err integrity_failure) s = refl
  route-replay (err replay_rejected) s = refl
  route-replay (err e) s = refl

  -- The packets that the relay has to forward: those that `process` takes to a hop that is not the
  -- sink of cover.
  abbrev pub is_forwarded : Result CryptoError Processed → ℕ
  is_forwarded (ok (forward next_hop packet)) = if is_cover_sink_hop next_hop then 0 else 1
  is_forwarded (ok _) = 0
  is_forwarded (err e) = 0

  unfoldable pub to_forward : List RelayEvent → ReplayCache F → ℕ
  to_forward [] c = 0
  to_forward (inbound packet ∷ es) c =
      let r = process p subtle fill_threshold packet node.secret c in
      is_forwarded r.0 + to_forward es r.1
  to_forward (control command ∷ es) c = to_forward es c
  to_forward (taken ∷ es) c = to_forward es c

  is_forwarded-one : (result : Result CryptoError Processed) → is_forwarded result ≤ 1
  is_forwarded-one (ok (forward next_hop packet)) = elim (Bool-cases (is_cover_sink_hop next_hop)) [
    | inl sink ↦ rw sink (omega arith)
    | inr real ↦ rw real (omega arith)
  ]
  is_forwarded-one (ok loop_returned) = omega arith
  is_forwarded-one (ok dropped) = omega arith
  is_forwarded-one (err e) = omega arith

  pub to_forward-few : (es : List RelayEvent) (c : ReplayCache F) → to_forward es c ≤ length es
  unfolding to_forward
  to_forward-few [] c = omega arith
  to_forward-few (inbound packet ∷ es) c =
      let r = process p subtle fill_threshold packet node.secret c in
      let one : is_forwarded r.0 ≤ 1 = is_forwarded-one r.0 in
      omega (arith, one, to_forward-few es r.1)
  to_forward-few (control command ∷ es) c = omega (arith, to_forward-few es c)
  to_forward-few (taken ∷ es) c = omega (arith, to_forward-few es c)

  -- From `s` to `s'` the relay forwarded `k` packets, and its round observed as many flows.
  pub record Forwards (s s' : State) (k : ℕ) : Type 0 where
    pub observed : s'.round ≡ observe_all k s.round
    pub counted : s'.stats.forwarded_count % 2 ^ 64 ≡ (s.stats.forwarded_count + k) % 2 ^ 64
    pub uncovered : s'.stats.cover_flow_count ≡ s.stats.cover_flow_count
    pub unsent : s'.cover_tx ≡ s.cover_tx

  Forwards-none :
      (s s' : State)
      → s'.round ≡ s.round
      → s'.stats.forwarded_count ≡ s.stats.forwarded_count
      → s'.stats.cover_flow_count ≡ s.stats.cover_flow_count
      → s'.cover_tx ≡ s.cover_tx
      → Forwards s s' 0
  unfolding observe_all
  Forwards-none s s' same count cover quiet = record {
    observed = same;
    counted = omega (arith, count);
    uncovered = cover;
    unsent = quiet;
  }

  route-Forwards :
      (result : Result CryptoError Processed) (s : State)
      → Forwards s (routed result s).1 (is_forwarded result)
  unfolding route forward_packet observe_all
  route-Forwards (ok (forward next_hop packet)) s = elim (Bool-cases (is_cover_sink_hop next_hop)) [
    | inl sink ↦
        rw sink (record { observed = refl; counted = omega arith; uncovered = refl; unsent = refl })
    | inr real ↦
        rw real (record { observed = refl; counted = omega arith; uncovered = refl; unsent = refl })
  ]
  route-Forwards (ok loop_returned) s = Forwards-none s _ refl refl refl refl
  route-Forwards (ok dropped) s = Forwards-none s _ refl refl refl refl
  route-Forwards (err integrity_failure) s = Forwards-none s _ refl refl refl refl
  route-Forwards (err replay_rejected) s = Forwards-none s _ refl refl refl refl
  route-Forwards (err e) s = Forwards-none s _ refl refl refl refl

  Forwards-then : (s t u : State) (n k : ℕ) → Forwards s t n → Forwards t u k → Forwards s u (n + k)
  Forwards-then s t u n k f g = record {
    observed = g.observed ∙ ap (observe_all k) f.observed ∙ observe_all-add n k s.round;
    counted = omega (arith, f.counted, g.counted);
    uncovered = g.uncovered ∙ f.uncovered;
    unsent = g.unsent ∙ f.unsent;
  }

  -- No command among the events.
  abbrev pub IsUncommanded : List RelayEvent → Type 0
  IsUncommanded [] = Unit {0}
  IsUncommanded (inbound packet ∷ es) = IsUncommanded es
  IsUncommanded (taken ∷ es) = IsUncommanded es
  IsUncommanded (control command ∷ es) = ⊥

  pub run-Forwards :
      (es : List RelayEvent) (s : State)
      → IsUncommanded es
      → (ran es s).0 ≡ true
      → Forwards s (ran es s).1 (to_forward es s.replay)
  unfolding run turn process_one_packet observe_all to_forward
  run-Forwards [] s free h = Forwards-none s s refl refl refl refl
  run-Forwards (control command ∷ es) s free h = absurd free
  run-Forwards (taken ∷ es) s free h =
      let t = (turned taken s).1 in
      let rest = run-Forwards es t free h in
      record {
        observed = rest.observed;
        counted = rest.counted;
        uncovered = rest.uncovered;
        unsent = rest.unsent;
      }
  run-Forwards (inbound packet ∷ es) s free h =
      let (on, same) =
        run_step p subtle fill_threshold rng sample_mixing_delay out cover_send node
          (inbound packet) es s h in
      let r = process p subtle fill_threshold packet node.secret s.replay in
      let t = (routed r.0 (record s { replay = r.1 })).1 in
      let kept : t.replay ≡ r.1 = route-replay r.0 (record s { replay = r.1 }) in
      let f = route-Forwards r.0 (record s { replay = r.1 }) in
      let first : Forwards s t (is_forwarded r.0) = record {
        observed = f.observed;
        counted = f.counted;
        uncovered = f.uncovered;
        unsent = f.unsent;
      } in
      let rest : (ran es t).0 ≡ true = ap (λ q. q.0) (sym same) ∙ h in
      let later : Forwards t (ran es t).1 (to_forward es r.1) =
        subst (λ c. Forwards t (ran es t).1 (to_forward es c)) kept (run-Forwards es t free rest) in
      subst (λ (q : Bool × State). Forwards s q.1 (to_forward (inbound packet ∷ es) s.replay))
        (sym same) (Forwards-then s t _ (is_forwarded r.0) (to_forward es r.1) first later)
