-- ===== src/CoverFlow/Rounds.antt =====
-- A bulk round from `begin` to `close_and_emit`: the number of flows that an observer counts.
use anonymous.Negotiator.{
  SecurityDial, l2_uniform_batched, CoverRequirement, required_cover_flow_count,
  dial_needs_cover_plan,
}
use anonymous.Kem.{Primitives}
use anonymous.CoverFlow.{
  baseline_local_discard, CoverFlowConfig, BulkRoundTracker, begin, observe_real_flow, closed, Rng,
  plan_cover_emit, should_emit, emit, close_and_emit,
}
use anonymous.CoverFlow.Plans.{emitted, flows_of, emit-flows, generate_plan-baseline}
use anonymous.Common.{
  ℕ, zero, suc, ◌+◌, ◌-◌, ◌%◌, length, refl, ◌^◌, ◌<◌, ◌≡◌, ap, ◌∙◌, inl, inr, true, arith, max,
  ltb, if◌then◌else◌, Bool-cases,
}

-- `n` real flows in a row.
unfoldable pub observe_all : ℕ → BulkRoundTracker → BulkRoundTracker
observe_all zero t = t
observe_all (suc n) t = observe_all n (observe_real_flow t)

abbrev open_round : SecurityDial → CoverRequirement → ℕ → BulkRoundTracker
open_round dial requirement real = record {
  active = true;
  dial = dial;
  requirement = requirement;
  real_flow_count = real;
}

observe_all-open :
    (n k : ℕ) (dial : SecurityDial) (requirement : CoverRequirement)
    → observe_all n (open_round dial requirement k) ≡ open_round dial requirement (k + n)
unfolding observe_all observe_real_flow
observe_all-open zero k dial requirement =
    let e : k ≡ k + 0 = omega arith in ap (open_round dial requirement) e
observe_all-open (suc n) k dial requirement =
    let e : k + 1 + n ≡ k + suc n = omega arith in
    observe_all-open n (k + 1) dial requirement ∙ ap (open_round dial requirement) e

module _ (p : Primitives) {S : Type 0} (rng : Rng p S) where
  -- Closing always leaves an idle tracker, and on an idle tracker it does nothing.
  pub close_and_emit-closed :
      (t : BulkRoundTracker) (config : CoverFlowConfig p) (s : S)
      → (close_and_emit p rng t config s).0 ≡ (if t.active then closed t else t)
  unfolding close_and_emit
  close_and_emit-closed t config s = elim (Bool-cases t.active) [
    | inl on ↦ ground (arith, on)
    | inr off ↦ ground (arith, off)
  ]

  close_and_emit-counts :
      (t : BulkRoundTracker) (config : CoverFlowConfig p) (s : S)
      → let r = (close_and_emit p rng t config s).1.0 in
        emitted p rng r ≡ length (flows_of p rng r) % 2 ^ 32
  unfolding close_and_emit emit
  close_and_emit-counts t config s =
      let target = t.requirement.target_flow_count in
      let plan =
        plan_cover_emit config.multihop_defense t.dial t.real_flow_count target
          config.matched_cover_flows config.cover_onion_flows in
      elim (Bool-cases t.active) [
        | inr off ↦ rw (off, close_and_emit) refl
        | inl on ↦
            elim (Bool-cases
              (should_emit p rng config.multihop_defense t.dial t.real_flow_count target plan)) [
                | inl due ↦ rw (on, close_and_emit) (rw due ((emit-flows p rng t config s).1))
                | inr idle ↦ rw (on, close_and_emit) (rw idle refl)
              ]
      ]

  close_open :
      (requirement : CoverRequirement) (real : ℕ) (config : CoverFlowConfig p) (s : S)
      → config.multihop_defense ≡ baseline_local_discard
      → length (
          flows_of p rng
            (close_and_emit p rng (open_round l2_uniform_batched requirement real) config s).1.0)
        ≡ required_cover_flow_count real requirement.target_flow_count
  unfolding close_and_emit dial_needs_cover_plan
  close_open requirement real config s base =
      let t = open_round l2_uniform_batched requirement real in
      let (made, _) = emit-flows p rng t config s in
      let planned = generate_plan-baseline p rng requirement config real s base in
      let plan =
        plan_cover_emit config.multihop_defense l2_uniform_batched real
          requirement.target_flow_count config.matched_cover_flows config.cover_onion_flows in
      let gate : should_emit p rng config.multihop_defense l2_uniform_batched real
            requirement.target_flow_count plan
          ≡ ltb 0 (required_cover_flow_count real requirement.target_flow_count) =
        unfold should_emit in
        ap (λ m. should_emit p rng m l2_uniform_batched real requirement.target_flow_count plan)
          base in
      elim (Bool-cases (ltb 0 (required_cover_flow_count real requirement.target_flow_count))) [
        | inl short ↦ rw (gate ∙ short, close_and_emit) (made ∙ planned)
        | inr filled ↦
            let none_needed : required_cover_flow_count real requirement.target_flow_count ≡ 0 =
              ground (arith, filled) in
            rw (gate ∙ filled, close_and_emit) (ground (arith, none_needed))
      ]

  -- The flows at the close of a round are those that are missing to the target.
  pub round_flows :
      (t : BulkRoundTracker) (requirement : CoverRequirement) (n : ℕ) (config : CoverFlowConfig p)
      (s : S)
      → config.multihop_defense ≡ baseline_local_discard
      → n < 2 ^ 32
      → let r =
          (close_and_emit p rng
            (observe_all n (begin t l2_uniform_batched requirement))
            config
            s).1.0 in
        (length (flows_of p rng r) ≡ requirement.target_flow_count - n)
        × (emitted p rng r ≡ length (flows_of p rng r) % 2 ^ 32)
  unfolding begin required_cover_flow_count
  round_flows t requirement n config s base few =
      let zero_first : 0 + n ≡ n = omega arith in
      let started =
        observe_all-open n 0 l2_uniform_batched requirement
        ∙ ap (open_round l2_uniform_batched requirement) zero_first in
      (
        rw started (omega (arith, close_open requirement n config s base, few)),
        close_and_emit-counts (observe_all n (begin t l2_uniform_batched requirement)) config s,
      )

  -- A round under uniform batching with the baseline defense: whatever the number of real flows
  -- that were observed, below 2^32, the cover flows at its close bring the count up to the target,
  -- and add none when the target is already reached.
  pub round-constant :
      (t : BulkRoundTracker) (requirement : CoverRequirement) (n : ℕ) (config : CoverFlowConfig p)
      (s : S)
      → config.multihop_defense ≡ baseline_local_discard
      → n < 2 ^ 32
      → requirement.target_flow_count < 2 ^ 32
      → n
          + emitted p rng
              (close_and_emit p rng
                (observe_all n (begin t l2_uniform_batched requirement))
                config
                s).1.0
        ≡ max n requirement.target_flow_count
  round-constant t requirement n config s base few bound =
      omega (arith, round_flows t requirement n config s base few, bound)
