-- ===== src/CoverFlow/Plans.antt =====
-- How many flows a plan gives, and what closing a round emits.
use anonymous.Common.Sums.{sum, All}
use anonymous.Negotiator.{
  SecurityDial, l2_uniform_batched, CoverRequirement, required_cover_flow_count,
}
use anonymous.Kem.{Primitives}
use anonymous.CoverFlow.{
  cover_fragment_reserved, cover_onion_scaffold_reserved, baseline_local_discard, CoverEmitPlan,
  plan_cover_emit, is_empty, CoverFlow, CoverFlowConfig, CoverEmitResult, CoverOnionTerminal,
  BulkRoundTracker, Rng, cover_cells, generate_one_flow, flows, peelable_flows, peelable_of,
  generate_plan, emit,
}
use anonymous.Common.{
  ℕ, zero, suc, ◌+◌, ◌*◌, ◌%◌, ◌^◌, ◌≡◌, refl, ap, inl, inr, ◌&&◌, Option, none, some, List, [],
  ◌∷◌, ◌++◌, map, arith, length, length-append, ◌==◌, Bool-cases,
}

module _ (p : Primitives) {S : Type 0} (rng : Rng p S) where
  length-cover_cells :
      (n i : ℕ) (s : S) (id reserved : List ℕ) → length (cover_cells p rng n i s id reserved).0 ≡ n
  unfolding cover_cells
  length-cover_cells zero i s id reserved = refl
  length-cover_cells (suc n) i s id reserved = ap suc (length-cover_cells n (i + 1) _ id reserved)

  length-flows :
      (n : ℕ) (config : CoverFlowConfig p) (s : S) (reserved : List ℕ)
      → (length (flows p rng n config s reserved).0 ≡ n)
        × All (λ flow. length flow ≡ config.cells_per_flow) (flows p rng n config s reserved).0
  unfolding flows generate_one_flow
  length-flows zero config s reserved = (refl, tt)
  length-flows (suc n) config s reserved =
      let (l, a) = length-flows n config _ reserved in
      (ap suc l, (length-cover_cells config.cells_per_flow 0 _ _ reserved, a))

  sum-same :
      (k : ℕ) (fs : List CoverFlow)
      → All (λ flow. length flow ≡ k) fs
      → sum (map (λ flow. length flow) fs) ≡ length fs * k
  sum-same k [] a = omega arith
  sum-same k (f ∷ fs) (e, a) = ground (arith, e, sum-same k fs a)

  abbrev planned : CoverFlowConfig p → SecurityDial → ℕ → ℕ → CoverEmitPlan
  planned config dial real target =
      plan_cover_emit config.multihop_defense dial real target config.matched_cover_flows
        config.cover_onion_flows

  -- The reported plan counts the flows that were emitted, also where a terminal is missing or a
  -- packet cannot be built.
  pub generate_plan_lem :
      (requirement : CoverRequirement) (config : CoverFlowConfig p) (dial : SecurityDial) (real : ℕ)
      (s : S)
      → let (plan, fs) = (generate_plan p rng requirement config dial real s).0 in
        length fs ≡ plan.local_discard_flows + plan.onion_scaffold_flows + plan.onion_peelable_flows
  unfolding generate_plan
  generate_plan_lem requirement config dial real s =
      let plan = planned config dial real requirement.target_flow_count in
      let a = flows p rng plan.local_discard_flows config s cover_fragment_reserved in
      let b = flows p rng plan.onion_scaffold_flows config a.1 cover_onion_scaffold_reserved in
      let c = peelable_of p rng plan.onion_peelable_flows config.cover_onion_terminal b.1 in
      omega (
        arith,
        length-append a.0 (b.0 ++ c.0),
        length-append b.0 c.0,
        (length-flows plan.local_discard_flows config s cover_fragment_reserved).0,
        (length-flows plan.onion_scaffold_flows config a.1 cover_onion_scaffold_reserved).0,
      )

  peelable_of-zero :
      (n : ℕ) (terminal : Option (CoverOnionTerminal p)) (s : S)
      → n ≡ 0
      → length (peelable_of p rng n terminal s).0 ≡ 0
  unfolding peelable_flows
  peelable_of-zero zero none s h = refl
  peelable_of-zero zero (some terminal) s h = refl
  peelable_of-zero (suc n) terminal s h = absurd (omega arith)

  planned-baseline :
      (config : CoverFlowConfig p) (real target : ℕ)
      → config.multihop_defense ≡ baseline_local_discard
      → planned config l2_uniform_batched real target ≡ record {
        local_discard_flows = required_cover_flow_count real target;
        onion_scaffold_flows = 0;
        onion_peelable_flows = 0;
      }
  unfolding plan_cover_emit
  planned-baseline config real target e = rw e refl

  -- In the baseline a plan emits as many flows as the negotiator asks for.
  pub generate_plan-baseline :
      (requirement : CoverRequirement) (config : CoverFlowConfig p) (real : ℕ) (s : S)
      → config.multihop_defense ≡ baseline_local_discard
      → length (generate_plan p rng requirement config l2_uniform_batched real s).0.1
        ≡ required_cover_flow_count real requirement.target_flow_count
  unfolding generate_plan
  generate_plan-baseline requirement config real s e =
      let target = requirement.target_flow_count in
      let plan = planned config l2_uniform_batched real target in
      let pb = planned-baseline config real target e in
      let a = flows p rng plan.local_discard_flows config s cover_fragment_reserved in
      let b = flows p rng plan.onion_scaffold_flows config a.1 cover_onion_scaffold_reserved in
      let c = peelable_of p rng plan.onion_peelable_flows config.cover_onion_terminal b.1 in
      omega (
        arith,
        length-append a.0 (b.0 ++ c.0),
        length-append b.0 c.0,
        (length-flows plan.local_discard_flows config s cover_fragment_reserved).0,
        (length-flows plan.onion_scaffold_flows config a.1 cover_onion_scaffold_reserved).0,
        ap (λ (x : CoverEmitPlan). x.local_discard_flows) pb,
        ap (λ (x : CoverEmitPlan). x.onion_scaffold_flows) pb,
        peelable_of-zero plan.onion_peelable_flows config.cover_onion_terminal b.1
            (ap (λ (x : CoverEmitPlan). x.onion_peelable_flows) pb),
      )

  -- The flows of a round's outcome.
  abbrev pub emitted : Option (CoverEmitResult p) → ℕ
  emitted none = 0
  emitted (some r) = r.cover_flow_count

  abbrev pub flows_of : Option (CoverEmitResult p) → List CoverFlow
  flows_of none = []
  flows_of (some r) = r.cover_flows

  -- The outcome has the planned flows.
  pub emit-flows :
      (t : BulkRoundTracker) (config : CoverFlowConfig p) (s : S)
      → let r = (emit p rng t config s).0 in
        (length (flows_of r)
          ≡ length (generate_plan p rng t.requirement config t.dial t.real_flow_count s).0.1)
        × (emitted r ≡ length (flows_of r) % 2 ^ 32)
  unfolding emit
  emit-flows t config s =
      let g = (generate_plan p rng t.requirement config t.dial t.real_flow_count s).0 in
      elim (Bool-cases (is_empty g.0 && (length g.1 == 0))) [
        | inl nothing ↦ rw nothing (ground (arith, nothing), refl)
        | inr something ↦ rw something (refl, refl)
      ]
