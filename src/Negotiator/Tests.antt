-- ===== src/Negotiator/Tests.antt =====
-- The negotiator's theorems at concrete transfers and rounds.
use anonymous.Common.Results.{ok}
use anonymous.Common.Sums.{sum, All}
use anonymous.Common.{◌+◌, ◌≤◌, ◌≡◌, refl, [], ◌∷◌, arith, ltb}
use anonymous.Negotiator.{
  required_cover_flow_count, fragments, BulkPlan, fragment_sizes, enforce_ceiling,
}
use anonymous.Negotiator.Dials.{required_cover_flow_count_lem}
use anonymous.Negotiator.Ceilings.{transfers, enforce_ceiling_lem}

-- The source's test: 250 bytes under a ceiling of 100.
three_chunks : fragment_sizes 250 100 ≡ 100 ∷ 100 ∷ 50 ∷ []
unfolding fragment_sizes
three_chunks = refl

required_cover_flow_count_lem_example : 3 + required_cover_flow_count 3 8 ≡ 8
required_cover_flow_count_lem_example = required_cover_flow_count_lem 3 8 (omega arith)

-- Whole-numbered ceilings.
enforce_ceiling_lem_example :
    (plan : BulkPlan) × (enforce_ceiling (ltb 0) (λ n. n) 250 100 fragments ≡ ok plan)
    × (sum (transfers plan) ≡ 250)
    × All (λ bytes. bytes ≤ 100) (transfers plan)
enforce_ceiling_lem_example =
    enforce_ceiling_lem (ltb 0) (λ n. n) 250 100 fragments refl (omega arith)
