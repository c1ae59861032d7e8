-- ===== src/Relay/Rates.antt =====
-- crates/aegis-relay/src/peer_health.rs: the median of reported failure rates.
--
-- The arithmetic on f64 is the parameter `Floats`.
use anonymous.Common.Sums.{sum}
use anonymous.Common.{
  ℕ, ◌+◌, ◌-◌, ◌*◌, ◌/◌, ◌%◌, ◌^◌, Bool, ◌&&◌, Option, none, some, List, [], ◌∷◌, length, get_or,
  ◌==◌, if◌then◌else◌, min,
}

-- What the code takes from f64, with the constants of the policy.
pub record Floats : Type 1 where
  pub F : Type 0
  -- `a as f64 / b as f64`, `a <= b`, `a < b`, `a + b`, `(a + b) / 2.0`, `1.0 - a`.
  pub ratio : ℕ → ℕ → F
  pub le : F → F → Bool
  pub lt : F → F → Bool
  pub plus : F → F → F
  pub midpoint : F → F → F
  pub one_minus : F → F
  -- `(total as f64 / n as f64).round().max(1.0) as u64` and `(rate * n as f64).round() as u64`.
  pub average : ℕ → ℕ → ℕ
  pub portion : F → ℕ → ℕ
  pub is_finite : F → Bool
  pub clamp_unit : F → F
  -- `0.0`, `DEFAULT_ECLIPSE_MEDIAN_GAP` and `DEFAULT_ECLIPSE_HONEST_BASELINE`.
  pub nought : F
  pub default_gap : F
  pub default_baseline : F

abbrev pub u64_max : ℕ
u64_max = 2 ^ 64 - 1

abbrev pub saturating_add : ℕ → ℕ → ℕ
saturating_add a b = min (a + b) u64_max

abbrev pub saturating_mul : ℕ → ℕ → ℕ
saturating_mul a b = min (a * b) u64_max

module _ (f : Floats) where
  -- The loop of `median_outcome_counts`: rates and totals of the windows that are not empty.
  unfoldable pub rates_of : List (ℕ × ℕ) → List f.F
  rates_of [] = []
  rates_of ((ok_, fail) ∷ obs) =
      let rest = rates_of obs in
      let total = saturating_add ok_ fail in if total == 0 then rest else f.ratio fail total ∷ rest

  unfoldable pub totals_of : List (ℕ × ℕ) → List ℕ
  totals_of [] = []
  totals_of ((ok_, fail) ∷ obs) =
      let rest = totals_of obs in
      let total = saturating_add ok_ fail in if total == 0 then rest else total ∷ rest

  -- `rates.sort_by(..)`, which is stable.
  unfoldable pub insert_rate : f.F → List f.F → List f.F
  insert_rate r [] = r ∷ []
  insert_rate r (s ∷ rates) =
      let rest = insert_rate r rates in if f.le r s then r ∷ s ∷ rates else s ∷ rest

  unfoldable pub sort_rates : List f.F → List f.F
  sort_rates [] = []
  sort_rates (r ∷ rates) = insert_rate r (sort_rates rates)

  -- The middle of the sorted rates, of which there is one at least.
  unfoldable pub median_of : List f.F → f.F
  median_of rates =
      let mid = length rates / 2 in
      if length rates % 2 == 1
      then get_or rates mid f.nought
      else f.midpoint (get_or rates (mid - 1) f.nought) (get_or rates mid f.nought)

  -- `totals.iter().sum::<u64>()` wraps in a release build.
  unfoldable pub median_outcome_counts : List (ℕ × ℕ) → Option (ℕ × ℕ)
  median_outcome_counts obs =
      let rates = rates_of obs in
      let totals = totals_of obs in
      if length rates == 0
      then none
      else let median_rate = median_of (sort_rates rates) in
        let sample_total = f.average (sum totals % 2 ^ 64) (length totals) in
        let fail = min (f.portion median_rate sample_total) sample_total in
        let ok_ = sample_total - fail in
        if (ok_ == 0) && (fail == 0) then none else some (ok_, fail)
