-- ===== src/Relay/Health/Median.antt =====
-- The median of the reported failure rates, when most reports agree on a range.
use anonymous.Common.Sums.{All, sum}
use anonymous.Common.{
  ℕ, zero, suc, ◌+◌, ◌-◌, ◌*◌, ◌/◌, ◌%◌, ◌^◌, ◌≤◌, ◌<◌, ◌≡◌, refl, ap, ◌∙◌, ◌⊎◌, inl, inr, Bool,
  true, false, not, ◌&&◌, some, List, [], ◌∷◌, length, get_or, ◌==◌, if◌then◌else◌, min, arith,
  Bool-cases,
}
use anonymous.Relay.Rates.{
  Floats, insert_rate, sort_rates, rates_of, totals_of, median_of, median_outcome_counts,
}

-- What f64 has on numbers: `<=` is a total order, the mean of two rates is between the same
-- bounds, and a rounded average is 1 at least. The median takes only rates in [0, 1], where f64 has
-- all of this.
pub record RateLaws (f : Floats) : Type 0 where
  pub total : (a b : f.F) → (f.le a b ≡ true) ⊎ (f.le b a ≡ true)
  pub trans : (a b c : f.F) → f.le a b ≡ true → f.le b c ≡ true → f.le a c ≡ true
  pub midpoint_ge :
      (lo a b : f.F) → f.le lo a ≡ true → f.le lo b ≡ true → f.le lo (f.midpoint a b) ≡ true
  pub midpoint_le :
      (hi a b : f.F) → f.le a hi ≡ true → f.le b hi ≡ true → f.le (f.midpoint a b) hi ≡ true
  pub average_pos : (t n : ℕ) → 1 ≤ f.average t n

unfoldable pub count {ℓ} : {A : Type ℓ} → (A → Bool) → List A → ℕ
count p [] = 0
count p (x ∷ xs) = let rest = count p xs in if p x then suc rest else rest

count_le {ℓ} : {A : Type ℓ} (p : A → Bool) (xs : List A) → count p xs ≤ length xs
unfolding count
count_le p [] = omega arith
count_le p (x ∷ xs) = ground (arith, count_le p xs)

count_apart {ℓ} :
    {A : Type ℓ} (p q : A → Bool) (xs : List A)
    → ((x : A) → p x ≡ true → q x ≡ false)
    → count p xs + count q xs ≤ length xs
unfolding count
count_apart p q [] h = omega arith
count_apart p q (x ∷ xs) h = elim (Bool-cases (p x)) [
  | inl e ↦ rw (e, h x e) (omega (arith, count_apart p q xs h))
  | inr e ↦ ground (arith, e, count_apart p q xs h)
]

count-All {ℓ} :
    {A : Type ℓ} (p : A → Bool) (xs : List A) → All (λ x. p x ≡ true) xs → count p xs ≡ length xs
unfolding count
count-All p [] a = refl
count-All p (x ∷ xs) (e, a) = rw e (ap suc (count-All p xs a))

All-map {ℓ m n} :
    {A : Type ℓ} (P : A → Type m) (Q : A → Type n) (xs : List A)
    → ((x : A) → P x → Q x)
    → All P xs
    → All Q xs
All-map P Q [] f a = tt
All-map P Q (x ∷ xs) f (h, a) = (f x h, All-map P Q xs f a)

module _ (f : Floats) where
  -- The reports whose rate is between `lo` and `hi`.
  unfoldable pub within : f.F → f.F → f.F → Bool
  within lo hi r = f.le lo r && f.le r hi

  unfoldable pub agreeing : f.F → f.F → List f.F → ℕ
  agreeing lo hi rates = count (within lo hi) rates

  agreeing_le : (lo hi : f.F) (xs : List f.F) → agreeing lo hi xs ≤ length xs
  unfolding agreeing
  agreeing_le lo hi xs = count_le (within lo hi) xs

  within-lo : (lo hi r : f.F) → within lo hi r ≡ true → not (f.le lo r) ≡ false
  unfolding within
  within-lo lo hi r h = ground (arith, h)

  within-hi : (lo hi r : f.F) → within lo hi r ≡ true → not (f.le r hi) ≡ false
  unfolding within
  within-hi lo hi r h = ground (arith, h)

  length-insert_rate : (r : f.F) (xs : List f.F) → length (insert_rate f r xs) ≡ suc (length xs)
  unfolding insert_rate
  length-insert_rate r [] = refl
  length-insert_rate r (x ∷ xs) = ground (arith, length-insert_rate r xs)

  length-sort_rates : (xs : List f.F) → length (sort_rates f xs) ≡ length xs
  unfolding sort_rates
  length-sort_rates [] = refl
  length-sort_rates (x ∷ xs) =
      length-insert_rate x (sort_rates f xs) ∙ ap suc (length-sort_rates xs)

  count-insert_rate :
      (p : f.F → Bool) (r : f.F) (xs : List f.F) → count p (insert_rate f r xs) ≡ count p (r ∷ xs)
  unfolding insert_rate count
  count-insert_rate p r [] = refl
  count-insert_rate p r (x ∷ xs) = ground (arith, count-insert_rate p r xs)

  count-sort_rates : (p : f.F → Bool) (xs : List f.F) → count p (sort_rates f xs) ≡ count p xs
  unfolding sort_rates count
  count-sort_rates p [] = refl
  count-sort_rates p (x ∷ xs) =
      count-insert_rate p x (sort_rates f xs) ∙ rw (count, count-sort_rates p xs) refl

  Sorted : List f.F → Type 0
  Sorted [] = Unit
  Sorted (x ∷ xs) = All (λ y. f.le x y ≡ true) xs × Sorted xs

  All-insert_rate :
      (x r : f.F) (xs : List f.F)
      → f.le x r ≡ true
      → All (λ y. f.le x y ≡ true) xs
      → All (λ y. f.le x y ≡ true) (insert_rate f r xs)
  unfolding insert_rate
  All-insert_rate x r [] h a = (h, tt)
  All-insert_rate x r (y ∷ xs) h (hy, a) = elim (Bool-cases (f.le r y)) [
    | inl e ↦ rw e (h, (hy, a))
    | inr e ↦ rw e (hy, All-insert_rate x r xs h a)
  ]

  module _ (laws : RateLaws f) where
    insert_rate-Sorted : (r : f.F) (xs : List f.F) → Sorted xs → Sorted (insert_rate f r xs)
    unfolding insert_rate Sorted
    insert_rate-Sorted r [] s = (tt, tt)
    insert_rate-Sorted r (x ∷ xs) (a, s) = elim (Bool-cases (f.le r x)) [
      | inl e ↦
          let behind =
            All-map (λ y. f.le x y ≡ true) (λ y. f.le r y ≡ true) xs (λ y h. laws.trans r x y e h)
              a in
          rw (e, Sorted) ((e, behind), (a, s))
      | inr e ↦
          let below : f.le x r ≡ true = elim (laws.total r x) [
            | inl h ↦ absurd (ground (arith, e, h))
            | inr h ↦ h
          ] in
          rw (e, Sorted) (All-insert_rate x r xs below a, insert_rate-Sorted r xs s)
    ]

    sort_rates-Sorted : (xs : List f.F) → Sorted (sort_rates f xs)
    unfolding sort_rates Sorted
    sort_rates-Sorted [] = tt
    sort_rates-Sorted (x ∷ xs) = insert_rate-Sorted x (sort_rates f xs) (sort_rates-Sorted xs)

    get_or-Sorted :
        (x d : f.F) (ys : List f.F) (i : ℕ)
        → All (λ y. f.le x y ≡ true) ys
        → i < length ys
        → f.le x (get_or ys i d) ≡ true
    get_or-Sorted x d [] i a h = absurd (omega arith)
    get_or-Sorted x d (y ∷ ys) zero (hy, a) h = hy
    get_or-Sorted x d (y ∷ ys) (suc i) (hy, a) h = get_or-Sorted x d ys i a (omega arith)

    -- All that stand before an element below `lo` are below `lo`.
    below_count :
        (lo d : f.F) (ys : List f.F) (i : ℕ)
        → Sorted ys
        → i < length ys
        → f.le lo (get_or ys i d) ≡ false
        → suc i ≤ count (λ y. not (f.le lo y)) ys
    unfolding Sorted count
    below_count lo d [] i s h e = absurd (omega arith)
    below_count lo d (y ∷ ys) zero s h e = rw e (omega arith)
    below_count lo d (y ∷ ys) (suc i) (a, s) h e =
        let rest = below_count lo d ys i s (omega arith) e in
        elim (Bool-cases (f.le lo y)) [
          | inl up ↦
              let reach =
                laws.trans lo y (get_or ys i d) up (get_or-Sorted y d ys i a (omega arith)) in
              absurd (ground (arith, reach, e))
          | inr down ↦ rw down (omega (arith, rest))
        ]

    -- All that stand behind an element above `hi` are above `hi`.
    above_count :
        (hi d : f.F) (ys : List f.F) (i : ℕ)
        → Sorted ys
        → i < length ys
        → f.le (get_or ys i d) hi ≡ false
        → length ys ≤ i + count (λ y. not (f.le y hi)) ys
    unfolding Sorted count
    above_count hi d [] i s h e = absurd (omega arith)
    above_count hi d (y ∷ ys) zero (a, s) h e =
        let over : (z : f.F) → f.le y z ≡ true → not (f.le z hi) ≡ true = λ z up.
          elim (Bool-cases (f.le z hi)) [
            | inl low ↦ absurd (ground (arith, laws.trans y z hi up low, e))
            | inr high ↦ rw high refl
          ] in
        let rest =
          count-All (λ z. not (f.le z hi)) ys
            (All-map (λ z. f.le y z ≡ true) (λ z. not (f.le z hi) ≡ true) ys over a) in
        rw e (omega (arith, rest))
    above_count hi d (y ∷ ys) (suc i) (a, s) h e =
        let rest = above_count hi d ys i s (omega arith) e in
        elim (Bool-cases (f.le y hi)) [
          | inl low ↦ rw low (omega (arith, rest))
          | inr high ↦ rw high (omega (arith, rest))
        ]

    -- An element near the middle is within the range on which most agree.
    middle_within :
        (lo hi d : f.F) (xs : List f.F) (i : ℕ)
        → length xs < 2 * agreeing lo hi xs
        → 2 * i ≤ length xs
        → length xs ≤ 2 * (i + 1)
        → (f.le lo (get_or (sort_rates f xs) i d) ≡ true)
          × (f.le (get_or (sort_rates f xs) i d) hi ≡ true)
    unfolding agreeing
    middle_within lo hi d xs i most early late =
        let ys = sort_rates f xs in
        let size = length-sort_rates xs in
        let sorted = sort_rates-Sorted xs in
        let low = count_apart (within lo hi) (λ y. not (f.le lo y)) xs (within-lo lo hi) in
        let high = count_apart (within lo hi) (λ y. not (f.le y hi)) xs (within-hi lo hi) in
        let few_low = count-sort_rates (λ y. not (f.le lo y)) xs in
        let few_high = count-sort_rates (λ y. not (f.le y hi)) xs in
        let inside : i < length ys = omega (arith, size, most, late, count_le (within lo hi) xs) in
        (
          elim (Bool-cases (f.le lo (get_or ys i d))) [
            | inl e ↦ e
            | inr e ↦
                absurd
                  (omega (arith, below_count lo d ys i sorted inside e, few_low, low, most, late))
          ],
          elim (Bool-cases (f.le (get_or ys i d) hi)) [
            | inl e ↦ e
            | inr e ↦ absurd (
                omega
                  (arith, above_count hi d ys i sorted inside e, few_high, high, most, early, size))
          ],
        )

    median_of-within :
        (lo hi : f.F) (xs : List f.F)
        → length xs < 2 * agreeing lo hi xs
        → (f.le lo (median_of f (sort_rates f xs)) ≡ true)
          × (f.le (median_of f (sort_rates f xs)) hi ≡ true)
    unfolding median_of
    median_of-within lo hi xs most =
        let n = length xs in
        let size = length-sort_rates xs in
        let some_rate : 0 < n = omega (arith, most, agreeing_le lo hi xs) in
        rw size (elim (Bool-cases (n % 2 == 1)) [
          | inl odd ↦
              let rest : n % 2 ≡ 1 = ground (arith, odd) in
              rw odd (middle_within lo hi f.nought xs (n / 2) most (omega arith) (omega arith))
          | inr even ↦
              let rest : n % 2 ≡ 0 = ground (arith, even) in
              let (a, b) =
                middle_within lo hi f.nought xs (n / 2 - 1) most (omega arith) (omega arith) in
              let (c, d) =
                middle_within lo hi f.nought xs (n / 2) most (omega arith) (omega arith) in
              rw even (laws.midpoint_ge lo _ _ a c, laws.midpoint_le hi _ _ b d)
        ])

    -- If more than half of the reported windows with samples have a failure rate between `lo` and
    -- `hi`, then the merge has a result, and its failures are the rounded share of its samples, at
    -- most all of them, for a rate that is between `lo` and `hi` whatever the others report. The
    -- comparison, the mean and the average of f64 are as in `RateLaws`.
    pub median_outcome_counts-within :
        (lo hi : f.F) (obs : List (ℕ × ℕ))
        → length (rates_of f obs) < 2 * agreeing lo hi (rates_of f obs)
        → (ok_ fail : ℕ) × (rate : f.F) × (median_outcome_counts f obs ≡ some (ok_, fail))
          × (f.le lo rate ≡ true)
          × (f.le rate hi ≡ true)
          × (fail ≡ min (f.portion rate (ok_ + fail)) (ok_ + fail))
    unfolding median_outcome_counts
    median_outcome_counts-within lo hi obs most =
        let rates = rates_of f obs in
        let rate = median_of f (sort_rates f rates) in
        let samples = f.average (sum (totals_of f obs) % 2 ^ 64) (length (totals_of f obs)) in
        let fail = min (f.portion rate samples) samples in
        let pos = laws.average_pos (sum (totals_of f obs) % 2 ^ 64) (length (totals_of f obs)) in
        let (low, high) = median_of-within lo hi rates most in
        let some_rate : (length rates == 0) ≡ false =
          ground (arith, most, agreeing_le lo hi rates) in
        let some_sample : ((samples - fail == 0) && (fail == 0)) ≡ false = ground arith in
        let whole : samples - fail + fail ≡ samples = omega arith in
        (samples - fail, fail, rate, rw (some_rate, some_sample) refl, low, high, rw whole refl)
