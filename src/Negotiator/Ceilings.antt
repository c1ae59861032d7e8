-- ===== src/Negotiator/Ceilings.antt =====
-- Plans under the file-size ceiling of crates/aegis-negotiator/src/ceiling.rs.
use anonymous.Common.Results.{ok}
use anonymous.Common.Sums.{sum, sum-append, sum-replicate, All, All-append, All-replicate}
use native.Mathlib.Nat.{mul-le-mul_right, div-add-mod', mod-lt}
use anonymous.Common.{
  ℕ, suc, ◌+◌, ◌*◌, ◌/◌, ◌%◌, ◌≤◌, ◌<◌, ◌≡◌, ◌∙◌, Bool, true, false, List, [], ◌∷◌, ◌++◌, arith,
  inl, inr, Bool-cases, length, length-append, length-replicate, replicate, max, ltb, leb, ◌==◌,
  if◌then◌else◌,
}
use anonymous.Negotiator.{
  OverflowPolicy, fragments, accepts_exposure, BulkPlan, single, fragment, accept_exposure,
  fragment_sizes, enforce_ceiling,
}

pub chunks : ℕ → ℕ → ℕ → List ℕ
chunks full most rem = replicate full most ++ (if ltb 0 rem then rem ∷ [] else [])

rem_none : (rem : ℕ) → ltb 0 rem ≡ false → rem ≡ 0
rem_none rem h = ground (arith, h)

count_bound : (full most rem n : ℕ) → n ≤ suc full → n * most ≤ full * most + rem + most
count_bound full most rem n h =
    let step : n * most ≤ suc full * most = mul-le-mul_right most h in ground (arith, step)

chunks_lem :
    (full most rem : ℕ)
    → rem < most
    → (sum (chunks full most rem) ≡ full * most + rem)
      × All (λ chunk. chunk ≤ most) (chunks full most rem)
      × (length (chunks full most rem) * most ≤ full * most + rem + most)
unfolding chunks
chunks_lem full most rem small = elim (Bool-cases (ltb 0 rem)) [
  | inl some_left ↦ rw some_left (
    omega (arith, sum-append (replicate full most) (rem ∷ []), sum-replicate full most),
    All-append (λ chunk. chunk ≤ most) (replicate full most) (rem ∷ [])
        (All-replicate (λ chunk. chunk ≤ most) full most (omega arith)) (omega (arith, small), tt),
    count_bound full most rem (length (replicate full most ++ (rem ∷ [])))
        (omega (arith, length-append (replicate full most) (rem ∷ []), length-replicate full most)),
  )
  | inr none_left ↦ rw none_left (
    omega (
      arith,
      sum-append (replicate full most) [],
      sum-replicate full most,
      rem_none rem none_left,
    ),
    All-append (λ chunk. chunk ≤ most) (replicate full most) []
        (All-replicate (λ chunk. chunk ≤ most) full most (omega arith)) tt,
    count_bound full most rem (length (replicate full most ++ []))
        (omega (arith, length-append (replicate full most) [], length-replicate full most)),
  )
]

-- For a maximum of at least one byte, the chunks add up to the file, none is above the maximum, and
-- no chunk can be spared.
pub fragment_sizes_lem :
    (size most : ℕ)
    → 0 < most
    → (sum (fragment_sizes size most) ≡ size)
      × All (λ chunk. chunk ≤ most) (fragment_sizes size most)
      × (length (fragment_sizes size most) * most ≤ size + most)
unfolding fragment_sizes chunks
fragment_sizes_lem size most pos =
    let whole : size / most * most + size % most ≡ size = div-add-mod' size most in
    elim (Bool-cases (size == 0)) [
      | inl nothing ↦ rw nothing (ground (arith, nothing), (omega (arith, pos), tt), ground arith)
      | inr something ↦
          let (s, a, l) = chunks_lem (size / most) most (size % most) (mod-lt size pos) in
          rw something (s ∙ whole, a, omega (arith, l, whole))
    ]

-- The transfers of a plan, and the most that one of them may carry.
abbrev pub transfers : BulkPlan → List ℕ
transfers (single size) = size ∷ []
transfers (fragment sizes most) = sizes
transfers (accept_exposure size most) = size ∷ []

abbrev pub limit : OverflowPolicy → ℕ → ℕ → ℕ
limit fragments size ceiling = ceiling
limit accepts_exposure size ceiling = max size ceiling

within_limit :
    (size ceiling : ℕ) (policy : OverflowPolicy) → size ≤ ceiling → size ≤ limit policy size ceiling
within_limit size ceiling fragments h = h
within_limit size ceiling accepts_exposure h = omega arith

module _ {F : Type 0} (positive_finite : F → Bool) (floor_u64 : F → ℕ) where
  plan_above :
      (size : ℕ) (f_max : F) (policy : OverflowPolicy)
      → positive_finite f_max ≡ true
      → 0 < floor_u64 f_max
      → leb size (floor_u64 f_max) ≡ false
      → (plan : BulkPlan) × (enforce_ceiling positive_finite floor_u64 size f_max policy ≡ ok plan)
        × (sum (transfers plan) ≡ size)
        × All (λ bytes. bytes ≤ limit policy size (floor_u64 f_max)) (transfers plan)
  unfolding enforce_ceiling
  plan_above size f_max fragments valid pos above =
      let (total, each, few) = fragment_sizes_lem size (floor_u64 f_max) pos in
      (
        fragment (fragment_sizes size (floor_u64 f_max)) (floor_u64 f_max),
        ground (arith, valid, pos, above),
        total,
        each,
      )
  plan_above size f_max accepts_exposure valid pos above = (
    accept_exposure size (floor_u64 f_max),
    ground (arith, valid, pos, above),
    omega arith,
    (omega arith, tt),
  )

  -- Under a positive and finite ceiling of at least one byte there is always a plan. Its transfers
  -- add up to the file, and under the fragmenting policy each stays below the ceiling.
  pub enforce_ceiling_lem :
      (size : ℕ) (f_max : F) (policy : OverflowPolicy)
      → positive_finite f_max ≡ true
      → 0 < floor_u64 f_max
      → (plan : BulkPlan) × (enforce_ceiling positive_finite floor_u64 size f_max policy ≡ ok plan)
        × (sum (transfers plan) ≡ size)
        × All (λ bytes. bytes ≤ limit policy size (floor_u64 f_max)) (transfers plan)
  unfolding enforce_ceiling
  enforce_ceiling_lem size f_max policy valid pos = elim (Bool-cases (leb size (floor_u64 f_max))) [
    | inl below ↦ (
      single size,
      ground (arith, valid, pos, below),
      omega arith,
      (within_limit size (floor_u64 f_max) policy (ground (arith, below)), tt),
    )
    | inr above ↦ plan_above size f_max policy valid pos above
  ]
