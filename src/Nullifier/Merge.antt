-- ===== src/Nullifier/Merge.antt =====
-- What is spent after two registries are merged.
use anonymous.Common.Maps.{lookup}
use anonymous.Common.Results.{ok}
use anonymous.Common.{
  ℕ, ◌+◌, ◌≡◌, refl, ap, ◌∙◌, inl, inr, Bool, true, ◌&&◌, ◌||◌, none, List, [], ◌∷◌, arith, length,
  ◌==◌, bytes_eq, bytes_eq_iff, Bool-cases,
}
use anonymous.Nullifier.{
  ReputationNullifier, NullifierRegistry, NullifierMergeReport, contains, set_of, is_spent,
  try_register, merge_set, merge_epochs, merge,
}
use anonymous.Nullifier.Spent.{registered, try_register_fresh}

already_there :
    (r : NullifierRegistry) (epoch e : ℕ) (m n : ReputationNullifier) (c : Bool)
    → is_spent r epoch m ≡ true
    → (is_spent r e n || ((e == epoch) && c))
      ≡ (is_spent r e n || ((e == epoch) && (bytes_eq n m || c)))
already_there r epoch e m n c h = elim (Bool-cases (e == epoch)) [
  | inr elsewhere ↦ ground (arith, elsewhere)
  | inl here ↦ elim (Bool-cases (bytes_eq n m)) [
    | inr other ↦ ground (arith, here, other)
    | inl same ↦
        let en : n ≡ m = (bytes_eq_iff n m).0 same in
        let ee : e ≡ epoch = ground (arith, here) in
        let spent : is_spent r e n ≡ true =
          ap (λ i. is_spent r i n) ee ∙ ap (is_spent r epoch) en ∙ h in
        ground (arith, here, same, spent)
  ]
]

merge_set_lem :
    (set : List ReputationNullifier) (r : NullifierRegistry) (epoch : ℕ)
    (report : NullifierMergeReport)
    → (r' : NullifierRegistry) × (report' : NullifierMergeReport) × (merge_set r epoch set report
        ≡ (r', ok report'))
      × ((e : ℕ) (n : ReputationNullifier)
          → is_spent r' e n ≡ (is_spent r e n || ((e == epoch) && contains set n)))
      × (report'.added + report'.already_present
          ≡ report.added + report.already_present + length set)
unfolding merge_set contains
merge_set_lem [] r epoch report = (r, report, refl, (λ e n. ground arith), omega arith)
merge_set_lem (m ∷ set) r epoch report = elim (Bool-cases (is_spent r epoch m)) [
  | inl present ↦
      let (r', report', run, spent, count) =
        merge_set_lem set r epoch
          (record report { already_present = report.already_present + 1 }) in
      (
        r',
        report',
        ground (arith, present, run),
        (λ e n. spent e n ∙ already_there r epoch e m n (contains set n) present),
        omega (arith, count),
      )
  | inr new ↦
      let r1 = (try_register r epoch m).0 in
      let (r', report', run, spent, count) =
        merge_set_lem set r1 epoch (record report { added = report.added + 1 }) in
      (
        r',
        report',
        ground (arith, new, run, try_register_fresh r epoch m new),
        (λ e n. ground (arith, spent e n, registered r epoch e m n)),
        omega (arith, count),
      )
]

-- The keys of a map are distinct.
abbrev pub UniqueKeys : List (ℕ × List ReputationNullifier) → Type 0
UniqueKeys [] = Unit {0}
UniqueKeys (entry ∷ entries) = (lookup entry.0 entries ≡ none) × UniqueKeys entries

-- The nullifiers of all epochs.
abbrev pub total : List (ℕ × List ReputationNullifier) → ℕ
total [] = 0
total (entry ∷ entries) = length entry.1 + total entries

listed :
    (epoch e : ℕ) (set : List ReputationNullifier) (entries : List (ℕ × List ReputationNullifier))
    (n : ReputationNullifier)
    → lookup epoch entries ≡ none
    → contains (set_of (lookup e ((epoch, set) ∷ entries))) n
      ≡ (((e == epoch) && contains set n) || contains (set_of (lookup e entries)) n)
unfolding lookup contains
listed epoch e set entries n unique = elim (Bool-cases (e == epoch)) [
  | inl here ↦
      let ee : e ≡ epoch = ground (arith, here) in
      let le = ap (λ i. lookup i entries) ee ∙ unique in ground (arith, here, le)
  | inr elsewhere ↦ ground (arith, elsewhere)
]

nothing_listed :
    (e : ℕ) (n : ReputationNullifier) (r : NullifierRegistry)
    → is_spent r e n ≡ (is_spent r e n || contains (set_of (lookup e [])) n)
unfolding lookup contains
nothing_listed e n r = ground arith

merge_epochs_lem :
    (entries : List (ℕ × List ReputationNullifier)) (r : NullifierRegistry)
    (report : NullifierMergeReport)
    → UniqueKeys entries
    → (r' : NullifierRegistry) × (report' : NullifierMergeReport) × (merge_epochs r entries report
        ≡ (r', ok report'))
      × ((e : ℕ) (n : ReputationNullifier)
          → is_spent r' e n ≡ (is_spent r e n || contains (set_of (lookup e entries)) n))
      × (report'.added + report'.already_present
          ≡ report.added + report.already_present + total entries)
unfolding merge_epochs
merge_epochs_lem [] r report u = (r, report, refl, (λ e n. nothing_listed e n r), omega arith)
merge_epochs_lem ((epoch, set) ∷ entries) r report (unique, u) =
    let (r1, report1, run1, spent1, count1) = merge_set_lem set r epoch report in
    let (r2, report2, run2, spent2, count2) = merge_epochs_lem entries r1 report1 u in
    (
      r2,
      report2,
      ground (arith, run1, run2),
      (λ e n. ground (arith, spent2 e n, spent1 e n, listed epoch e set entries n unique)),
      omega (arith, count1, count2),
    )

-- Merging a registry that lists no epoch twice never fails. Afterwards a nullifier is spent exactly
-- if it was spent in one of the two registries, and the report accounts for every nullifier of the
-- other one.
pub merge-Union :
    (r other : NullifierRegistry)
    → UniqueKeys other.used
    → (r' : NullifierRegistry) × (report : NullifierMergeReport) × (merge r other ≡ (r', ok report))
      × ((e : ℕ) (n : ReputationNullifier)
          → is_spent r' e n ≡ (is_spent r e n || is_spent other e n))
      × (report.added + report.already_present ≡ total other.used)
unfolding merge is_spent
merge-Union r other u =
    let (r', report, run, spent, count) =
      merge_epochs_lem other.used r (record { added = 0; already_present = 0 }) u in
    (r', report, run, spent, omega (arith, count))
