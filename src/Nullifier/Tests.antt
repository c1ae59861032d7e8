-- ===== src/Nullifier/Tests.antt =====
-- The registry's theorems at small registries.
use anonymous.Common.Maps.{lookup}
use anonymous.Common.Results.{ok, err}
use anonymous.Common.{ℕ, ◌+◌, ◌≡◌, refl, true, ◌||◌, [], ◌∷◌}
use anonymous.Nullifier.{
  already_used, ReputationNullifier, NullifierRegistry, NullifierMergeReport, is_spent,
  try_register, merge,
}
use anonymous.Nullifier.Spent.{try_register_twice}
use anonymous.Nullifier.Merge.{merge-Union}

abbrev mine : NullifierRegistry
mine = record { used = (7, (1 ∷ []) ∷ []) ∷ [] }

abbrev peer : NullifierRegistry
peer = record { used = (7, (1 ∷ []) ∷ (2 ∷ []) ∷ []) ∷ (8, (1 ∷ []) ∷ []) ∷ [] }

try_register_twice_example :
    let r' = (try_register mine 7 (3 ∷ [])).0 in
    (is_spent r' 7 (3 ∷ []) ≡ true) × ((try_register r' 7 (3 ∷ [])).1 ≡ err (already_used 7))
try_register_twice_example = try_register_twice mine 7 (3 ∷ [])

merge-Union_example :
    (r' : NullifierRegistry) × (report : NullifierMergeReport) × (merge mine peer ≡ (r', ok report))
    × ((e : ℕ) (n : ReputationNullifier)
        → is_spent r' e n ≡ (is_spent mine e n || is_spent peer e n))
    × (report.added + report.already_present ≡ 3)
unfolding lookup
merge-Union_example = merge-Union mine peer (refl, (refl, tt))
