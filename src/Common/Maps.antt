-- ===== src/Common/Maps.antt =====
-- `HashMap` with numeric keys as an association list: removal, reading, writing.
use anonymous.Common.Tests.{◌==◌, if◌then◌else◌}
use Prim.Native.Nat.{ℕ}
use mathlib.Core.List.{List, [], ◌∷◌}
use mathlib.Core.Option.{Option, none, some}
use mathlib.Core.Path.{◌≡◌}
use native.Mathlib.Omega.{arith}

module _ {ℓ} {V : Type ℓ} where
  -- `map.remove(&key)`.
  unfoldable pub remove : ℕ → List (ℕ × V) → List (ℕ × V)
  remove key [] = []
  remove key (e ∷ entries) = if key == e.0 then remove key entries else e ∷ remove key entries

  -- `map.get(&key)`.
  unfoldable pub lookup : ℕ → List (ℕ × V) → Option V
  lookup key [] = none
  lookup key (e ∷ entries) = if key == e.0 then some e.1 else lookup key entries

  -- `map.insert(key, value)`.
  unfoldable pub insert : ℕ → V → List (ℕ × V) → List (ℕ × V)
  insert key value [] = (key, value) ∷ []
  insert key value (e ∷ entries) =
      if key == e.0 then (key, value) ∷ entries else e ∷ insert key value entries

  pub lookup-remove :
      (key other : ℕ) (entries : List (ℕ × V))
      → lookup other (remove key entries) ≡ (if other == key then none else lookup other entries)
  unfolding remove lookup
  lookup-remove key other [] = ground arith
  lookup-remove key other (e ∷ entries) = ground (arith, lookup-remove key other entries)

  pub lookup-insert :
      (key other : ℕ) (value : V) (entries : List (ℕ × V))
      → lookup other (insert key value entries)
        ≡ (if other == key then some value else lookup other entries)
  unfolding insert lookup
  lookup-insert key other value [] = ground arith
  lookup-insert key other value (e ∷ entries) =
      ground (arith, lookup-insert key other value entries)
