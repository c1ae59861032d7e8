-- ===== src/Common/Tables.antt =====
-- `HashMap` and `HashSet` with keys of any type, as association lists and lists.
--
-- The order of iteration, which the standard library leaves open, is that of the list.
use anonymous.Common.Lists.{length}
use anonymous.Common.Sums.{All}
use anonymous.Common.Tests.{◌==◌, if◌then◌else◌, bytes_eq, bytes_eq_iff, ==_iff, Bool-cases}
use Prim.Native.Nat.{ℕ, suc}
use mathlib.Core.Bool.{Bool, true, false, ◌&&◌, ◌||◌}
use mathlib.Core.List.{List, [], ◌∷◌, map}
use mathlib.Core.Logic.{◌≢◌, ◌↔◌, inl, inr}
use mathlib.Core.Option.{Option, none, some}
use mathlib.Core.Path.{◌≡◌, refl, sym, ap, ◌∙◌, subst}
use native.Mathlib.Omega.{arith}

-- The equality of keys.
pub record Key (K : Type 0) : Type 0 where
  pub same : K → K → Bool
  pub same_iff : (a b : K) → (same a b ≡ true) ↔ (a ≡ b)

instance abbrev pub bytes_key : Key (List ℕ)
bytes_key = record { same = bytes_eq; same_iff = bytes_eq_iff }

instance abbrev pub nat_key : Key ℕ
nat_key = record { same = ◌==◌; same_iff = ==_iff }

pub pair_same_iff :
    {A B : Type 0} ⦃a : Key A⦄ ⦃b : Key B⦄ (x y : A × B)
    → (a.same x.0 y.0 && b.same x.1 y.1 ≡ true) ↔ (x ≡ y)
pair_same_iff ⦃a⦄ ⦃b⦄ x y = (
  (λ h.
      let first : a.same x.0 y.0 ≡ true = ground (arith, h) in
      let second : b.same x.1 y.1 ≡ true = ground (arith, h) in
      let e : x.0 ≡ y.0 = (a.same_iff x.0 y.0).0 first in
      let f : x.1 ≡ y.1 = (b.same_iff x.1 y.1).0 second in
      ap (λ u. (u, x.1)) e ∙ ap (λ u. (y.0, u)) f),
  (λ e.
      let first = (a.same_iff x.0 y.0).1 (ap (λ p. p.0) e) in
      let second = (b.same_iff x.1 y.1).1 (ap (λ p. p.1) e) in rw first second),
)

instance abbrev pub pair_key : {A B : Type 0} ⦃a : Key A⦄ ⦃b : Key B⦄ → Key (A × B)
pair_key ⦃a⦄ ⦃b⦄ = record {
  same = λ x y. a.same x.0 y.0 && b.same x.1 y.1;
  same_iff = pair_same_iff;
}

module _ {K : Type 0} ⦃k : Key K⦄ where
  pub same_refl : (a : K) → k.same a a ≡ true
  same_refl a = (k.same_iff a a).1 refl

  pub same-false : (a b : K) → a ≢ b → k.same a b ≡ false
  same-false a b h = elim (Bool-cases (k.same a b)) [
    | inl e ↦ absurd (h ((k.same_iff a b).0 e))
    | inr e ↦ e
  ]

  -- `set.contains(&key)`.
  unfoldable pub member : K → List K → Bool
  member key [] = false
  member key (other ∷ keys) = k.same key other || member key keys

  -- `set.insert(key)`.
  unfoldable pub include : K → List K → List K
  include key keys = if member key keys then keys else key ∷ keys

  -- The size of the `HashSet` that collects the keys.
  unfoldable pub distinct_count : List K → ℕ
  distinct_count [] = 0
  distinct_count (key ∷ keys) =
      let rest = distinct_count keys in if member key keys then rest else suc rest

  unfoldable pub Distinct : List K → Type 0
  Distinct [] = Unit
  Distinct (key ∷ keys) = (member key keys ≡ false) × Distinct keys

  pub member-include :
      (key other : K) (keys : List K)
      → member key (include other keys) ≡ (k.same key other || member key keys)
  unfolding include member
  member-include key other keys = elim (Bool-cases (member other keys)) [
    | inl old ↦ elim (Bool-cases (k.same key other)) [
      | inl e ↦ let same : key ≡ other = (k.same_iff key other).0 e in rw (old, e) (rw same old)
      | inr e ↦ rw (old, e) refl
    ]
    | inr fresh ↦ rw (fresh, member) refl
  ]

  -- A list of different keys is as long as its set.
  pub distinct_count-Distinct : (keys : List K) → Distinct keys → distinct_count keys ≡ length keys
  unfolding Distinct distinct_count
  distinct_count-Distinct [] d = refl
  distinct_count-Distinct (key ∷ keys) (fresh, d) =
      rw fresh (ap suc (distinct_count-Distinct keys d))

module _ {K V : Type 0} ⦃k : Key K⦄ where
  -- `map.get(&key)`.
  unfoldable pub find : K → List (K × V) → Option V
  find key [] = none
  find key (e ∷ entries) = if k.same key e.0 then some e.1 else find key entries

  -- `map.insert(key, value)`.
  unfoldable pub put : K → V → List (K × V) → List (K × V)
  put key value [] = (key, value) ∷ []
  put key value (e ∷ entries) =
      let rest = put key value entries in
      if k.same key e.0 then (key, value) ∷ entries else e ∷ rest

  -- `map.remove(&key)`.
  unfoldable pub erase : K → List (K × V) → List (K × V)
  erase key [] = []
  erase key (e ∷ entries) =
      let rest = erase key entries in if k.same key e.0 then rest else e ∷ rest

  abbrev pub keys_of : List (K × V) → List K
  keys_of = map (λ e. e.0)

  pub find-put_same :
      (key : K) (value : V) (t : List (K × V)) → find key (put key value t) ≡ some value
  unfolding find put
  find-put_same key value [] = rw (same_refl key) refl
  find-put_same key value (e ∷ t) = elim (Bool-cases (k.same key e.0)) [
    | inl h ↦ rw (h, find) (rw (same_refl key) refl)
    | inr h ↦ rw (h, find) (rw h (find-put_same key value t))
  ]

  pub find-put_other :
      (key other : K) (value : V) (t : List (K × V))
      → other ≢ key
      → find other (put key value t) ≡ find other t
  unfolding find put
  find-put_other key other value [] h = rw (same-false other key h) refl
  find-put_other key other value (e ∷ t) h = elim (Bool-cases (k.same key e.0)) [
    | inl s ↦
        let at : key ≡ e.0 = (k.same_iff key e.0).0 s in
        rw (s, find) (rw (same-false other key h, same-false other e.0 (λ x. h (x ∙ sym at))) refl)
    | inr s ↦
        rw (s, find)
          (elim (Bool-cases (k.same other e.0)) [
            | inl f ↦ rw f refl
            | inr f ↦ rw f (find-put_other key other value t h)
          ])
  ]

  member-put :
      (key other : K) (value : V) (t : List (K × V))
      → member other (keys_of (put key value t)) ≡ (k.same other key || member other (keys_of t))
  unfolding member put
  member-put key other value [] = refl
  member-put key other value (e ∷ t) = elim (Bool-cases (k.same key e.0)) [
    | inl s ↦
        let at : key ≡ e.0 = (k.same_iff key e.0).0 s in
        rw (s, member)
          (rw at (elim (Bool-cases (k.same other e.0)) [ inl f ↦ rw f refl | inr f ↦ rw f refl ]))
    | inr s ↦
        rw (s, member)
          (rw (member-put key other value t) (elim (Bool-cases (k.same other e.0)) [
            | inl f ↦ elim (Bool-cases (k.same other key)) [
              | inl g ↦ rw (f, g) refl
              | inr g ↦ rw (f, g) refl
            ]
            | inr f ↦ elim (Bool-cases (k.same other key)) [
              | inl g ↦ rw (f, g) refl
              | inr g ↦ rw (f, g) refl
            ]
          ]))
  ]

  -- The keys of a map stay different.
  pub Distinct-put :
      (key : K) (value : V) (t : List (K × V))
      → Distinct (keys_of t)
      → Distinct (keys_of (put key value t))
  unfolding Distinct put member
  Distinct-put key value [] d = (refl, tt)
  Distinct-put key value (e ∷ t) (fresh, d) = elim (Bool-cases (k.same key e.0)) [
    | inl s ↦ let at : key ≡ e.0 = (k.same_iff key e.0).0 s in rw (s, Distinct) (rw at (fresh, d))
    | inr s ↦
        let away : e.0 ≢ key = λ x. absurd (ground (arith, s, (k.same_iff key e.0).1 (sym x))) in
        rw (s, Distinct)
          (
            rw (member-put key e.0 value t) (rw (same-false e.0 key away) fresh),
            Distinct-put key value t d,
          )
  ]

  pub All-put {m} :
      (P : K × V → Type m) (key : K) (value : V) (t : List (K × V))
      → P (key, value)
      → All P t
      → All P (put key value t)
  unfolding put
  All-put P key value [] h a = (h, tt)
  All-put P key value (e ∷ t) h (he, a) = elim (Bool-cases (k.same key e.0)) [
    | inl s ↦ rw s (h, a)
    | inr s ↦ rw s (he, All-put P key value t h a)
  ]

  pub All-erase {m} :
      (P : K × V → Type m) (key : K) (t : List (K × V)) → All P t → All P (erase key t)
  unfolding erase
  All-erase P key [] a = tt
  All-erase P key (e ∷ t) (he, a) = elim (Bool-cases (k.same key e.0)) [
    | inl s ↦ rw s (All-erase P key t a)
    | inr s ↦ rw s (he, All-erase P key t a)
  ]

  pub All-find {m} :
      (P : K × V → Type m) (key : K) (value : V) (t : List (K × V))
      → All P t
      → find key t ≡ some value
      → P (key, value)
  unfolding find
  All-find P key value [] a h = absurd (ground (arith, h))
  All-find P key value (e ∷ t) (he, a) h = elim (Bool-cases (k.same key e.0)) [
    | inl s ↦
        let at : key ≡ e.0 = (k.same_iff key e.0).0 s in
        let v : e.1 ≡ value = ground (arith, s, h) in
        subst P (ap (λ x. (x, e.1)) (sym at) ∙ ap (λ x. (key, x)) v) he
    | inr s ↦
        let later : find key t ≡ some value = ground (arith, s, h) in All-find P key value t a later
  ]
