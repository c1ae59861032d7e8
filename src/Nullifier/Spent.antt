-- ===== src/Nullifier/Spent.antt =====
-- What is spent after a registration.
use anonymous.Common.Maps.{lookup, lookup-insert}
use anonymous.Common.Results.{ok, err}
use anonymous.Common.{
  ℕ, ◌≡◌, ap, ◌∙◌, inl, inr, true, false, ◌&&◌, ◌||◌, ◌∷◌, arith, ◌==◌, bytes_eq, bytes_eq_refl,
  bytes_eq_iff, Bool-cases,
}
use anonymous.Nullifier.{
  ReputationNullifier, already_used, NullifierRegistry, contains, set_of, is_spent, try_register,
}

-- The registry after a registration, fresh or replayed.
pub registered :
    (r : NullifierRegistry) (epoch e : ℕ) (nullifier n : ReputationNullifier)
    → is_spent (try_register r epoch nullifier).0 e n
      ≡ (is_spent r e n || ((e == epoch) && bytes_eq n nullifier))
unfolding is_spent try_register contains
registered r epoch e nullifier n =
    let set = set_of (lookup epoch r.used) in
    let fresh = lookup-insert epoch e (nullifier ∷ set) r.used in
    let kept = lookup-insert epoch e set r.used in
    elim (Bool-cases (contains set nullifier)) [
      | inl old ↦ elim (Bool-cases (e == epoch)) [
        | inl here ↦ elim (Bool-cases (bytes_eq n nullifier)) [
          | inl same ↦
              let en : n ≡ nullifier = (bytes_eq_iff n nullifier).0 same in
              let ee : e ≡ epoch = ground (arith, here) in
              let ln = ap (contains set) en in
              let le = ap (λ i. lookup i r.used) ee in ground (arith, old, here, same, kept, le, ln)
          | inr other ↦
              let ee : e ≡ epoch = ground (arith, here) in
              let le = ap (λ i. lookup i r.used) ee in ground (arith, old, here, other, kept, le)
        ]
        | inr elsewhere ↦ ground (arith, old, elsewhere, kept)
      ]
      | inr new ↦ elim (Bool-cases (e == epoch)) [
        | inl here ↦
            let ee : e ≡ epoch = ground (arith, here) in
            let le = ap (λ i. lookup i r.used) ee in ground (arith, new, here, fresh, le)
        | inr elsewhere ↦ ground (arith, new, elsewhere, fresh)
      ]
    ]

-- A nullifier is taken once per epoch: after a registration, whether it was accepted or not, it is
-- spent, and a further one is refused.
pub try_register_twice :
    (r : NullifierRegistry) (epoch : ℕ) (nullifier : ReputationNullifier)
    → let r' = (try_register r epoch nullifier).0 in
      (is_spent r' epoch nullifier ≡ true)
      × ((try_register r' epoch nullifier).1 ≡ err (already_used epoch))
unfolding try_register is_spent
try_register_twice r epoch nullifier =
    let r' = (try_register r epoch nullifier).0 in
    let spent : is_spent r' epoch nullifier ≡ true =
      registered r epoch epoch nullifier nullifier ∙ ground (arith, bytes_eq_refl nullifier) in
    (spent, ground (arith, spent))

-- A registration is refused exactly for a spent nullifier.
pub try_register_fresh :
    (r : NullifierRegistry) (epoch : ℕ) (nullifier : ReputationNullifier)
    → is_spent r epoch nullifier ≡ false
    → (try_register r epoch nullifier).1 ≡ ok tt
unfolding try_register is_spent
try_register_fresh r epoch nullifier h = ground (arith, h)
