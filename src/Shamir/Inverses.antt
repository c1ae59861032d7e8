-- ===== src/Shamir/Inverses.antt =====
-- Division in the field of the secret sharing.
use anonymous.Common.{
  ℕ, zero, suc, ◌<◌, ◌≡◌, refl, Bool, true, ◌&&◌, ◌==◌, ==_iff, Bool-cases, inl, inr, arith,
}
use anonymous.Shamir.{gf_mul, gf_mul_loop, gf_inv, gf_inv_loop}

inverse_test : ℕ → Bool
inverse_test a = gf_mul a (gf_inv a) == 1

-- The test for all of 1..=n.
inverse_tests : ℕ → Bool
inverse_tests zero = true
inverse_tests (suc n) = inverse_test (suc n) && inverse_tests n

all_inverses : inverse_tests 255 ≡ true
unfolding inverse_tests inverse_test gf_mul gf_mul_loop gf_inv gf_inv_loop
all_inverses = refl

inverse_tests_all : (n a : ℕ) → inverse_tests n ≡ true → 0 < a → a < suc n → inverse_test a ≡ true
unfolding inverse_tests
inverse_tests_all zero a e p q = absurd (omega arith)
inverse_tests_all (suc n) a e p q = elim (Bool-cases (a == suc n)) [
  | inl h ↦ let same : a ≡ suc n = (==_iff a (suc n)).0 h in rw same (ground (arith, e))
  | inr h ↦
      let other : a < suc n = grind (arith, ==_iff) in
      inverse_tests_all n a (ground (arith, e)) p other
]

-- `gf_inv` gives the inverse of every byte that is not zero.
pub gf_mul-gf_inv : (a : ℕ) → 0 < a → a < 256 → gf_mul a (gf_inv a) ≡ 1
unfolding inverse_test
gf_mul-gf_inv a p q = (==_iff (gf_mul a (gf_inv a)) 1).0 (inverse_tests_all 255 a all_inverses p q)
