-- ===== src/Shamir/Tests.antt =====
-- The secret sharing on a seed of 32 equal bytes.
use anonymous.Common.{ℕ, ◌≡◌, refl, List, replicate}
use anonymous.Shamir.{gf_mul, gf_mul_loop}

gf_mul_fips : gf_mul 0x57 0x83 ≡ 0xc1
unfolding gf_mul gf_mul_loop
gf_mul_fips = refl

abbrev seed : List ℕ
seed = replicate 32 9
