-- ===== src/Shamir/Single.antt =====
-- Shares of threshold one.
use anonymous.Common.Sums.{All}
use mathlib.Core.List.{append_assoc}
use anonymous.Common.Slices.{splice, splice_next}
use anonymous.Common.Results.{ok}
use anonymous.Common.Xor.{bit_xor_zero}
use Prim.Native.Nat.{bit_xor}
use anonymous.Common.{
  ℕ, zero, suc, ◌/◌, ◌%◌, ◌<◌, ◌≤◌, ◌≡◌, refl, ap, ◌∙◌, sym, false, some, List, [], ◌∷◌, ◌++◌, map,
  length, get_or, replicate, ◌==◌, Bool-cases, length-append, length-map, inl, inr, arith,
}
use anonymous.Shamir.{
  SeedShare, gf_mul, gf_mul_loop, gf_inv, gf_inv_loop, eval_poly, lagrange_at_zero, lagrange_sum,
  lagrange_products, reconstruct_bytes, reconstruct_seed, check_shares, set_byte, split_bytes,
  draw_coeffs, draw_bytes, force_degree, split_seed, blank_shares,
}

gf_mul_one : (a : ℕ) → gf_mul a 1 ≡ a
unfolding gf_mul gf_mul_loop
gf_mul_one a = bit_xor_zero a

one_inverse : gf_mul 1 (gf_inv 1) ≡ 1
unfolding gf_mul gf_mul_loop gf_inv gf_inv_loop
one_inverse = refl

gf_mul_loop_zero : (turns b : ℕ) → gf_mul_loop turns 0 b 0 ≡ 0
unfolding gf_mul_loop
gf_mul_loop_zero zero b = refl
gf_mul_loop_zero (suc turns) b = elim (Bool-cases (b % 2 == 0)) [
  | inl h ↦ rw h (gf_mul_loop_zero turns (b / 2))
  | inr h ↦ rw h (gf_mul_loop_zero turns (b / 2))
]

gf_mul_zero : (x : ℕ) → gf_mul 0 x ≡ 0
unfolding gf_mul
gf_mul_zero x = gf_mul_loop_zero 8 x

lagrange_single : (s : SeedShare) (i : ℕ) → lagrange_at_zero (s ∷ []) i ≡ ok (get_or s.y i 0)
unfolding lagrange_at_zero lagrange_sum lagrange_products
lagrange_single s i =
    let v = get_or s.y i 0 in
    let product : gf_mul v (gf_mul 1 (gf_inv 1)) ≡ v = ap (gf_mul v) one_inverse ∙ gf_mul_one v in
    ap ok (ap (bit_xor 0) product ∙ bit_xor_zero v)

eval_poly_constant : (c x : ℕ) → eval_poly (c ∷ []) x ≡ c
unfolding eval_poly
eval_poly_constant c x = ap (λ a. bit_xor a c) (gf_mul_zero x) ∙ bit_xor_zero c

-- The bytes written one after the other.
write_bytes : ℕ → List ℕ → List ℕ → List ℕ
write_bytes k [] y = y
write_bytes k (b ∷ bytes) y = write_bytes (suc k) bytes (splice y k (b ∷ []))

fill : ℕ → List ℕ → SeedShare → SeedShare
fill k bytes s = record s { y = write_bytes k bytes s.y }

set_byte_constant :
    (k c : ℕ) (s : SeedShare) → set_byte k (c ∷ []) s ≡ record s { y = splice s.y k (c ∷ []) }
unfolding set_byte
set_byte_constant k c s =
    ap (λ v. record s { y = splice s.y k (v ∷ []) }) (eval_poly_constant c s.x)

map-fill :
    (k b : ℕ) (bytes : List ℕ) (shares : List SeedShare)
    → map (fill (suc k) bytes) (map (set_byte k (b ∷ [])) shares) ≡ map (fill k (b ∷ bytes)) shares
unfolding fill write_bytes
map-fill k b bytes [] = refl
map-fill k b bytes (s ∷ shares) =
    rw (set_byte_constant k b s) (ap (λ r. fill k (b ∷ bytes) s ∷ r) (map-fill k b bytes shares))

map-fill_none : (k : ℕ) (shares : List SeedShare) → shares ≡ map (fill k []) shares
unfolding fill write_bytes
map-fill_none k [] = refl
map-fill_none k (s ∷ shares) = ap (λ r. s ∷ r) (map-fill_none k shares)

split_bytes_one :
    (k : ℕ) (bytes draws : List ℕ) (shares : List SeedShare)
    → split_bytes 1 k bytes draws shares ≡ some (map (fill k bytes) shares, draws)
unfolding split_bytes draw_coeffs draw_bytes force_degree
split_bytes_one k [] draws shares = ap (λ s. some (s, draws)) (map-fill_none k shares)
split_bytes_one k (b ∷ bytes) draws shares =
    split_bytes_one (suc k) bytes draws (map (set_byte k (b ∷ [])) shares)
    ∙ ap (λ s. some (s, draws)) (map-fill k b bytes shares)

write_bytes_all :
    (pre : List ℕ) (k : ℕ) (bytes : List ℕ)
    → length pre ≡ k
    → write_bytes k bytes (pre ++ replicate (length bytes) 0) ≡ pre ++ bytes
unfolding write_bytes
write_bytes_all pre k [] e = refl
write_bytes_all pre k (b ∷ bytes) e =
    let zeros : List ℕ = replicate (length bytes) 0 in
    let one : List ℕ = b ∷ [] in
    ap (write_bytes (suc k) bytes)
      (splice_next pre (0 ∷ zeros) one k 1 e refl ∙ sym (append_assoc pre one zeros))
    ∙ write_bytes_all (pre ++ one) (suc k) bytes (omega (arith, e, length-append pre one))
    ∙ append_assoc pre one bytes

-- What a share of threshold one looks like.
Filled : List ℕ → SeedShare → Type 0
Filled secret s = (0 < s.x) × (s.y ≡ secret)

fill-blank :
    (secret : List ℕ) (first n : ℕ)
    → length secret ≡ 32
    → 0 < first
    → All (Filled secret) (map (fill 0 secret) (blank_shares first n))
unfolding fill blank_shares Filled
fill-blank secret first zero e h = tt
fill-blank secret first (suc n) e h =
    let whole : write_bytes 0 secret (replicate 32 0) ≡ secret =
      ap (λ i. write_bytes 0 secret (replicate i 0)) (sym e) ∙ write_bytes_all [] 0 secret refl in
    ((h, whole), fill-blank secret (suc first) n e (omega arith))

length-blank_shares : (first n : ℕ) → length (blank_shares first n) ≡ n
unfolding blank_shares
length-blank_shares first zero = refl
length-blank_shares first (suc n) = ap suc (length-blank_shares (suc first) n)

get_or-length :
    (pre : List ℕ) (b : ℕ) (bytes : List ℕ) → get_or (pre ++ b ∷ bytes) (length pre) 0 ≡ b
get_or-length [] b bytes = refl
get_or-length (x ∷ pre) b bytes = get_or-length pre b bytes

reconstruct_rest :
    (s : SeedShare) (pre : List ℕ) (k : ℕ) (bytes : List ℕ)
    → length pre ≡ k
    → s.y ≡ pre ++ bytes
    → reconstruct_bytes (s ∷ []) k (length bytes) ≡ ok bytes
unfolding reconstruct_bytes
reconstruct_rest s pre k [] h e = refl
reconstruct_rest s pre k (b ∷ bytes) h e =
    let one : List ℕ = b ∷ [] in
    let found : lagrange_at_zero (s ∷ []) k ≡ ok b =
      lagrange_single s k
      ∙ ap (λ l. ok (get_or l k 0)) e
      ∙ ap (λ i. ok (get_or (pre ++ b ∷ bytes) i 0)) (sym h)
      ∙ ap ok (get_or-length pre b bytes) in
    let rest =
      reconstruct_rest s (pre ++ one) (suc k) bytes (omega (arith, h, length-append pre one))
        (e ∙ sym (append_assoc pre one bytes)) in
    rw found (rw rest refl)

check_shares_single : (s : SeedShare) → 0 < s.x → check_shares (λ i. false) (s ∷ []) ≡ ok tt
unfolding check_shares
check_shares_single s h = ground arith

reconstruct_single :
    (secret : List ℕ) (s : SeedShare)
    → length secret ≡ 32
    → Filled secret s
    → reconstruct_seed (s ∷ []) ≡ ok secret
unfolding reconstruct_seed Filled
reconstruct_single secret s e (h, same) =
    rw (check_shares_single s h)
      (ap (reconstruct_bytes (s ∷ []) 0) (sym e) ∙ reconstruct_rest s [] 0 secret refl same)

reconstruct_each :
    (secret : List ℕ) (shares : List SeedShare)
    → length secret ≡ 32
    → All (Filled secret) shares
    → All (λ s. reconstruct_seed (s ∷ []) ≡ ok secret) shares
reconstruct_each secret [] e a = tt
reconstruct_each secret (s ∷ shares) e (h, a) =
    (reconstruct_single secret s e h, reconstruct_each secret shares e a)

split_seed_within :
    (secret : List ℕ) (n : ℕ) (draws : List ℕ)
    → 1 ≤ n
    → n ≤ 255
    → split_seed secret 1 n draws ≡ ok (split_bytes 1 0 secret draws (blank_shares 1 n))
unfolding split_seed
split_seed_within secret n draws low high = ground arith

-- A seed of 32 bytes that is split with threshold one into `n` shares, at least one and at most 255,
-- takes no draw of the generator, and each of the `n` shares alone gives the seed back.
pub split_one-reconstruct :
    (secret : List ℕ) (n : ℕ) (draws : List ℕ)
    → length secret ≡ 32
    → 1 ≤ n
    → n ≤ 255
    → (shares : List SeedShare) × (split_seed secret 1 n draws ≡ ok (some (shares, draws)))
      × (length shares ≡ n)
      × All (λ s. reconstruct_seed (s ∷ []) ≡ ok secret) shares
split_one-reconstruct secret n draws e low high =
    let blank = blank_shares 1 n in
    (
      map (fill 0 secret) blank,
      split_seed_within secret n draws low high ∙ ap ok (split_bytes_one 0 secret draws blank),
      length-map blank (fill 0 secret) ∙ length-blank_shares 1 n,
      reconstruct_each secret (map (fill 0 secret) blank) e (fill-blank secret 1 n e (omega arith)),
    )
