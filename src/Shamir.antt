-- ===== src/Shamir.antt =====
-- crates/aegis-topology/src/shamir.rs: secret sharing of a 32-byte seed over GF(2^8).
--
-- The bytes that the random generator gives are a list, from which each draw takes the next one.
-- The loop that draws the highest coefficient until it is not zero recurses on that list; `none`
-- says that it did not end within these bytes. The array of seen coordinates is a function. The text
-- of a share is its bytes in ASCII, and the text that is parsed is the trimmed one.
mod Inverses
mod Single
mod Hex
mod Tests
use anonymous.Common.Slices.{splice}
use anonymous.Common.Results.{Result, ok, err, ◌>>=◌}
use Prim.Native.Nat.{bit_xor}
use anonymous.Nullifier.{hex_digit, hex_encode_32, hex_nibble}
use anonymous.Common.{
  ℕ, zero, suc, ◌+◌, ◌-◌, ◌*◌, ◌/◌, ◌%◌, Bool, true, false, ◌||◌, Option, none, some, List, [], ◌∷◌,
  ◌++◌, map, length, get_or, replicate, take, ltb, leb, ◌==◌, if◌then◌else◌,
}

-- A coordinate in 1..=255 and 32 field elements.
pub record SeedShare : Type 0 where
  pub x : ℕ
  pub y : List ℕ

pub data BadParam : Type 0 where
  threshold_out_of_range share_count_out_of_range : BadParam

pub data ShamirError : Type 0 where
  bad_params : BadParam → ShamirError
  too_few_shares duplicate_x invalid_x : ShamirError

-- The irreducible polynomial x^8 + x^4 + x^3 + x + 1.
abbrev irred : ℕ
irred = 0x11b

abbrev pub gf_add : ℕ → ℕ → ℕ
gf_add a b = bit_xor a b

-- The loop of `gf_mul` for a number of digits of `b`.
pub gf_mul_loop : ℕ → ℕ → ℕ → ℕ → ℕ
gf_mul_loop zero a b p = p
gf_mul_loop (suc turns) a b p =
    let p = if b % 2 == 0 then p else bit_xor p a in
    let hi = leb 0x80 a in
    let a = a * 2 % 256 in gf_mul_loop turns (if hi then bit_xor a (irred % 256) else a) (b / 2) p

pub gf_mul : ℕ → ℕ → ℕ
gf_mul a b = gf_mul_loop 8 a b 0

-- The loop `while e > 0`; the fuel is the exponent, which halves every turn.
pub gf_inv_loop : ℕ → ℕ → ℕ → ℕ → ℕ
gf_inv_loop zero x acc e = acc
gf_inv_loop (suc fuel) x acc e = elim (ltb 0 e) [
  | true ↦ gf_inv_loop fuel (gf_mul x x) (if e % 2 == 0 then acc else gf_mul acc x) (e / 2)
  | false ↦ acc
]

pub gf_inv : ℕ → ℕ
gf_inv a = gf_inv_loop 254 a 1 254

-- Horner's rule from the highest coefficient down.
pub eval_poly : List ℕ → ℕ → ℕ
eval_poly [] x = 0
eval_poly (c ∷ coeffs) x = gf_add (gf_mul (eval_poly coeffs x) x) c

-- `count` draws of one byte.
draw_bytes : ℕ → List ℕ → Option (List ℕ × List ℕ)
draw_bytes zero draws = some ([], draws)
draw_bytes (suc count) [] = none
draw_bytes (suc count) (b ∷ draws) = elim (draw_bytes count draws) [
  | none ↦ none
  | some (bytes, rest) ↦ some (b ∷ bytes, rest)
]

-- `while coeffs[threshold - 1] == 0`, on that coefficient.
draw_nonzero : ℕ → List ℕ → Option (ℕ × List ℕ)
draw_nonzero (suc c) draws = some (suc c, draws)
draw_nonzero zero [] = none
draw_nonzero zero (b ∷ draws) = draw_nonzero b draws

-- The highest coefficient is drawn again until it is not zero.
force_degree : ℕ → List ℕ → List ℕ → Option (List ℕ × List ℕ)
force_degree threshold coeffs draws =
    if ltb 1 threshold
    then elim (draw_nonzero (get_or coeffs (threshold - 1) 0) draws) [
      | none ↦ none
      | some (c, rest) ↦ some (splice coeffs (threshold - 1) (c ∷ []), rest)
    ]
    else some (coeffs, draws)

-- The coefficients for one byte of the secret.
draw_coeffs : ℕ → ℕ → List ℕ → Option (List ℕ × List ℕ)
draw_coeffs threshold secret_byte draws = elim (draw_bytes (threshold - 1) draws) [
  | none ↦ none
  | some (bytes, rest) ↦ force_degree threshold (secret_byte ∷ bytes) rest
]

-- `share.y[byte_idx] = eval_poly(&coeffs, share.x)`.
set_byte : ℕ → List ℕ → SeedShare → SeedShare
set_byte byte_idx coeffs share = record share {
  y = splice share.y byte_idx (eval_poly coeffs share.x ∷ []);
}

-- The loop over the bytes of the secret, from `byte_idx` on.
split_bytes : ℕ → ℕ → List ℕ → List ℕ → List SeedShare → Option (List SeedShare × List ℕ)
split_bytes threshold byte_idx [] draws shares = some (shares, draws)
split_bytes threshold byte_idx (b ∷ secret) draws shares = elim (draw_coeffs threshold b draws) [
  | none ↦ none
  | some (coeffs, rest) ↦
      split_bytes threshold (suc byte_idx) secret rest (map (set_byte byte_idx coeffs) shares)
]

-- The shares of the coordinates `first`, `first + 1` and so on, all bytes zero.
blank_shares : ℕ → ℕ → List SeedShare
blank_shares first zero = []
blank_shares first (suc n) = record { x = first; y = replicate 32 0 } ∷ blank_shares (suc first) n

pub split_seed : List ℕ → ℕ → ℕ → List ℕ → Result ShamirError (Option (List SeedShare × List ℕ))
split_seed secret threshold n draws =
    if (threshold == 0) || ltb n threshold
    then err (bad_params threshold_out_of_range)
    else if (n == 0) || ltb 255 n
    then err (bad_params share_count_out_of_range)
    else ok (split_bytes threshold 0 secret draws (blank_shares 1 n))

-- The loop of `reconstruct_seed` over the coordinates.
pub check_shares : (ℕ → Bool) → List SeedShare → Result ShamirError (Unit {0})
check_shares seen [] = ok tt
check_shares seen (s ∷ shares) =
    if s.x == 0
    then err invalid_x
    else if seen s.x
    then err duplicate_x
    else check_shares (λ i. if i == s.x then true else seen i) shares

-- The products of numerators and denominators over the other shares, from index `j` on.
pub lagrange_products : ℕ → ℕ → ℕ → List SeedShare → ℕ → ℕ → ℕ × ℕ
lagrange_products i xi j [] num den = (num, den)
lagrange_products i xi j (sj ∷ shares) num den =
    if i == j
    then lagrange_products i xi (suc j) shares num den
    else lagrange_products i xi (suc j) shares (gf_mul num sj.x) (gf_mul den (gf_add xi sj.x))

-- The sum over the shares, from index `i` on.
pub lagrange_sum : List SeedShare → ℕ → ℕ → List SeedShare → ℕ → Result ShamirError ℕ
lagrange_sum all byte_idx i [] acc = ok acc
lagrange_sum all byte_idx i (si ∷ shares) acc =
    let (num, den) = lagrange_products i si.x 0 all 1 1 in
    let li = gf_mul num (gf_inv den) in
    let sum = gf_add acc (gf_mul (get_or si.y byte_idx 0) li) in
    let rest = lagrange_sum all byte_idx (suc i) shares sum in
    if den == 0 then err duplicate_x else rest

pub lagrange_at_zero : List SeedShare → ℕ → Result ShamirError ℕ
lagrange_at_zero shares byte_idx = lagrange_sum shares byte_idx 0 shares 0

-- The bytes of the secret from `byte_idx` on, `count` of them.
pub reconstruct_bytes : List SeedShare → ℕ → ℕ → Result ShamirError (List ℕ)
reconstruct_bytes shares byte_idx zero = ok []
reconstruct_bytes shares byte_idx (suc count) = do
  b ← lagrange_at_zero shares byte_idx
  rest ← reconstruct_bytes shares (suc byte_idx) count
  ok (b ∷ rest)

pub reconstruct_seed : List SeedShare → Result ShamirError (List ℕ)
reconstruct_seed [] = err too_few_shares
reconstruct_seed (s ∷ shares) = do
  _ ← check_shares (λ i. false) (s ∷ shares)
  reconstruct_bytes (s ∷ shares) 0 32

-- Every byte as two lowercase digits, the coordinate first.
pub encode_share_hex : SeedShare → List ℕ
encode_share_hex share = hex_digit (share.x / 16) ∷ hex_digit (share.x % 16) ∷ hex_encode_32 share.y

pub data ShareHexError : Type 0 where
  wrong_length : ℕ → ShareHexError
  odd_length invalid_digit zero_x : ShareHexError

-- `u8::from_str_radix` on two characters, of which the first may be a plus sign.
pub parse_byte : ℕ → ℕ → Option ℕ
parse_byte c d = if c == b'+' then hex_nibble d else elim (hex_nibble c) [
  | none ↦ none
  | some hi ↦ elim (hex_nibble d) [ none ↦ none | some lo ↦ some (hi * 16 + lo) ]
]

pub hex_pairs : List ℕ → Result ShareHexError (List ℕ)
hex_pairs [] = ok []
hex_pairs (c ∷ []) = err odd_length
hex_pairs (c ∷ d ∷ text) = elim (parse_byte c d) [
  | none ↦ err invalid_digit
  | some b ↦ elim (hex_pairs text) [ err e ↦ err e | ok bytes ↦ ok (b ∷ bytes) ]
]

pub hex_decode : List ℕ → Result ShareHexError (List ℕ)
hex_decode text = if length text % 2 == 0 then hex_pairs text else err odd_length

-- The coordinate and the rest of the bytes.
pub share_of : List ℕ → Result ShareHexError SeedShare
share_of [] = err zero_x
share_of (x ∷ bytes) = if x == 0 then err zero_x else ok (record { x = x; y = take 32 bytes })

pub decode_share_hex : List ℕ → Result ShareHexError SeedShare
decode_share_hex text =
    if length text == 66 then hex_decode text >>= share_of else err (wrong_length (length text))
