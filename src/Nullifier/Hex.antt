-- ===== src/Nullifier/Hex.antt =====
-- The hexadecimal form of a nullifier.
use anonymous.Common.Sums.{All}
use anonymous.Common.Results.{ok}
use anonymous.Common.{
  ℕ, ◌+◌, ◌*◌, ◌/◌, ◌%◌, ◌<◌, ◌≡◌, refl, ap, ◌∙◌, some, List, [], ◌∷◌, arith, length,
}
use anonymous.Nullifier.{hex_digit, hex_encode_32, hex_nibble, parse_chunks, parse_hex_32}

pub hex_nibble-hex_digit : (n : ℕ) → n < 16 → hex_nibble (hex_digit n) ≡ some n
unfolding hex_nibble
hex_nibble-hex_digit n h = ground arith

pub length-hex_encode_32 : (bytes : List ℕ) → length (hex_encode_32 bytes) ≡ 2 * length bytes
unfolding hex_encode_32
length-hex_encode_32 [] = refl
length-hex_encode_32 (b ∷ bytes) = omega (arith, length-hex_encode_32 bytes)

parse_pair :
    (text : List ℕ) (c d hi lo : ℕ) (rest out : List ℕ)
    → hex_nibble c ≡ some hi
    → hex_nibble d ≡ some lo
    → parse_chunks text rest ≡ ok out
    → parse_chunks text (c ∷ d ∷ rest) ≡ ok ((hi * 16 + lo) ∷ out)
unfolding parse_chunks
parse_pair text c d hi lo rest out hc hd hr = ground (arith, hc, hd, hr)

parse_chunks-encode :
    (text bytes : List ℕ)
    → All (λ b. b < 256) bytes
    → parse_chunks text (hex_encode_32 bytes) ≡ ok bytes
unfolding hex_encode_32 parse_chunks
parse_chunks-encode text [] a = refl
parse_chunks-encode text (b ∷ bytes) (h, a) =
    let high = hex_nibble-hex_digit (b / 16) (omega (arith, h)) in
    let low = hex_nibble-hex_digit (b % 16) (omega arith) in
    let rest = parse_chunks-encode text bytes a in
    let same : b / 16 * 16 + b % 16 ≡ b = omega arith in
    parse_pair text (hex_digit (b / 16)) (hex_digit (b % 16)) (b / 16) (b % 16)
      (hex_encode_32 bytes) bytes high low rest
    ∙ ap (λ x. ok (x ∷ bytes)) same

-- 32 numbers below 256 come back from their hexadecimal form.
pub parse_hex_32-encode :
    (bytes : List ℕ)
    → length bytes ≡ 32
    → All (λ b. b < 256) bytes
    → parse_hex_32 (hex_encode_32 bytes) ≡ ok bytes
unfolding parse_hex_32
parse_hex_32-encode bytes e a =
    let whole : length (hex_encode_32 bytes) ≡ 64 = omega (arith, e, length-hex_encode_32 bytes) in
    rw whole (parse_chunks-encode (hex_encode_32 bytes) bytes a)
