-- ===== src/Shamir/Hex.antt =====
-- The hexadecimal form of a share.
use anonymous.Common.Sums.{All}
use anonymous.Common.Results.{ok}
use anonymous.Common.{
  ℕ, ◌+◌, ◌*◌, ◌/◌, ◌%◌, ◌<◌, ◌≡◌, refl, ap, some, List, [], ◌∷◌, arith, length, take_all, ◌==◌,
  false,
}
use anonymous.Nullifier.{hex_digit, hex_encode_32}
use anonymous.Nullifier.Hex.{hex_nibble-hex_digit, length-hex_encode_32}
use anonymous.Shamir.{
  parse_byte, hex_pairs, hex_decode, share_of, encode_share_hex, decode_share_hex,
}

digit_no_plus : (n : ℕ) → n < 16 → (hex_digit n == b'+') ≡ false
digit_no_plus n h = ground arith

parse_byte-hex_digit :
    (b : ℕ) → b < 256 → parse_byte (hex_digit (b / 16)) (hex_digit (b % 16)) ≡ some b
unfolding parse_byte
parse_byte-hex_digit b h =
    let same : b / 16 * 16 + b % 16 ≡ b = omega arith in
    rw
      (
        digit_no_plus (b / 16) (omega (arith, h)),
        hex_nibble-hex_digit (b / 16) (omega (arith, h)),
        hex_nibble-hex_digit (b % 16) (omega arith),
      )
      (ap some same)

hex_pairs_step :
    (c d b : ℕ) (text bytes : List ℕ)
    → parse_byte c d ≡ some b
    → hex_pairs text ≡ ok bytes
    → hex_pairs (c ∷ d ∷ text) ≡ ok (b ∷ bytes)
unfolding hex_pairs
hex_pairs_step c d b text bytes hp hr = ground (arith, hp, hr)

hex_pairs-hex_encode_32 :
    (bytes : List ℕ) → All (λ b. b < 256) bytes → hex_pairs (hex_encode_32 bytes) ≡ ok bytes
unfolding hex_encode_32 hex_pairs
hex_pairs-hex_encode_32 [] a = refl
hex_pairs-hex_encode_32 (b ∷ bytes) (h, a) =
    hex_pairs_step (hex_digit (b / 16)) (hex_digit (b % 16)) b (hex_encode_32 bytes) bytes
      (parse_byte-hex_digit b h) (hex_pairs-hex_encode_32 bytes a)

share_of_whole :
    (x : ℕ) (y : List ℕ) → 0 < x → length y ≡ 32 → share_of (x ∷ y) ≡ ok (record { x = x; y = y })
unfolding share_of
share_of_whole x y low e =
    let some_x : (x == 0) ≡ false = ground arith in
    rw some_x (ap (λ l. ok (record { x = x; y = l })) (take_all 32 y (omega (arith, e))))

-- A share of one nonzero coordinate byte and 32 bytes comes back from its hexadecimal form.
decode_share_hex-encode_share_hex :
    (x : ℕ) (y : List ℕ)
    → 0 < x
    → x < 256
    → length y ≡ 32
    → All (λ b. b < 256) y
    → decode_share_hex (encode_share_hex (record { x = x; y = y })) ≡ ok (record { x = x; y = y })
unfolding decode_share_hex encode_share_hex hex_decode hex_encode_32
decode_share_hex-encode_share_hex x y low high e a =
    let whole : length (hex_encode_32 y) ≡ 64 = omega (arith, e, length-hex_encode_32 y) in
    let pairs = hex_pairs-hex_encode_32 (x ∷ y) (high, a) in
    rw (whole, pairs) (share_of_whole x y low e)
