-- ===== src/Kem/Agreement.antt =====
-- The two ends of the key encapsulation, and the encoding of headers.
use anonymous.Common.Slices.{
  slice, splice, length-splice, slice-splice_same, slice-splice_below, slice-slice, length-slice,
}
use anonymous.Common.Results.{ok}
use anonymous.Common.{
  ℕ, ◌+◌, ◌≤◌, ◌≡◌, ◌≢◌, refl, ◌∙◌, List, arith, length, ◌++◌, Option-cases, inl, inr, none,
}
use anonymous.Kem.{
  Primitives, KemHeader, SharedSecret, RelayKemSecret, RelayKemPublic, write_to, read_from,
  public_of, hybrid_kdf, decapsulate, encapsulate, kem_header_len, mlkem768_ct_len,
}

module _ (p : Primitives) where
  -- A relay decapsulates, from the header that a client encapsulated to its public key, the
  -- client's secret.
  pub decapsulate-encapsulate :
      (s : RelayKemSecret p) (ephemeral : p.X25519Secret) (coins : p.Coins) (header : KemHeader)
      (secret : SharedSecret)
      → encapsulate p (public_of p s) ephemeral coins ≡ ok (header, secret)
      → decapsulate p s header ≡ ok secret
  unfolding encapsulate decapsulate public_of hybrid_kdf
  decapsulate-encapsulate s ephemeral coins header secret h =
      elim (Option-cases (p.mlkem_encapsulate (p.mlkem_public s.mlkem) coins)) [
        | inl e ↦ absurd (ground arith)
        | inr ((ct, ss), e) ↦ ground (
          arith,
          p.mlkem_decapsulate_encapsulate s.mlkem coins ct ss e,
          p.diffie_hellman_comm s.x25519 ephemeral,
        )
      ]

  -- The header that encapsulation gives has its fixed length.
  pub encapsulate_lengths :
      (pk : RelayKemPublic p) (ephemeral : p.X25519Secret) (coins : p.Coins) (header : KemHeader)
      (secret : SharedSecret)
      → encapsulate p pk ephemeral coins ≡ ok (header, secret)
      → (length header.x25519_point ≡ 32) × (length header.mlkem_ct ≡ 1088) × (length secret ≡ 32)
  unfolding encapsulate hybrid_kdf
  encapsulate_lengths pk ephemeral coins header secret h =
      elim (Option-cases (p.mlkem_encapsulate pk.mlkem coins)) [
        | inl e ↦ absurd (ground arith)
        | inr ((ct, ss), e) ↦ ground (
          arith,
          p.length-mlkem_ct pk.mlkem coins ct ss e,
          p.length-x25519_public ephemeral,
          p.length-sha3_256 (p.diffie_hellman ephemeral pk.x25519 ++ ss),
        )
      ]

  -- The ML-KEM crate never refuses to encapsulate.
  abbrev pub NeverRefuses : Type 0
  NeverRefuses = (pk : p.MlKemPublic) (coins : p.Coins) → p.mlkem_encapsulate pk coins ≢ none

  pub encapsulate_total :
      (pk : RelayKemPublic p) (ephemeral : p.X25519Secret) (coins : p.Coins)
      → NeverRefuses
      → (r : KemHeader × SharedSecret) × (encapsulate p pk ephemeral coins ≡ ok r)
  unfolding encapsulate
  encapsulate_total pk ephemeral coins n =
      elim (Option-cases (p.mlkem_encapsulate pk.mlkem coins)) [
        | inl e ↦ absurd (n pk.mlkem coins e)
        | inr ((ct, ss), e) ↦ rw (e, encapsulate) (_, refl)
      ]

-- A header whose two parts have their lengths and that was written into a buffer with room for it
-- is read back from its place.
pub read_from-write_to :
    (header : KemHeader) (out : List ℕ) (off : ℕ)
    → length header.x25519_point ≡ 32
    → length header.mlkem_ct ≡ 1088
    → off + kem_header_len ≤ length out
    → read_from (slice (write_to header out off) off kem_header_len) ≡ ok header
unfolding read_from write_to
read_from-write_to header out off px pc fits =
    let first = splice out off header.x25519_point in
    let both = splice first (off + 32) header.mlkem_ct in
    let l1 = length-splice out off header.x25519_point (omega (arith, px, fits)) in
    let l2 = length-splice first (off + 32) header.mlkem_ct (omega (arith, pc, l1, fits)) in
    let point : slice (slice both off kem_header_len) 0 32 ≡ header.x25519_point =
      slice-slice both off kem_header_len 0 32 off (omega arith) (omega arith)
      ∙ slice-splice_below first (off + 32) off 32 header.mlkem_ct (omega (arith, l1, fits))
          (omega arith)
      ∙ slice-splice_same out off 32 header.x25519_point (omega (arith, fits)) px in
    let ct : slice (slice both off kem_header_len) 32 mlkem768_ct_len ≡ header.mlkem_ct =
      slice-slice both off kem_header_len 32 mlkem768_ct_len (off + 32) (omega arith) refl
      ∙ slice-splice_same first (off + 32) mlkem768_ct_len header.mlkem_ct (omega (arith, l1, fits))
          pc in
    let len = length-slice both off kem_header_len (omega (arith, l1, l2, fits)) in
    ground (arith, point, ct, len)
