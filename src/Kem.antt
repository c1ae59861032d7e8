-- ===== src/Kem.antt =====
-- crates/aegis-crypto/src/kem.rs: the hybrid X25519 + ML-KEM-768 key encapsulation, and the error
-- type of crates/aegis-crypto/src/lib.rs.
--
-- The crates x25519-dalek, ml-kem and sha3 are the parameter `Primitives`, with what the code
-- relies on: the lengths of their outputs, that both ends of a Diffie-Hellman exchange agree, and
-- that ML-KEM decapsulation undoes encapsulation. The random draws are arguments.
pub mod Agreement
pub mod Samples
mod Tests
use Prim.Native.String.{String}
use anonymous.Common.Slices.{slice, splice}
use anonymous.Common.Results.{Result, ok, err, ◌>>=◌}
use anonymous.Common.{
  ℕ, ◌+◌, ◌≡◌, Bool, true, false, Option, none, some, List, [], ◌∷◌, ◌++◌, length, ltb,
  if◌then◌else◌,
}

pub data CryptoError : Type 0 where
  integrity_failure replay_rejected kem_failure : CryptoError
  malformed : String → CryptoError

pub record Primitives : Type 1 where
  pub X25519Secret : Type 0
  pub MlKemSecret : Type 0
  pub MlKemPublic : Type 0
  pub Coins : Type 0
  pub x25519_public : X25519Secret → List ℕ
  pub diffie_hellman : X25519Secret → List ℕ → List ℕ
  pub mlkem_public : MlKemSecret → MlKemPublic
  pub mlkem_bytes : MlKemPublic → List ℕ
  pub mlkem_encapsulate : MlKemPublic → Coins → Option (List ℕ × List ℕ)
  pub mlkem_decapsulate : MlKemSecret → List ℕ → Option (List ℕ)
  pub sha3_256 : List ℕ → List ℕ
  pub length-x25519_public : (s : X25519Secret) → length (x25519_public s) ≡ 32
  pub length-mlkem_ct :
      (p : MlKemPublic) (c : Coins) (ct ss : List ℕ)
      → mlkem_encapsulate p c ≡ some (ct, ss)
      → length ct ≡ 1088
  pub length-sha3_256 : (m : List ℕ) → length (sha3_256 m) ≡ 32
  pub diffie_hellman_comm :
      (a b : X25519Secret) → diffie_hellman a (x25519_public b) ≡ diffie_hellman b (x25519_public a)
  pub mlkem_decapsulate_encapsulate :
      (s : MlKemSecret) (c : Coins) (ct ss : List ℕ)
      → mlkem_encapsulate (mlkem_public s) c ≡ some (ct, ss)
      → mlkem_decapsulate s ct ≡ some ss

abbrev pub mlkem768_ct_len : ℕ
mlkem768_ct_len = 1088

abbrev pub kem_header_len : ℕ
kem_header_len = 32 + mlkem768_ct_len

pub relay_kem_canonical_prefix : List ℕ
relay_kem_canonical_prefix =
    b'a' ∷ b'e' ∷ b'g' ∷ b'i' ∷ b's' ∷ b'-' ∷ b'r' ∷ b'e' ∷ b'l' ∷ b'a' ∷ b'y' ∷ b'-' ∷ b'k' ∷ b'e'
    ∷ b'm' ∷ b'-' ∷ b'v' ∷ b'1' ∷ []

-- 32 bytes.
abbrev pub SharedSecret : Type 0
SharedSecret = List ℕ

pub record KemHeader : Type 0 where
  pub x25519_point : List ℕ
  pub mlkem_ct : List ℕ

-- `header.write_to(&mut out[off..])`.
unfoldable pub write_to : KemHeader → List ℕ → ℕ → List ℕ
write_to header out off = splice (splice out off header.x25519_point) (off + 32) header.mlkem_ct

unfoldable pub read_from : List ℕ → Result CryptoError KemHeader
read_from bytes =
    if ltb (length bytes) kem_header_len
    then err (malformed "kem header too short")
    else ok (record { x25519_point = slice bytes 0 32; mlkem_ct = slice bytes 32 mlkem768_ct_len })

module _ (p : Primitives) where
  pub record RelayKemSecret : Type 0 where
    pub x25519 : p.X25519Secret
    pub mlkem : p.MlKemSecret

  pub record RelayKemPublic : Type 0 where
    pub x25519 : List ℕ
    pub mlkem : p.MlKemPublic

  -- The public half that `RelayKemSecret::generate` returns.
  pub public_of : RelayKemSecret → RelayKemPublic
  public_of s = record { x25519 = p.x25519_public s.x25519; mlkem = p.mlkem_public s.mlkem }

  pub hybrid_kdf : List ℕ → List ℕ → SharedSecret
  hybrid_kdf ss_x ss_pq = p.sha3_256 (ss_x ++ ss_pq)

  -- `Ciphertext::try_from` fails on a slice of another length.
  pub decapsulate : RelayKemSecret → KemHeader → Result CryptoError SharedSecret
  decapsulate s header =
      let ss_x = p.diffie_hellman s.x25519 header.x25519_point in
      elim (p.mlkem_decapsulate s.mlkem header.mlkem_ct) [
        | none ↦ err kem_failure
        | some ss_pq ↦ ok (hybrid_kdf ss_x ss_pq)
      ]

  -- `ephemeral` and `coins` are what the random generator supplies.
  pub encapsulate :
      RelayKemPublic → p.X25519Secret → p.Coins → Result CryptoError (KemHeader × SharedSecret)
  encapsulate pk ephemeral coins = elim (p.mlkem_encapsulate pk.mlkem coins) [
    | none ↦ err kem_failure
    | some (ct, ss_pq) ↦ ok (
      record { x25519_point = p.x25519_public ephemeral; mlkem_ct = ct },
      hybrid_kdf (p.diffie_hellman ephemeral pk.x25519) ss_pq,
    )
  ]

  pub canonical_bytes : RelayKemPublic → List ℕ
  canonical_bytes pk = relay_kem_canonical_prefix ++ (pk.x25519 ++ p.mlkem_bytes pk.mlkem)

  pub kem_public_commitment : RelayKemPublic → List ℕ
  kem_public_commitment pk = p.sha3_256 (canonical_bytes pk)
