-- ===== src/Link.antt =====
-- crates/aegis-crypto/src/link.rs: the encryption of one hop's link, and the handshake before it.
--
-- ChaCha20-Poly1305 is the parameter `Aead` with its documented behaviour; X25519 and SHA3 are
-- those of `Primitives`, where a public key from the wire is its bytes. Random draws are arguments.
-- Zeroization and the texts of the `Debug` output are left out.
pub mod Handshake
pub mod Binding
pub mod Frames
pub mod Samples
mod Tests
use Prim.Native.String.{String}
use anonymous.Common.Texts.{ascii}
use anonymous.Common.Slices.{slice}
use anonymous.Common.Results.{Result, ok, err, ◌>>=◌}
use anonymous.Common.{
  ℕ, ◌+◌, ◌≡◌, Bool, true, false, not, Option, none, some, List, [], ◌∷◌, ◌++◌, length, drop, take,
  ◌==◌, if◌then◌else◌,
}
use anonymous.Cell.{Cell, cell_len}
use anonymous.Kem.{Primitives, CryptoError, integrity_failure, malformed}
use anonymous.Replay.{CtEq}

abbrev pub link_nonce_len : ℕ
link_nonce_len = 12

abbrev pub link_tag_len : ℕ
link_tag_len = 16

abbrev pub link_frame_len : ℕ
link_frame_len = link_nonce_len + cell_len + link_tag_len

abbrev pub link_eph_pub_len : ℕ
link_eph_pub_len = 32

abbrev pub link_handshake_nonce_len : ℕ
link_handshake_nonce_len = 16

abbrev pub link_handshake_mac_len : ℕ
link_handshake_mac_len = 32

abbrev pub link_handshake_init_len : ℕ
link_handshake_init_len = link_eph_pub_len + link_handshake_nonce_len

abbrev pub link_handshake_resp_len : ℕ
link_handshake_resp_len = link_eph_pub_len + link_handshake_nonce_len

pub handshake_auth_domain : List ℕ
handshake_auth_domain = ascii "aegis-link-handshake-auth-v1"

pub handshake_mac_domain : List ℕ
handshake_mac_domain = ascii "aegis-link-handshake-mac-v1"

pub handshake_identity_domain : List ℕ
handshake_identity_domain = ascii "aegis-link-handshake-identity-v1"

pub handshake_session_domain : List ℕ
handshake_session_domain = ascii "aegis-link-session-v1"

pub handshake_transcript_domain : List ℕ
handshake_transcript_domain = ascii "aegis-link-handshake-v1"

abbrev pub role_initiator : ℕ
role_initiator = 1

abbrev pub role_responder : ℕ
role_responder = 2

pub link_aad : List ℕ
link_aad = ascii "aegis-link-v1"

-- Key, nonce, associated data and message; `none` is the error of the package.
pub record Aead : Type 0 where
  pub encrypt : List ℕ → List ℕ → List ℕ → List ℕ → Option (List ℕ)
  pub decrypt : List ℕ → List ℕ → List ℕ → List ℕ → Option (List ℕ)
  pub length-encrypt :
      (key nonce aad msg ct : List ℕ)
      → encrypt key nonce aad msg ≡ some ct
      → length ct ≡ length msg + link_tag_len
  pub decrypt-encrypt :
      (key nonce aad msg ct : List ℕ)
      → encrypt key nonce aad msg ≡ some ct
      → decrypt key nonce aad ct ≡ some msg

-- `LinkKey([u8; 32])`.
abbrev pub LinkKey : Type 0
LinkKey = List ℕ

module _ (aead : Aead) where
  -- `nonce` is what the generator fills in.
  unfoldable pub seal : LinkKey → Cell → List ℕ → Result CryptoError (List ℕ)
  seal key cell nonce = elim (aead.encrypt key nonce link_aad cell) [
    | none ↦ err (malformed "seal")
    | some ct ↦ ok (nonce ++ ct)
  ]

  pub open_frame : LinkKey → List ℕ → Result CryptoError Cell
  open_frame key frame =
      if not (length frame == link_frame_len)
      then err (malformed "link frame length")
      else elim (aead.decrypt key (take link_nonce_len frame) link_aad
          (drop link_nonce_len frame)) [
            | none ↦ err integrity_failure
            | some pt ↦
                if not (length pt == cell_len) then err (malformed "plaintext length") else ok pt
          ]

pub record LinkHandshakeInit : Type 0 where
  pub eph_pk : List ℕ
  pub nonce : List ℕ

pub record LinkHandshakeResp : Type 0 where
  pub eph_pk : List ℕ
  pub nonce : List ℕ

pub record LinkHandshakeTranscript : Type 0 where
  pub initiator_eph_pk : List ℕ
  pub initiator_nonce : List ℕ
  pub responder_eph_pk : List ℕ
  pub responder_nonce : List ℕ

abbrev pub from_messages : LinkHandshakeInit → LinkHandshakeResp → LinkHandshakeTranscript
from_messages init resp = record {
  initiator_eph_pk = init.eph_pk;
  initiator_nonce = init.nonce;
  responder_eph_pk = resp.eph_pk;
  responder_nonce = resp.nonce;
}

pub record LinkHandshakeBinding : Type 0 where
  pub peer_relay_id : List ℕ
  pub kem_public_commitment : Option (List ℕ)

abbrev pub peer_id : List ℕ → LinkHandshakeBinding
peer_id peer_relay_id = record { peer_relay_id = peer_relay_id; kem_public_commitment = none }

abbrev pub with_kem_commitment : LinkHandshakeBinding → List ℕ → LinkHandshakeBinding
with_kem_commitment binding commitment = record binding { kem_public_commitment = some commitment }

abbrev pub commitment_bytes : Option (List ℕ) → List ℕ
commitment_bytes (some commitment) = 1 ∷ commitment
commitment_bytes none = 0 ∷ []

-- What `update_handshake_mac_with_binding` feeds to the hash.
unfoldable pub binding_bytes : Option LinkHandshakeBinding → List ℕ
binding_bytes none = []
binding_bytes (some binding) =
    handshake_identity_domain
    ++ (binding.peer_relay_id ++ commitment_bytes binding.kem_public_commitment)

-- The four messages, as both hashes take them.
unfoldable pub transcript_bytes : LinkHandshakeTranscript → List ℕ
transcript_bytes t =
    t.initiator_eph_pk ++ (t.initiator_nonce ++ (t.responder_eph_pk ++ t.responder_nonce))

-- The input of the MAC's hash.
unfoldable pub mac_input :
    List ℕ → ℕ → LinkHandshakeTranscript → Option LinkHandshakeBinding → List ℕ
mac_input auth_key role transcript binding =
    handshake_mac_domain
    ++ (auth_key ++ ((role ∷ transcript_bytes transcript) ++ binding_bytes binding))

pub parse_link_handshake_init : List ℕ → Result CryptoError LinkHandshakeInit
parse_link_handshake_init bytes =
    if not (length bytes == link_handshake_init_len)
    then err (malformed "link handshake init length")
    else ok (record { eph_pk = take link_eph_pub_len bytes; nonce = drop link_eph_pub_len bytes })

pub parse_link_handshake_resp : List ℕ → Result CryptoError LinkHandshakeResp
parse_link_handshake_resp bytes =
    if not (length bytes == link_handshake_resp_len)
    then err (malformed "link handshake resp length")
    else ok (record { eph_pk = take link_eph_pub_len bytes; nonce = drop link_eph_pub_len bytes })

pub parse_link_handshake_mac : List ℕ → Result CryptoError (List ℕ)
parse_link_handshake_mac bytes =
    if not (length bytes == link_handshake_mac_len)
    then err (malformed "link handshake mac length")
    else ok bytes

module _ (p : Primitives) where
  pub handshake_auth_key : List ℕ → List ℕ
  handshake_auth_key psk = p.sha3_256 (handshake_auth_domain ++ psk)

  pub handshake_mac : List ℕ → ℕ → LinkHandshakeTranscript → Option LinkHandshakeBinding → List ℕ
  handshake_mac auth_key role transcript binding =
      p.sha3_256 (mac_input auth_key role transcript binding)

  pub derive_session_key_bytes : List ℕ → LinkHandshakeTranscript → List ℕ
  derive_session_key_bytes shared transcript = p.sha3_256 (
      handshake_session_domain
      ++ (shared ++ (handshake_transcript_domain ++ transcript_bytes transcript)))

  -- The message for a secret and a nonce that were drawn.
  unfoldable pub link_handshake_init_write : p.X25519Secret → List ℕ → List ℕ
  link_handshake_init_write secret nonce = p.x25519_public secret ++ nonce

  unfoldable pub link_handshake_resp_write : p.X25519Secret → List ℕ → List ℕ
  link_handshake_resp_write secret nonce = p.x25519_public secret ++ nonce

  unfoldable pub link_handshake_confirm_mac :
      List ℕ → LinkHandshakeTranscript → Option LinkHandshakeBinding → List ℕ
  link_handshake_confirm_mac psk transcript binding =
      handshake_mac (handshake_auth_key psk) role_initiator transcript binding

  unfoldable pub link_handshake_finish_mac :
      List ℕ → LinkHandshakeTranscript → Option LinkHandshakeBinding → List ℕ
  link_handshake_finish_mac psk transcript binding =
      handshake_mac (handshake_auth_key psk) role_responder transcript binding

  pub derive_link_session_key : p.X25519Secret → List ℕ → LinkHandshakeTranscript → LinkKey
  derive_link_session_key local_ephemeral peer_eph_pk transcript =
      derive_session_key_bytes (p.diffie_hellman local_ephemeral peer_eph_pk) transcript

  module _ (subtle : CtEq) where
    pub verify_handshake_mac :
        List ℕ → ℕ → LinkHandshakeTranscript → Option LinkHandshakeBinding → List ℕ → Bool
    verify_handshake_mac auth_key role transcript binding mac =
        subtle.ct_eq (handshake_mac auth_key role transcript binding) mac

    unfoldable pub verify_link_handshake_confirm_mac :
        List ℕ → LinkHandshakeTranscript → Option LinkHandshakeBinding → List ℕ → Bool
    verify_link_handshake_confirm_mac psk transcript binding mac =
        verify_handshake_mac (handshake_auth_key psk) role_initiator transcript binding mac

    unfoldable pub verify_link_handshake_finish_mac :
        List ℕ → LinkHandshakeTranscript → Option LinkHandshakeBinding → List ℕ → Bool
    verify_link_handshake_finish_mac psk transcript binding mac =
        verify_handshake_mac (handshake_auth_key psk) role_responder transcript binding mac

    pub link_handshake_initiator_finish :
        List ℕ
        → p.X25519Secret
        → LinkHandshakeInit
        → List ℕ
        → List ℕ
        → Option LinkHandshakeBinding
        → Result CryptoError (LinkKey × List ℕ)
    link_handshake_initiator_finish psk init_sk init resp_msg finish_msg binding =
        parse_link_handshake_resp resp_msg >>= λ resp.
        let transcript = from_messages init resp in
        parse_link_handshake_mac finish_msg >>= λ finish.
        if not (verify_link_handshake_finish_mac psk transcript binding finish)
        then err integrity_failure
        else ok (
          derive_link_session_key init_sk resp.eph_pk transcript,
          link_handshake_confirm_mac psk transcript binding,
        )

    pub link_handshake_responder_finish :
        List ℕ
        → p.X25519Secret
        → LinkHandshakeInit
        → LinkHandshakeResp
        → List ℕ
        → Option LinkHandshakeBinding
        → Result CryptoError LinkKey
    link_handshake_responder_finish psk resp_sk init resp confirm_msg binding =
        parse_link_handshake_mac confirm_msg >>= λ confirm.
        let transcript = from_messages init resp in
        if not (verify_link_handshake_confirm_mac psk transcript binding confirm)
        then err integrity_failure
        else ok (derive_link_session_key resp_sk init.eph_pk transcript)
