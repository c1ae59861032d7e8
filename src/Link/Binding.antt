-- ===== src/Link/Binding.antt =====
-- Whose confirmation a responder accepts.
use anonymous.Common.Results.{ok}
use anonymous.Common.{
  ℕ, ◌≡◌, ◌≢◌, refl, sym, ap, ◌∙◌, Bool-cases, inl, inr, Option, some, List, ◌∷◌, ◌++◌, length,
  arith, take, drop, take_of_append, drop_of_append, length-append,
}
use anonymous.Kem.{Primitives}
use anonymous.Replay.{CtEq}
use anonymous.Link.{
  link_eph_pub_len, link_handshake_nonce_len, role_initiator, LinkKey, LinkHandshakeInit,
  LinkHandshakeResp, LinkHandshakeTranscript, from_messages, LinkHandshakeBinding, binding_bytes,
  transcript_bytes, mac_input, handshake_mac_domain, handshake_identity_domain,
  parse_link_handshake_mac, handshake_auth_key, handshake_mac, link_handshake_confirm_mac,
  verify_handshake_mac, verify_link_handshake_confirm_mac, link_handshake_responder_finish,
}

-- What follows two prefixes of one length.
suffix_of_eq : (xs ys xs' ys' : List ℕ) → length xs ≡ length xs' → xs ++ ys ≡ xs' ++ ys' → ys ≡ ys'
suffix_of_eq xs ys xs' ys' h e =
    sym (drop_of_append (length xs) xs ys refl)
    ∙ ap (drop (length xs)) e
    ∙ drop_of_append (length xs) xs' ys' (sym h)

prefix_of_eq : (xs ys xs' ys' : List ℕ) → length xs ≡ length xs' → xs ++ ys ≡ xs' ++ ys' → xs ≡ xs'
prefix_of_eq xs ys xs' ys' h e =
    sym (take_of_append (length xs) xs ys refl)
    ∙ ap (take (length xs)) e
    ∙ take_of_append (length xs) xs' ys' (sym h)

-- The lengths that the types of the messages give.
pub record IsSized (t : LinkHandshakeTranscript) : Type 0 where
  pub initiator_key : length t.initiator_eph_pk ≡ link_eph_pub_len
  pub initiator_nonce : length t.initiator_nonce ≡ link_handshake_nonce_len
  pub responder_key : length t.responder_eph_pk ≡ link_eph_pub_len
  pub responder_nonce : length t.responder_nonce ≡ link_handshake_nonce_len

length-transcript_bytes :
    (t : LinkHandshakeTranscript) → IsSized t → length (transcript_bytes t) ≡ 96
unfolding transcript_bytes
length-transcript_bytes t v = omega (
  arith,
  length-append t.initiator_eph_pk (t.initiator_nonce ++ (t.responder_eph_pk ++ t.responder_nonce)),
  length-append t.initiator_nonce (t.responder_eph_pk ++ t.responder_nonce),
  length-append t.responder_eph_pk t.responder_nonce,
  v.initiator_key,
  v.initiator_nonce,
  v.responder_key,
  v.responder_nonce,
)

-- Equal inputs of the MAC have equal bindings.
mac_input-binding :
    (k k' : List ℕ) (role : ℕ) (t t' : LinkHandshakeTranscript) (b b' : Option LinkHandshakeBinding)
    → length k ≡ length k'
    → IsSized t
    → IsSized t'
    → mac_input k role t b ≡ mac_input k' role t' b'
    → binding_bytes b ≡ binding_bytes b'
unfolding mac_input
mac_input-binding k k' role t t' b b' hk v v' e =
    let after_domain = suffix_of_eq handshake_mac_domain _ handshake_mac_domain _ refl e in
    let after_key = suffix_of_eq k _ k' _ hk after_domain in
    suffix_of_eq (role ∷ transcript_bytes t) (binding_bytes b) (role ∷ transcript_bytes t')
      (binding_bytes b') (omega (arith, length-transcript_bytes t v, length-transcript_bytes t' v'))
      after_key

-- Equal bindings name one relay.
binding_bytes-id :
    (b b' : LinkHandshakeBinding)
    → length b.peer_relay_id ≡ length b'.peer_relay_id
    → binding_bytes (some b) ≡ binding_bytes (some b')
    → b.peer_relay_id ≡ b'.peer_relay_id
unfolding binding_bytes
binding_bytes-id b b' h e =
    prefix_of_eq b.peer_relay_id _ b'.peer_relay_id _ h
      (suffix_of_eq handshake_identity_domain _ handshake_identity_domain _ refl e)

module _ (p : Primitives) (subtle : CtEq) where
  -- An accepted confirmation is the MAC that the responder computes.
  responder_finish-mac :
      (psk : List ℕ) (sk : p.X25519Secret) (init : LinkHandshakeInit) (resp : LinkHandshakeResp)
      (confirm : List ℕ) (binding : Option LinkHandshakeBinding) (key : LinkKey)
      → link_handshake_responder_finish p subtle psk sk init resp confirm binding ≡ ok key
      → link_handshake_confirm_mac p psk (from_messages init resp) binding ≡ confirm
  unfolding link_handshake_responder_finish parse_link_handshake_mac verify_handshake_mac
      verify_link_handshake_confirm_mac link_handshake_confirm_mac
  responder_finish-mac psk sk init resp confirm binding key e =
      let mac = link_handshake_confirm_mac p psk (from_messages init resp) binding in
      elim (Bool-cases (subtle.ct_eq mac confirm)) [
        | inl same ↦ (subtle.ct_eq_iff mac confirm).0 same
        | inr other ↦ absurd (ground (arith, other, e))
      ]

  -- A responder that is bound to one relay accepts a confirmation that was made for another one,
  -- under whatever pre-shared keys and over whatever messages of full length, only where two
  -- different inputs of SHA3 have one hash.
  pub confirm_for_other_relay :
      (psk psk' : List ℕ) (sk : p.X25519Secret) (init : LinkHandshakeInit)
      (resp : LinkHandshakeResp) (t : LinkHandshakeTranscript) (bound other : LinkHandshakeBinding)
      (key : LinkKey)
      → IsSized t
      → IsSized (from_messages init resp)
      → length bound.peer_relay_id ≡ 32
      → length other.peer_relay_id ≡ 32
      → other.peer_relay_id ≢ bound.peer_relay_id
      → link_handshake_responder_finish p subtle psk sk init resp
          (link_handshake_confirm_mac p psk' t (some other))
          (some bound)
        ≡ ok key
      → (m : List ℕ) × (m' : List ℕ) × (m ≢ m') × (p.sha3_256 m ≡ p.sha3_256 m')
  unfolding handshake_mac handshake_auth_key link_handshake_confirm_mac
  confirm_for_other_relay psk psk' sk init resp t bound other key v v' hb ho distinct e =
      let u = from_messages init resp in
      let k = handshake_auth_key p psk in
      let k' = handshake_auth_key p psk' in
      (
        mac_input k' role_initiator t (some other),
        mac_input k role_initiator u (some bound),
        (λ same. distinct (
            binding_bytes-id other bound (ho ∙ sym hb) (
              mac_input-binding k' k role_initiator t u (some other) (some bound)
                (p.length-sha3_256 _ ∙ sym (p.length-sha3_256 _)) v v' same))),
        sym (
            responder_finish-mac psk sk init resp (link_handshake_confirm_mac p psk' t (some other))
              (some bound) key e),
      )
