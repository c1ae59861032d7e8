-- ===== src/Link/Handshake.antt =====
-- A handshake between two ends that follow it.
use anonymous.Common.Results.{ok}
use anonymous.Common.{
  ℕ, ◌≡◌, refl, true, Option, List, ◌++◌, length, arith, take_of_append, drop_of_append,
  length-append,
}
use anonymous.Kem.{Primitives}
use anonymous.Replay.{CtEq}
use anonymous.Link.{
  link_eph_pub_len, link_handshake_nonce_len, link_handshake_init_len, link_handshake_mac_len,
  role_initiator, role_responder, LinkKey, LinkHandshakeInit, LinkHandshakeResp,
  LinkHandshakeTranscript, from_messages, LinkHandshakeBinding, parse_link_handshake_init,
  parse_link_handshake_resp, parse_link_handshake_mac, handshake_auth_key, handshake_mac,
  link_handshake_init_write, link_handshake_resp_write, link_handshake_confirm_mac,
  link_handshake_finish_mac, derive_link_session_key, verify_handshake_mac,
  verify_link_handshake_confirm_mac, verify_link_handshake_finish_mac,
  link_handshake_initiator_finish, link_handshake_responder_finish,
}

parse_init_whole :
    (key nonce : List ℕ)
    → length key ≡ link_eph_pub_len
    → length nonce ≡ link_handshake_nonce_len
    → parse_link_handshake_init (key ++ nonce) ≡ ok (record { eph_pk = key; nonce = nonce })
unfolding parse_link_handshake_init
parse_init_whole key nonce hk hn =
    let whole : length (key ++ nonce) ≡ link_handshake_init_len =
      omega (arith, length-append key nonce, hk, hn) in
    rw whole (
      rw
        (take_of_append link_eph_pub_len key nonce hk, drop_of_append link_eph_pub_len key nonce hk)
        refl)

parse_resp_whole :
    (key nonce : List ℕ)
    → length key ≡ link_eph_pub_len
    → length nonce ≡ link_handshake_nonce_len
    → parse_link_handshake_resp (key ++ nonce) ≡ ok (record { eph_pk = key; nonce = nonce })
unfolding parse_link_handshake_resp
parse_resp_whole key nonce hk hn =
    let whole : length (key ++ nonce) ≡ link_handshake_init_len =
      omega (arith, length-append key nonce, hk, hn) in
    rw whole (
      rw
        (take_of_append link_eph_pub_len key nonce hk, drop_of_append link_eph_pub_len key nonce hk)
        refl)

parse_mac_whole :
    (mac : List ℕ) → length mac ≡ link_handshake_mac_len → parse_link_handshake_mac mac ≡ ok mac
unfolding parse_link_handshake_mac
parse_mac_whole mac h = rw h refl

module _ (p : Primitives) (subtle : CtEq) where
  verify_own_mac :
      (auth_key : List ℕ) (role : ℕ) (t : LinkHandshakeTranscript)
      (binding : Option LinkHandshakeBinding)
      → verify_handshake_mac p subtle auth_key role t binding
          (handshake_mac p auth_key role t binding)
        ≡ true
  unfolding verify_handshake_mac
  verify_own_mac auth_key role t binding =
      (subtle.ct_eq_iff (handshake_mac p auth_key role t binding)
          (handshake_mac p auth_key role t binding)).1
        refl

  length-handshake_mac :
      (auth_key : List ℕ) (role : ℕ) (t : LinkHandshakeTranscript)
      (binding : Option LinkHandshakeBinding)
      → length (handshake_mac p auth_key role t binding) ≡ link_handshake_mac_len
  unfolding handshake_mac
  length-handshake_mac auth_key role t binding = p.length-sha3_256 _

  -- Two ends with the same pre-shared key and the same binding, whose nonces have 16 bytes: each
  -- parses what the other wrote, each accepts the other's MAC, and both derive one session key.
  pub link_handshake-agrees :
      (psk : List ℕ) (binding : Option LinkHandshakeBinding) (a b : p.X25519Secret) (n m : List ℕ)
      → length n ≡ link_handshake_nonce_len
      → length m ≡ link_handshake_nonce_len
      → let init_msg = link_handshake_init_write p a n in
        let resp_msg = link_handshake_resp_write p b m in
        (init : LinkHandshakeInit) × (resp : LinkHandshakeResp) × (key : LinkKey) × (confirm : List
          ℕ)
        × (parse_link_handshake_init init_msg ≡ ok init)
        × (parse_link_handshake_resp resp_msg ≡ ok resp)
        × (link_handshake_initiator_finish p subtle psk a init resp_msg
              (link_handshake_finish_mac p psk (from_messages init resp) binding)
              binding
            ≡ ok (key, confirm))
        × (link_handshake_responder_finish p subtle psk b init resp confirm binding ≡ ok key)
  unfolding link_handshake_initiator_finish link_handshake_responder_finish derive_link_session_key
      link_handshake_init_write link_handshake_resp_write link_handshake_confirm_mac
      link_handshake_finish_mac verify_link_handshake_confirm_mac verify_link_handshake_finish_mac
  link_handshake-agrees psk binding a b n m hn hm =
      let init : LinkHandshakeInit = record { eph_pk = p.x25519_public a; nonce = n } in
      let resp : LinkHandshakeResp = record { eph_pk = p.x25519_public b; nonce = m } in
      let t = from_messages init resp in
      let auth = handshake_auth_key p psk in
      let parsed = parse_resp_whole (p.x25519_public b) m (p.length-x25519_public b) hm in
      let finish =
        parse_mac_whole (handshake_mac p auth role_responder t binding)
          (length-handshake_mac auth role_responder t binding) in
      let confirmed =
        parse_mac_whole (handshake_mac p auth role_initiator t binding)
          (length-handshake_mac auth role_initiator t binding) in
      (
        init,
        resp,
        derive_link_session_key p a resp.eph_pk t,
        link_handshake_confirm_mac p psk t binding,
        parse_init_whole (p.x25519_public a) n (p.length-x25519_public a) hn,
        parsed,
        rw parsed (rw finish (rw (verify_own_mac auth role_responder t binding) refl)),
        rw confirmed (
            rw (verify_own_mac auth role_initiator t binding)
              (rw (p.diffie_hellman_comm a b) refl)),
      )
