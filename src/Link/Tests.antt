-- ===== src/Link/Tests.antt =====
-- The theorems on links with toy primitives.
use anonymous.Common.Results.{ok}
use anonymous.Common.{
  ℕ, ◌≡◌, ◌≢◌, refl, ap, some, none, List, [], ◌++◌, length, get_or, replicate, length-replicate,
  arith, bytes_eq,
}
use anonymous.Kem.Samples.{toy}
use anonymous.Sphinx.Samples.{subtle}
use anonymous.Link.{
  LinkKey, LinkHandshakeInit, LinkHandshakeResp, from_messages, peer_id, seal, open_frame,
  link_frame_len, parse_link_handshake_init, parse_link_handshake_resp, parse_link_handshake_mac,
  link_handshake_init_write, link_handshake_resp_write, link_handshake_confirm_mac,
  link_handshake_finish_mac, link_handshake_initiator_finish, link_handshake_responder_finish,
  derive_link_session_key, derive_session_key_bytes, handshake_mac, verify_handshake_mac,
  verify_link_handshake_confirm_mac,
}
use anonymous.Link.Samples.{toy_aead, tagged}
use anonymous.Link.Frames.{open_frame-seal}
use anonymous.Link.Handshake.{link_handshake-agrees}
use anonymous.Link.Binding.{IsSized, confirm_for_other_relay}

open_frame-seal_example :
    (length (replicate 12 1 ++ tagged (replicate 512 3)) ≡ link_frame_len)
    × (open_frame toy_aead [] (replicate 12 1 ++ tagged (replicate 512 3)) ≡ ok (replicate 512 3))
unfolding seal
open_frame-seal_example =
    open_frame-seal toy_aead [] (replicate 512 3) (replicate 12 1)
      (replicate 12 1 ++ tagged (replicate 512 3)) (length-replicate {A = ℕ} 512 3)
      (length-replicate {A = ℕ} 12 1) refl

link_handshake-agrees_example :
    let init_msg = link_handshake_init_write toy 3 (replicate 16 1) in
    let resp_msg = link_handshake_resp_write toy 4 (replicate 16 2) in
    (init : LinkHandshakeInit) × (resp : LinkHandshakeResp) × (key : LinkKey) × (confirm : List ℕ)
    × (parse_link_handshake_init init_msg ≡ ok init)
    × (parse_link_handshake_resp resp_msg ≡ ok resp)
    × (link_handshake_initiator_finish toy subtle [] 3 init resp_msg
          (link_handshake_finish_mac toy [] (from_messages init resp) none)
          none
        ≡ ok (key, confirm))
    × (link_handshake_responder_finish toy subtle [] 4 init resp confirm none ≡ ok key)
link_handshake-agrees_example =
    link_handshake-agrees toy subtle [] none 3 4 (replicate 16 1) (replicate 16 2)
      (length-replicate {A = ℕ} 16 1) (length-replicate {A = ℕ} 16 2)

abbrev init : LinkHandshakeInit
init = record { eph_pk = replicate 32 3; nonce = replicate 16 1 }

abbrev resp : LinkHandshakeResp
resp = record { eph_pk = replicate 32 4; nonce = replicate 16 2 }

transcript-IsSized : IsSized (from_messages init resp)
transcript-IsSized = record {
  initiator_key = length-replicate {A = ℕ} 32 3;
  initiator_nonce = length-replicate {A = ℕ} 16 1;
  responder_key = length-replicate {A = ℕ} 32 4;
  responder_nonce = length-replicate {A = ℕ} 16 2;
}

-- The toy hash is constant, so the confirmation for another relay is accepted.
accepted_for_other :
    link_handshake_responder_finish toy subtle [] 4 init resp
      (link_handshake_confirm_mac toy []
        (from_messages init resp)
        (some (peer_id (replicate 32 1))))
      (some (peer_id (replicate 32 2)))
    ≡ ok (replicate 32 7)
unfolding link_handshake_responder_finish parse_link_handshake_mac link_handshake_confirm_mac
    verify_link_handshake_confirm_mac verify_handshake_mac handshake_mac derive_link_session_key
    derive_session_key_bytes bytes_eq
accepted_for_other = refl

confirm_for_other_relay_example :
    (m : List ℕ) × (m' : List ℕ) × (m ≢ m') × (toy.sha3_256 m ≡ toy.sha3_256 m')
confirm_for_other_relay_example =
    confirm_for_other_relay toy subtle [] [] 4 init resp (from_messages init resp)
      (peer_id (replicate 32 2)) (peer_id (replicate 32 1)) (replicate 32 7) transcript-IsSized
      transcript-IsSized (length-replicate {A = ℕ} 32 2) (length-replicate {A = ℕ} 32 1)
      (λ e. let first : ◌≡◌ {A = ℕ} 1 2 = ap (λ l. get_or l 0 0) e in absurd (omega arith))
      accepted_for_other
