-- ===== src/Sphinx/Accept.antt =====
-- When a mix accepts a packet: the header, the MAC and the tag.
use anonymous.Common.Slices.{slice}
use anonymous.Common.Results.{ok, ◌>>=◌}
use anonymous.Common.{
  ℕ, ◌≡◌, sym, ap, ◌∙◌, true, [], ◌++◌, arith, length, take, take_of_append, drop_of_append,
  take_all, length-append,
}
use anonymous.Kem.{
  Primitives, KemHeader, SharedSecret, RelayKemSecret, read_from, decapsulate, kem_header_len,
}
use anonymous.Replay.{CtEq, ReplayCache, check_and_insert}
use anonymous.Replay.Window.{Holds, window_insert_empty}
use anonymous.Replay.Refinement.{threshold, check_and_insert-Holds}
use anonymous.Sphinx.{
  forward, replay_tag, extract_kem_header, verify_mac, compute_mac, process_with, process, off_beta,
  beta_len, gamma_len, off_gamma,
}
use anonymous.Sphinx.Regions.{
  Regions, IsSized, packet_of, header_bytes, beta_of_packet, gamma_of_packet, alpha_of_packet,
}
use anonymous.Sphinx.Peel.{peeled, next_hop_of, peel-peeled}

-- A header is read back from its bytes.
pub read_from-header_bytes :
    (h : KemHeader)
    → length h.x25519_point ≡ 32
    → length h.mlkem_ct ≡ 1088
    → read_from (header_bytes h) ≡ ok h
unfolding read_from slice
read_from-header_bytes h px pc =
    let pt = h.x25519_point in
    let ct = h.mlkem_ct in
    let lh : length (pt ++ ct) ≡ kem_header_len = omega (arith, length-append pt ct, px, pc) in
    let first : slice (pt ++ ct) 0 32 ≡ pt = take_of_append 32 pt ct px in
    let second : slice (pt ++ ct) 32 1088 ≡ ct =
      ap (take 1088) (drop_of_append 32 pt ct px) ∙ take_all 1088 ct (omega (arith, pc)) in
    ground (arith, lh, first, second)

module _ (p : Primitives) (subtle : CtEq) {F : Type 0} (fill_threshold : ℕ → F → ℕ) where
  verify_mac-regions :
      (r : Regions) (s : SharedSecret)
      → IsSized r
      → r.gamma ≡ compute_mac p s r.beta
      → verify_mac p subtle s (packet_of r) ≡ true
  unfolding verify_mac
  verify_mac-regions r s v g =
      (subtle.ct_eq_iff (compute_mac p s (slice (packet_of r) off_beta beta_len))
          (slice (packet_of r) off_gamma gamma_len)).1
        (ap (compute_mac p s) (beta_of_packet r v) ∙ sym g ∙ sym (gamma_of_packet r v))

  -- A packet whose MAC is right is peeled, by a mix whose cache is fresh.
  pub process_accepts :
      (r : Regions) (h : KemHeader) (k : RelayKemSecret p) (s : SharedSecret) (c : ReplayCache F)
      → IsSized r
      → r.alpha ≡ header_bytes h
      → length h.x25519_point ≡ 32
      → length h.mlkem_ct ≡ 1088
      → decapsulate p k h ≡ ok s
      → r.gamma ≡ compute_mac p s r.beta
      → Holds c []
      → (process p subtle fill_threshold (packet_of r) k c).0
        ≡ ok (forward (next_hop_of p s r.beta) (packet_of (peeled p s r)))
  unfolding process process_with extract_kem_header
  process_accepts r h k s c v a px pc d g fresh =
      let tag = replay_tag p s in
      let header : read_from (slice (packet_of r) 0 kem_header_len) ≡ ok h =
        ap read_from (alpha_of_packet r v ∙ a) ∙ read_from-header_bytes h px pc in
      let secret : (extract_kem_header (packet_of r) >>= decapsulate p k) ≡ ok s = rw header d in
      let accepted : (check_and_insert subtle fill_threshold c tag).1 ≡ true =
        (check_and_insert-Holds subtle fill_threshold c [] tag fresh).1
        ∙ window_insert_empty c.capacity (threshold subtle fill_threshold c) tag in
      rw (secret, process)
        (rw (verify_mac-regions r s v g, process_with) (rw accepted (peel-peeled p s r v)))
