-- ===== src/Sphinx/Peel.antt =====
-- `peel` on bytes, against one step on the regions of a packet.
use anonymous.Common.Slices.{
  slice, splice, length-splice, length-slice, slice-append_right, slice-append_left,
  splice-append_right, splice-append_left, splice_pair, splice_whole,
}
use anonymous.Common.Xor.{
  xor_at, length-xor_at, xor_at-append_right, xor_at-append_left, drop-xor_at,
}
use anonymous.Common.Results.{ok}
use anonymous.Common.{
  ℕ, ◌+◌, ◌-◌, ◌≤◌, ◌≡◌, refl, ap, ◌∙◌, List, ◌++◌, arith, length, take, drop, length-drop,
  length-append, take_all,
}
use anonymous.Kem.{Primitives, KemHeader, SharedSecret, write_to, kem_header_len}
use anonymous.Sphinx.{
  forward, routing_slot_len, alpha_len, beta_len, gamma_len, delta_len, off_beta, off_gamma,
  off_delta, peel_pad, stream_beta, stream_delta, peel, stream_xor_range,
}
use anonymous.Sphinx.Stream.{key_stream, length-key_stream, stream_xor_range_lem}
use anonymous.Sphinx.Regions.{
  Regions, IsSized, packet_of, header_bytes, read_from_whole, length-peel_pad,
}

module _ (p : Primitives) (secret : SharedSecret) where
  unfoldable pub slot_key : List ℕ
  slot_key = key_stream p stream_beta secret routing_slot_len

  unfoldable pub delta_key : List ℕ
  delta_key = key_stream p stream_delta secret delta_len

  pub length-slot_key : length slot_key ≡ routing_slot_len
  unfolding slot_key
  length-slot_key = length-key_stream p stream_beta secret routing_slot_len

  pub length-delta_key : length delta_key ≡ delta_len
  unfolding delta_key
  length-delta_key = length-key_stream p stream_delta secret delta_len

  -- `beta` with its first slot unmasked.
  unfoldable pub unmasked : List ℕ → List ℕ
  unmasked beta = xor_at 0 slot_key beta

  -- `beta` for the next hop.
  unfoldable pub shifted : List ℕ → List ℕ
  shifted beta = drop routing_slot_len beta ++ peel_pad p secret routing_slot_len

  unfoldable pub next_hop_of : List ℕ → List ℕ
  next_hop_of beta = slice (unmasked beta) 0 32

  unfoldable pub peeled : Regions → Regions
  peeled r = record {
    alpha = slice (unmasked r.beta) 32 kem_header_len;
    beta = shifted r.beta;
    gamma = slice (unmasked r.beta) (32 + kem_header_len) gamma_len;
    delta = xor_at 0 delta_key r.delta;
  }

  pub peeled-IsSized : (r : Regions) → IsSized r → IsSized (peeled r)
  unfolding peeled shifted unmasked
  peeled-IsSized r v = record {
    alpha_sized =
        length-slice (xor_at 0 slot_key r.beta) 32 kem_header_len
          (omega (arith, length-xor_at 0 slot_key r.beta, v.beta_sized));
    beta_sized = omega (
      arith,
      length-append (drop routing_slot_len r.beta) (peel_pad p secret routing_slot_len),
      length-drop routing_slot_len r.beta,
      length-peel_pad p secret routing_slot_len,
      v.beta_sized,
    );
    gamma_sized =
        length-slice (xor_at 0 slot_key r.beta) (32 + kem_header_len) gamma_len
          (omega (arith, length-xor_at 0 slot_key r.beta, v.beta_sized));
    delta_sized = omega (arith, length-xor_at 0 delta_key r.delta, v.delta_sized);
  }

  -- A range of `beta`, `gamma` or `delta` in the whole packet.
  module _ (r : Regions) (v : IsSized r) where
    abbrev rest : List ℕ
    rest = r.gamma ++ r.delta

    mask_beta :
        stream_xor_range p (packet_of r) off_beta (off_beta + routing_slot_len) secret stream_beta
        ≡ r.alpha ++ (unmasked r.beta ++ rest)
    unfolding packet_of unmasked slot_key
    mask_beta =
        stream_xor_range_lem p stream_beta secret (r.alpha ++ (r.beta ++ rest)) off_beta
          (off_beta + routing_slot_len)
        ∙ xor_at-append_right r.alpha (r.beta ++ rest) off_beta 0
            (key_stream p stream_beta secret routing_slot_len) (omega (arith, v.alpha_sized))
        ∙ ap (λ l. r.alpha ++ l)
            (xor_at-append_left r.beta rest 0 (key_stream p stream_beta secret routing_slot_len) (
              omega (arith, v.beta_sized, length-key_stream p stream_beta secret routing_slot_len)))

    length-unmasked : length (unmasked r.beta) ≡ beta_len
    unfolding unmasked
    length-unmasked = omega (arith, length-xor_at 0 slot_key r.beta, v.beta_sized)

    -- A range of `beta` in the packet with the slot unmasked.
    beta_range :
        (k o n : ℕ)
        → k ≡ off_beta + o
        → o + n ≤ beta_len
        → slice (r.alpha ++ (unmasked r.beta ++ rest)) k n ≡ slice (unmasked r.beta) o n
    beta_range k o n e h =
        slice-append_right r.alpha (unmasked r.beta ++ rest) k o n (omega (arith, v.alpha_sized, e))
        ∙ slice-append_left (unmasked r.beta) rest o n (omega (arith, length-unmasked))

    moved :
        slice (unmasked r.beta) routing_slot_len (beta_len - routing_slot_len)
        ≡ drop routing_slot_len r.beta
    unfolding unmasked slice
    moved =
        ap (take (beta_len - routing_slot_len))
          (drop-xor_at routing_slot_len 0 slot_key r.beta (omega (arith, length-slot_key)))
        ∙ take_all (beta_len - routing_slot_len) (drop routing_slot_len r.beta)
            (omega (arith, length-drop routing_slot_len r.beta, v.beta_sized))

    -- The copy within `beta` and the pad behind it.
    shift_beta :
        (out : List ℕ)
        → out ≡ r.alpha ++ (unmasked r.beta ++ rest)
        → splice
            (splice out off_beta
              (slice out (off_beta + routing_slot_len) (beta_len - routing_slot_len)))
            (off_beta + beta_len - routing_slot_len)
            (peel_pad p secret routing_slot_len)
          ≡ r.alpha ++ (shifted r.beta ++ rest)
    unfolding shifted
    shift_beta out e =
        let pad = peel_pad p secret routing_slot_len in
        let tail = drop routing_slot_len r.beta in
        let part : slice out (off_beta + routing_slot_len) (beta_len - routing_slot_len) ≡ tail =
          rw e (
            beta_range (off_beta + routing_slot_len) routing_slot_len (beta_len - routing_slot_len)
              refl (omega arith)
            ∙ moved) in
        let lt : length tail ≡ beta_len - routing_slot_len =
          omega (arith, length-drop routing_slot_len r.beta, v.beta_sized) in
        let lp = length-peel_pad p secret routing_slot_len in
        let ls = length-splice (unmasked r.beta) 0 tail (omega (arith, lt, length-unmasked)) in
        rw part (
          rw e (
            ap (λ l. splice l (off_beta + beta_len - routing_slot_len) pad)
              (splice-append_right r.alpha (unmasked r.beta ++ rest) off_beta 0 tail
                  (omega (arith, v.alpha_sized))
                ∙ ap (λ l. r.alpha ++ l)
                    (splice-append_left (unmasked r.beta) rest 0 tail
                      (omega (arith, lt, length-unmasked))))
            ∙ splice-append_right r.alpha (splice (unmasked r.beta) 0 tail ++ rest)
                (off_beta + beta_len - routing_slot_len) (beta_len - routing_slot_len) pad
                (omega (arith, v.alpha_sized))
            ∙ ap (λ l. r.alpha ++ l)
                (splice-append_left (splice (unmasked r.beta) 0 tail) rest
                    (beta_len - routing_slot_len) pad (omega (arith, lp, ls, length-unmasked))
                  ∙ ap (λ l. l ++ rest)
                      (splice_pair (unmasked r.beta) (beta_len - routing_slot_len) tail pad lt
                        (omega (arith, lp, length-unmasked))))))

    -- The next header over `alpha`, the next MAC over `gamma`, and the mask of `delta`.
    put_header :
        (h : KemHeader) (beta : List ℕ)
        → length h.x25519_point ≡ 32
        → length h.mlkem_ct ≡ 1088
        → write_to h (r.alpha ++ (beta ++ rest)) 0 ≡ header_bytes h ++ (beta ++ rest)
    unfolding write_to
    put_header h beta px pc =
        let ls = length-splice r.alpha 0 h.x25519_point (omega (arith, px, v.alpha_sized)) in
        ap (λ l. splice l 32 h.mlkem_ct)
          (splice-append_left r.alpha (beta ++ rest) 0 h.x25519_point
            (omega (arith, px, v.alpha_sized)))
        ∙ splice-append_left (splice r.alpha 0 h.x25519_point) (beta ++ rest) 32 h.mlkem_ct
            (omega (arith, pc, ls, v.alpha_sized))
        ∙ ap (λ l. l ++ (beta ++ rest))
            (splice_pair r.alpha 32 h.x25519_point h.mlkem_ct px (omega (arith, pc, v.alpha_sized)))

    put_gamma :
        (alpha beta gamma : List ℕ)
        → length alpha ≡ alpha_len
        → length beta ≡ beta_len
        → length gamma ≡ gamma_len
        → splice (alpha ++ (beta ++ rest)) off_gamma gamma ≡ alpha ++ (beta ++ (gamma ++ r.delta))
    put_gamma alpha beta gamma la lb lg =
        splice-append_right alpha (beta ++ rest) off_gamma beta_len gamma (omega (arith, la))
        ∙ ap (λ l. alpha ++ l)
            (splice-append_right beta rest beta_len 0 gamma (omega (arith, lb))
              ∙ ap (λ l. beta ++ l)
                  (splice-append_left r.gamma r.delta 0 gamma (omega (arith, lg, v.gamma_sized))
                    ∙ ap (λ l. l ++ r.delta)
                        (splice_whole r.gamma gamma (omega (arith, lg, v.gamma_sized)))))

    mask_delta :
        (alpha beta gamma : List ℕ)
        → length alpha ≡ alpha_len
        → length beta ≡ beta_len
        → length gamma ≡ gamma_len
        → stream_xor_range p
            (alpha ++ (beta ++ (gamma ++ r.delta)))
            off_delta
            (off_delta + delta_len)
            secret
            stream_delta
          ≡ alpha ++ (beta ++ (gamma ++ xor_at 0 delta_key r.delta))
    unfolding delta_key
    mask_delta alpha beta gamma la lb lg =
        let key = key_stream p stream_delta secret delta_len in
        stream_xor_range_lem p stream_delta secret (alpha ++ (beta ++ (gamma ++ r.delta))) off_delta
          (off_delta + delta_len)
        ∙ xor_at-append_right alpha (beta ++ (gamma ++ r.delta)) off_delta (beta_len + gamma_len)
            key (omega (arith, la))
        ∙ ap (λ l. alpha ++ l)
            (xor_at-append_right beta (gamma ++ r.delta) (beta_len + gamma_len) gamma_len key
                (omega (arith, lb))
              ∙ ap (λ l. beta ++ l)
                  (xor_at-append_right gamma r.delta gamma_len 0 key (omega (arith, lg))))

    -- On a packet whose four regions have their lengths, the peel succeeds, forwards to the identity
    -- in the unmasked first slot, and what it forwards is the packet of the peeled regions.
    pub peel-peeled :
        peel p (packet_of r) secret ≡ ok (forward (next_hop_of r.beta) (packet_of (peeled r)))
    unfolding peel packet_of peeled next_hop_of
    peel-peeled =
        let X = unmasked r.beta in
        let hdr = slice X 32 kem_header_len in
        let lh = length-slice X 32 kem_header_len (omega (arith, length-unmasked)) in
        let lg = length-slice X (32 + kem_header_len) gamma_len (omega (arith, length-unmasked)) in
        let lb = (peeled-IsSized r v).beta_sized in
        let (h, parsed, same, px, pc) = read_from_whole hdr lh in
        rw mask_beta (
          rw (beta_range off_beta 0 32 refl (omega arith)) (
            rw (beta_range (off_beta + 32) 32 kem_header_len refl (omega arith)) (
              rw
                (beta_range (off_beta + 32 + kem_header_len) (32 + kem_header_len) gamma_len refl
                  (omega arith))
                (rw parsed (
                  rw (shift_beta (r.alpha ++ (X ++ rest)) refl) (
                    rw (put_header h (shifted r.beta) px pc) (
                      rw same (
                        rw
                          (put_gamma hdr (shifted r.beta) (slice X (32 + kem_header_len) gamma_len)
                            lh lb lg)
                          (rw
                            (mask_delta hdr (shifted r.beta)
                              (slice X (32 + kem_header_len) gamma_len) lh lb lg)
                            refl)))))))))
