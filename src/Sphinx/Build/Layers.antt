-- ===== src/Sphinx/Build/Layers.antt =====
-- The packet that a hop gets, and what its peel leaves for the next one.
use anonymous.Common.Slices.{slice, slice-append_left, slice-append_right, slice_all}
use anonymous.Common.Xor.{xor_at, length-xor_at, xor_at_twice, xor_at_comm, xor_at-append_left}
use mathlib.Core.List.{append_assoc}
use anonymous.Common.{
  ℕ, ◌+◌, ◌*◌, ◌≡◌, refl, sym, ap, ◌∙◌, List, [], ◌∷◌, ◌++◌, arith, length, length-append,
}
use anonymous.Kem.{Primitives, KemHeader, SharedSecret, kem_header_len}
use anonymous.Sphinx.{
  routing_slot_len, beta_len, gamma_len, delta_len, stream_delta, peel_pad, compute_mac,
}
use anonymous.Sphinx.Stream.{stream_xor_range_lem}
use anonymous.Sphinx.Regions.{Regions, IsSized, header_bytes}
use anonymous.Sphinx.Peel.{
  slot_key, length-slot_key, delta_key, unmasked, shifted, next_hop_of, peeled,
}
use anonymous.Sphinx.Build.{Routing, mask_delta}
use anonymous.Sphinx.Build.Slots.{IsSizedEntry, AllSized, slot, length-slot}
use anonymous.Sphinx.Build.Masked.{masked, length-masked}
use anonymous.Sphinx.Build.Macs.{gammas_of, gammas_of-Macs, shifted-masked, length-compute_mac}
use anonymous.Sphinx.Build.Onion.{onion}

module _ (p : Primitives) where
  mask_delta_step :
      (s : SharedSecret) (ss : List SharedSecret) (d : List ℕ)
      → mask_delta p (s ∷ ss) d ≡ mask_delta p ss (xor_at 0 (delta_key p s) d)
  unfolding mask_delta delta_key
  mask_delta_step s ss d =
      ap (mask_delta p ss) (stream_xor_range_lem p stream_delta s d 0 delta_len)

  mask_delta-xor_at :
      (ss : List SharedSecret) (key d : List ℕ)
      → mask_delta p ss (xor_at 0 key d) ≡ xor_at 0 key (mask_delta p ss d)
  unfolding mask_delta
  mask_delta-xor_at [] key d = refl
  mask_delta-xor_at (s ∷ ss) key d =
      mask_delta_step s ss (xor_at 0 key d)
      ∙ ap (mask_delta p ss) (xor_at_comm 0 (delta_key p s) key d)
      ∙ mask_delta-xor_at ss key (xor_at 0 (delta_key p s) d)
      ∙ ap (xor_at 0 key) (sym (mask_delta_step s ss d))

  -- The mask of any one hop can be taken off first.
  pub unmask_delta :
      (s : SharedSecret) (ss : List SharedSecret) (d : List ℕ)
      → xor_at 0 (delta_key p s) (mask_delta p (s ∷ ss) d) ≡ mask_delta p ss d
  unmask_delta s ss d =
      ap (xor_at 0 (delta_key p s))
        (mask_delta_step s ss d ∙ mask_delta-xor_at ss (delta_key p s) d)
      ∙ xor_at_twice 0 (delta_key p s) (mask_delta p ss d)

  pub length-mask_delta :
      (ss : List SharedSecret) (d : List ℕ) → length (mask_delta p ss d) ≡ length d
  unfolding mask_delta
  length-mask_delta [] d = refl
  length-mask_delta (s ∷ ss) d =
      ap length (mask_delta_step s ss d)
      ∙ length-mask_delta ss (xor_at 0 (delta_key p s) d)
      ∙ length-xor_at 0 (delta_key p s) d

  -- The packet for the hop with the secret `s`, behind it the hops of `ss` with the entries `es`.
  abbrev pub layered :
      KemHeader → SharedSecret → List SharedSecret → List Routing → List ℕ → List ℕ → Regions
  layered h s ss es t d = record {
    alpha = header_bytes h;
    beta = onion p (s ∷ ss) es t;
    gamma = compute_mac p s (onion p (s ∷ ss) es t);
    delta = mask_delta p (s ∷ ss) d;
  }

  pub layered-IsSized :
      (h : KemHeader) (s : SharedSecret) (ss : List SharedSecret) (es : List Routing) (t d : List ℕ)
      → length h.x25519_point ≡ 32
      → length h.mlkem_ct ≡ 1088
      → length ss ≡ length es
      → AllSized es
      → length es * routing_slot_len + length t ≡ beta_len
      → length d ≡ delta_len
      → IsSized (layered h s ss es t d)
  layered-IsSized h s ss es t d px pc c v lt ld =
      let m = gammas_of-Macs p (s ∷ ss) es t (omega (arith, c)) in
      let lm = length-masked p (s ∷ ss) es (gammas_of p (s ∷ ss) es t) t (omega (arith, c)) v m in
      record {
        alpha_sized = omega (arith, length-append h.x25519_point h.mlkem_ct, px, pc);
        beta_sized = lm ∙ lt;
        gamma_sized = length-compute_mac p s (onion p (s ∷ ss) es t);
        delta_sized = length-mask_delta (s ∷ ss) d ∙ ld;
      }

  module _ (s s' : SharedSecret) (ss : List SharedSecret) (e : Routing) (es : List Routing)
      (t : List ℕ) (ve : IsSizedEntry e) where
    -- The tail of the random bytes with the pad of this hop.
    abbrev pub padded : List ℕ
    padded = t ++ peel_pad p s routing_slot_len

    abbrev mac : List ℕ
    mac = compute_mac p s' (onion p (s' ∷ ss) es padded)

    abbrev behind : List ℕ
    behind = masked p (s' ∷ ss) es (gammas_of p (s' ∷ ss) es padded) t

    abbrev hd : List ℕ
    hd = header_bytes e.header

    abbrev beta : List ℕ
    beta = onion p (s ∷ s' ∷ ss) (e ∷ es) t

    lh : length hd ≡ kem_header_len
    lh =
        omega (
          arith,
          length-append e.header.x25519_point e.header.mlkem_ct,
          ve.point_sized,
          ve.ct_sized,
        )

    ls : length (slot e mac) ≡ routing_slot_len
    ls = length-slot e mac ve (length-compute_mac p s' (onion p (s' ∷ ss) es padded))

    opened : unmasked p s beta ≡ e.id ++ (hd ++ (mac ++ behind))
    unfolding unmasked gammas_of slot
    opened =
        xor_at-append_left (xor_at 0 (slot_key p s) (slot e mac)) behind 0 (slot_key p s)
          (omega (arith, ls, length-xor_at 0 (slot_key p s) (slot e mac), length-slot_key p s))
        ∙ ap (λ l. l ++ behind) (xor_at_twice 0 (slot_key p s) (slot e mac))
        ∙ append_assoc e.id (hd ++ mac) behind
        ∙ ap (λ l. e.id ++ l) (append_assoc hd mac behind)

    -- The next hop reads its identity in the slot.
    pub next_hop_of-onion : next_hop_of p s beta ≡ e.id
    unfolding next_hop_of
    next_hop_of-onion =
        ap (λ l. slice l 0 32) opened
        ∙ slice-append_left e.id (hd ++ (mac ++ behind)) 0 32 (omega (arith, ve.id_sized))
        ∙ slice_all e.id 32 ve.id_sized

    next_alpha : slice (unmasked p s beta) 32 kem_header_len ≡ hd
    next_alpha =
        ap (λ l. slice l 32 kem_header_len) opened
        ∙ slice-append_right e.id (hd ++ (mac ++ behind)) 32 0 kem_header_len
            (omega (arith, ve.id_sized))
        ∙ slice-append_left hd (mac ++ behind) 0 kem_header_len (omega (arith, lh))
        ∙ slice_all hd kem_header_len lh

    next_gamma : slice (unmasked p s beta) (32 + kem_header_len) gamma_len ≡ mac
    next_gamma =
        let lm = length-compute_mac p s' (onion p (s' ∷ ss) es padded) in
        ap (λ l. slice l (32 + kem_header_len) gamma_len) opened
        ∙ slice-append_right e.id (hd ++ (mac ++ behind)) (32 + kem_header_len) kem_header_len
            gamma_len (omega (arith, ve.id_sized))
        ∙ slice-append_right hd (mac ++ behind) kem_header_len 0 gamma_len (omega (arith, lh))
        ∙ slice-append_left mac behind 0 gamma_len (omega (arith, lm))
        ∙ slice_all mac gamma_len lm

    next_beta : shifted p s beta ≡ onion p (s' ∷ ss) es padded
    unfolding gammas_of
    next_beta = shifted-masked p s (s' ∷ ss) e es mac (gammas_of p (s' ∷ ss) es padded) t ls

    -- One peel of a packet in layers is the packet in layers for the next hop.
    pub peeled-layered :
        (h : KemHeader) (d : List ℕ)
        → peeled p s (layered h s (s' ∷ ss) (e ∷ es) t d) ≡ layered e.header s' ss es padded d
    unfolding peeled
    peeled-layered h d =
        let make : List ℕ → List ℕ → List ℕ → List ℕ → Regions =
          λ a b g x. record { alpha = a; beta = b; gamma = g; delta = x } in
        let b0 = shifted p s beta in
        let g0 = slice (unmasked p s beta) (32 + kem_header_len) gamma_len in
        let d0 = xor_at 0 (delta_key p s) (mask_delta p (s ∷ s' ∷ ss) d) in
        ap (λ a. make a b0 g0 d0) next_alpha
        ∙ ap (λ b. make hd b g0 d0) next_beta
        ∙ ap (λ g. make hd (onion p (s' ∷ ss) es padded) g d0) next_gamma
        ∙ ap (make hd (onion p (s' ∷ ss) es padded) mac) (unmask_delta s (s' ∷ ss) d)
