-- ===== src/Sphinx/Build/Macs.antt =====
-- The MACs of the hops: `mac_after_peels` looks at `beta` as the hop itself will see it.
use anonymous.Common.Slices.{slice, splice, splice_pair}
use anonymous.Common.Xor.{xor_at, length-xor_at, drop-xor_at}
use anonymous.Common.{
  ℕ, zero, suc, ◌+◌, ◌-◌, ◌*◌, ◌<◌, ◌≡◌, sym, ap, ◌∙◌, List, [], ◌∷◌, ◌++◌, arith, length, take,
  drop, length-append, length-drop, take_all, drop_of_append,
}
use anonymous.Kem.{Primitives, SharedSecret}
use anonymous.Sphinx.{
  routing_slot_len, beta_len, gamma_len, stream_beta, stream_xor_range, peel_pad, compute_mac,
  mac_domain,
}
use anonymous.Sphinx.Stream.{stream_xor_range_lem}
use anonymous.Sphinx.Regions.{length-peel_pad}
use anonymous.Sphinx.Peel.{slot_key, length-slot_key, shifted}
use anonymous.Sphinx.Build.{Routing, peel_work, mac_after_peels}
use anonymous.Sphinx.Build.Slots.{IsSizedEntry, AllSized, Macs, slot, length-slot}
use anonymous.Sphinx.Build.Masked.{masked, length-masked, masked-append}

module _ (p : Primitives) where
  -- One round of the loop is what a peel does to `beta`.
  pub peel_work-shifted :
      (s : SharedSecret) (work : List ℕ)
      → length work ≡ beta_len
      → peel_work p s work ≡ shifted p s work
  unfolding peel_work shifted slot_key slice
  peel_work-shifted s work e =
      let x = xor_at 0 (slot_key p s) work in
      let pad = peel_pad p s routing_slot_len in
      let tail = drop routing_slot_len work in
      let mask : stream_xor_range p work 0 routing_slot_len s stream_beta ≡ x =
        stream_xor_range_lem p stream_beta s work 0 routing_slot_len in
      let lt : length tail ≡ beta_len - routing_slot_len =
        omega (arith, e, length-drop routing_slot_len work) in
      let moved : take (beta_len - routing_slot_len) (drop routing_slot_len x) ≡ tail =
        ap (take (beta_len - routing_slot_len))
          (drop-xor_at routing_slot_len 0 (slot_key p s) work (omega (arith, length-slot_key p s)))
        ∙ take_all (beta_len - routing_slot_len) tail (omega (arith, lt)) in
      ap
        (λ l.
          splice (splice l 0 (take (beta_len - routing_slot_len) (drop routing_slot_len l)))
            (beta_len - routing_slot_len) pad)
        mask
      ∙ ap (λ l. splice (splice x 0 l) (beta_len - routing_slot_len) pad) moved
      ∙ splice_pair x (beta_len - routing_slot_len) tail pad lt (
          omega
            (arith, e, length-peel_pad p s routing_slot_len, length-xor_at 0 (slot_key p s) work))

  -- A peel takes the first slot away and puts its pad behind the rest.
  pub shifted-masked :
      (s : SharedSecret) (ss : List SharedSecret) (e : Routing) (es : List Routing) (g : List ℕ)
      (gs : List (List ℕ)) (t : List ℕ)
      → length (slot e g) ≡ routing_slot_len
      → shifted p s (masked p (s ∷ ss) (e ∷ es) (g ∷ gs) t)
        ≡ masked p ss es gs (t ++ peel_pad p s routing_slot_len)
  unfolding shifted
  shifted-masked s ss e es g gs t h =
      ap (λ l. l ++ peel_pad p s routing_slot_len)
        (drop_of_append routing_slot_len (xor_at 0 (slot_key p s) (slot e g)) (masked p ss es gs t)
          (omega (arith, h, length-xor_at 0 (slot_key p s) (slot e g))))
      ∙ masked-append p ss es gs t (peel_pad p s routing_slot_len)

  -- The MACs as the hops see them: that of the next hop covers the `beta` that the next hop gets,
  -- which holds the MACs of the hops behind it.
  unfoldable pub gammas_of : List SharedSecret → List Routing → List ℕ → List (List ℕ)
  gammas_of (s ∷ s' ∷ ss) (e ∷ es) t =
      let t' = t ++ peel_pad p s routing_slot_len in
      let gs = gammas_of (s' ∷ ss) es t' in compute_mac p s' (masked p (s' ∷ ss) es gs t') ∷ gs
  gammas_of _ _ t = []

  pub length-compute_mac :
      (s : SharedSecret) (beta : List ℕ) → length (compute_mac p s beta) ≡ gamma_len
  unfolding compute_mac
  length-compute_mac s beta = p.length-sha3_256 (mac_domain ++ (s ++ beta))

  pub gammas_of-Macs :
      (ss : List SharedSecret) (es : List Routing) (t : List ℕ)
      → length ss ≡ suc (length es)
      → Macs es (gammas_of ss es t)
  unfolding gammas_of
  gammas_of-Macs [] es t h = absurd (omega arith)
  gammas_of-Macs (s ∷ []) [] t h = tt
  gammas_of-Macs (s ∷ []) (e ∷ es) t h = absurd (omega arith)
  gammas_of-Macs (s ∷ s' ∷ ss) [] t h = absurd (omega arith)
  gammas_of-Macs (s ∷ s' ∷ ss) (e ∷ es) t h = (
    length-compute_mac s' (
        masked p (s' ∷ ss) es (gammas_of (s' ∷ ss) es (t ++ peel_pad p s routing_slot_len))
          (t ++ peel_pad p s routing_slot_len)),
    gammas_of-Macs (s' ∷ ss) es (t ++ peel_pad p s routing_slot_len) (omega arith),
  )

  one_peel :
      (s : SharedSecret) (ss : List SharedSecret) (s' : SharedSecret) (e : Routing)
      (es : List Routing) (g : List ℕ) (gs : List (List ℕ)) (t : List ℕ) (i : ℕ)
      → length (s ∷ s' ∷ ss) ≡ suc (length (e ∷ es))
      → IsSizedEntry e
      → AllSized es
      → length g ≡ gamma_len
      → Macs es gs
      → length (e ∷ es) * routing_slot_len + length t ≡ beta_len
      → mac_after_peels p (masked p (s ∷ s' ∷ ss) (e ∷ es) (g ∷ gs) t) (s ∷ s' ∷ ss) (suc i)
        ≡ mac_after_peels p
            (masked p (s' ∷ ss) es gs (t ++ peel_pad p s routing_slot_len))
            (s' ∷ ss)
            i
  unfolding mac_after_peels
  one_peel s ss s' e es g gs t i h ve v lg m l =
      let work = masked p (s ∷ s' ∷ ss) (e ∷ es) (g ∷ gs) t in
      let lw : length work ≡ beta_len =
        length-masked p (s ∷ s' ∷ ss) (e ∷ es) (g ∷ gs) t (omega (arith, h)) (ve, v) (lg, m) ∙ l in
      ap (λ w. mac_after_peels p w (s' ∷ ss) i)
        (peel_work-shifted s work lw
          ∙ shifted-masked s (s' ∷ ss) e es g gs t (length-slot e g ve lg))

  -- The MAC that the loop computes for a hop is the one the hop will compute, once the slots
  -- behind it hold theirs.
  pub mac_after_peels_lem :
      (i : ℕ) (ss : List SharedSecret) (es : List Routing) (gs : List (List ℕ)) (t : List ℕ)
      → length ss ≡ suc (length es)
      → i < length es
      → AllSized es
      → Macs es gs
      → length es * routing_slot_len + length t ≡ beta_len
      → drop (suc i) gs ≡ drop (suc i) (gammas_of ss es t)
      → drop i (gammas_of ss es t)
        ≡ mac_after_peels p (masked p ss es gs t) ss (suc i) ∷ drop (suc i) (gammas_of ss es t)
  unfolding mac_after_peels gammas_of
  mac_after_peels_lem i [] es gs t h b v m l d = absurd (omega arith)
  mac_after_peels_lem i (s ∷ []) es gs t h b v m l d = absurd (omega arith)
  mac_after_peels_lem i (s ∷ s' ∷ ss) [] gs t h b v m l d = absurd (omega arith)
  mac_after_peels_lem i (s ∷ s' ∷ ss) (e ∷ es) [] t h b v m l d = absurd m
  mac_after_peels_lem zero (s ∷ s' ∷ ss) (e ∷ es) (g ∷ gs) t h b (ve, v) (lg, m) l d =
      let t' = t ++ peel_pad p s routing_slot_len in
      let gs' = gammas_of (s' ∷ ss) es t' in
      let first = one_peel s ss s' e es g gs t zero h ve v lg m l in
      ap (λ x. x ∷ gs')
        (sym (first ∙ ap (λ (x : List (List ℕ)). compute_mac p s' (masked p (s' ∷ ss) es x t')) d))
  mac_after_peels_lem (suc i) (s ∷ s' ∷ ss) (e ∷ es) (g ∷ gs) t h b (ve, v) (lg, m) l d =
      let t' = t ++ peel_pad p s routing_slot_len in
      let len : length es * routing_slot_len + length t' ≡ beta_len = omega (
        arith,
        l,
        length-append t (peel_pad p s routing_slot_len),
        length-peel_pad p s routing_slot_len,
      ) in
      let first = one_peel s ss s' e es g gs t (suc i) h ve v lg m l in
      mac_after_peels_lem i (s' ∷ ss) es gs t' (omega arith) (omega arith) v m len d
      ∙ ap (λ x. x ∷ drop (suc i) (gammas_of (s' ∷ ss) es t')) (sym first)
