-- ===== src/Sphinx/Build/Delivery.antt =====
-- From `build` through `process` at every hop.
use anonymous.Common.Slices.{slice, slice-append_right, slice-append_left, slice_all}
use anonymous.Common.Results.{ok}
use anonymous.Common.Xor.{xor_at}
use anonymous.Common.{
  ℕ, suc, ◌+◌, ◌*◌, ◌≤◌, ◌≡◌, refl, sym, ap, ◌∙◌, List, [], ◌∷◌, ◌++◌, map, arith, length,
  length-append,
}
use anonymous.Kem.{Primitives, KemHeader, SharedSecret, RelayKemSecret, public_of, decapsulate}
use anonymous.Replay.{CtEq, ReplayCache}
use anonymous.Replay.Window.{Holds}
use anonymous.Sphinx.{
  routing_slot_len, beta_len, gamma_len, delta_len, off_delta, SphinxPacket, forward, peel_pad,
  process,
}
use anonymous.Sphinx.Regions.{Regions, IsSized, packet_of, length-peel_pad}
use anonymous.Sphinx.Peel.{delta_key, peeled, next_hop_of, peeled-IsSized}
use anonymous.Sphinx.Accept.{process_accepts}
use anonymous.Sphinx.Build.{Routing, PathHop, mask_delta, routing_of}
use anonymous.Sphinx.Build.Slots.{IsSizedEntry, AllSized}
use anonymous.Sphinx.Build.Layers.{
  layered, layered-IsSized, padded, next_hop_of-onion, peeled-layered, unmask_delta,
}

delta_of_packet :
    (r : Regions) (n : ℕ)
    → IsSized r
    → n ≤ delta_len
    → slice (packet_of r) off_delta n ≡ slice r.delta 0 n
unfolding packet_of
delta_of_packet r n v h =
    slice-append_right r.alpha (r.beta ++ (r.gamma ++ r.delta)) off_delta (beta_len + gamma_len) n
      (omega (arith, v.alpha_sized))
    ∙ slice-append_right r.beta (r.gamma ++ r.delta) (beta_len + gamma_len) gamma_len n
        (omega (arith, v.beta_sized))
    ∙ slice-append_right r.gamma r.delta gamma_len 0 n (omega (arith, v.gamma_sized))

module _ (p : Primitives) where
  -- A relay on the path: its identity and its long-term keys.
  pub record Relay : Type 0 where
    pub id : List ℕ
    pub keys : RelayKemSecret p

  abbrev pub hop_of : Relay → PathHop p
  hop_of r = record { id = r.id; pk = public_of p r.keys }

  abbrev pub SizedIds : List Relay → Type 0
  SizedIds [] = Unit {0}
  SizedIds (r ∷ rs) = (length r.id ≡ 32) × SizedIds rs

  -- Header and secret of each relay match its keys.
  abbrev pub Keyed : List Relay → List KemHeader → List SharedSecret → Type 0
  Keyed [] [] [] = Unit {0}
  Keyed (r ∷ rs) (h ∷ hs) (s ∷ ss) =
      (decapsulate p r.keys h ≡ ok s)
      × (length h.x25519_point ≡ 32)
      × (length h.mlkem_ct ≡ 1088)
      × Keyed rs hs ss
  Keyed _ _ _ = ⊥

  pub routing_of-AllSized :
      (rs : List Relay) (hs : List KemHeader) (ss : List SharedSecret)
      → SizedIds rs
      → Keyed rs hs ss
      → AllSized (routing_of p (map hop_of rs) hs)
        × (length (routing_of p (map hop_of rs) hs) ≡ length rs)
        × (length ss ≡ length rs)
  unfolding routing_of
  routing_of-AllSized [] [] [] v k = (tt, refl, refl)
  routing_of-AllSized [] [] (s ∷ ss) v k = absurd k
  routing_of-AllSized [] (h ∷ hs) ss v k = absurd k
  routing_of-AllSized (r ∷ rs) [] ss v k = absurd k
  routing_of-AllSized (r ∷ rs) (h ∷ hs) [] v k = absurd k
  routing_of-AllSized (r ∷ rs) (h ∷ hs) (s ∷ ss) (vi, v) (d, px, pc, k) =
      let (sized, le, ls) = routing_of-AllSized rs hs ss v k in
      ((record { id_sized = vi; point_sized = px; ct_sized = pc }, sized), ap suc le, ap suc ls)

  module _ (subtle : CtEq) {F : Type 0} (fill_threshold : ℕ → F → ℕ) (c : ReplayCache F) where
    -- Each relay forwards to the next, and behind the last mask lies the payload.
    unfoldable pub Delivers : List Relay → List ℕ → SphinxPacket → Type 0
    Delivers [] payload packet = ⊥
    Delivers (r ∷ []) payload packet =
        (next_hop : List ℕ) × (last : SphinxPacket) × ((process p subtle fill_threshold packet
            r.keys c).0
          ≡ ok (forward next_hop last))
        × (slice last off_delta (length payload) ≡ payload)
    Delivers (r ∷ r' ∷ rs) payload packet =
        (next : SphinxPacket) × ((process p subtle fill_threshold packet r.keys c).0
          ≡ ok (forward r'.id next))
        × Delivers (r' ∷ rs) payload next

    -- A relay that gets the packet for its hop peels it.
    layered_step :
        (r : Relay) (rs : List Relay) (h : KemHeader) (hs : List KemHeader) (s : SharedSecret)
        (ss : List SharedSecret) (t d : List ℕ)
        → Holds c []
        → SizedIds rs
        → Keyed (r ∷ rs) (h ∷ hs) (s ∷ ss)
        → length rs * routing_slot_len + length t ≡ beta_len
        → length d ≡ delta_len
        → let q = layered p h s ss (routing_of p (map hop_of rs) hs) t d in
          IsSized q
          × ((process p subtle fill_threshold (packet_of q) r.keys c).0
              ≡ ok (forward (next_hop_of p s q.beta) (packet_of (peeled p s q))))
    layered_step r rs h hs s ss t d fresh v (dec, px, pc, k) lt ld =
        let es = routing_of p (map hop_of rs) hs in
        let (sized, le, ls) = routing_of-AllSized rs hs ss v k in
        let q = layered p h s ss es t d in
        let vq : IsSized q =
          layered-IsSized p h s ss es t d px pc (ls ∙ sym le) sized (omega (arith, lt, le)) ld in
        (vq, process_accepts p subtle fill_threshold q h r.keys s c vq refl px pc dec refl fresh)

    -- Behind the last mask lies the payload.
    last_payload :
        (q : Regions) (s : SharedSecret) (d payload fill : List ℕ)
        → IsSized q
        → q.delta ≡ mask_delta p (s ∷ []) d
        → d ≡ payload ++ fill
        → length d ≡ delta_len
        → slice (packet_of (peeled p s q)) off_delta (length payload) ≡ payload
    unfolding peeled mask_delta
    last_payload q s d payload fill v eq ed ld =
        let n = length payload in
        let len : length (payload ++ fill) ≡ delta_len = ap length (sym ed) ∙ ld in
        delta_of_packet (peeled p s q) n (peeled-IsSized p s q v)
          (omega (arith, len, length-append payload fill))
        ∙ ap (λ l. slice (xor_at 0 (delta_key p s) l) 0 n) eq
        ∙ ap (λ l. slice l 0 n) (unmask_delta p s [] d ∙ ed)
        ∙ slice-append_left payload fill 0 n (omega arith)
        ∙ slice_all payload n refl

    pub layered-Delivers :
        (r : Relay) (rs : List Relay) (h : KemHeader) (hs : List KemHeader) (s : SharedSecret)
        (ss : List SharedSecret) (t payload fill : List ℕ)
        → Holds c []
        → SizedIds rs
        → Keyed (r ∷ rs) (h ∷ hs) (s ∷ ss)
        → length rs * routing_slot_len + length t ≡ beta_len
        → length (payload ++ fill) ≡ delta_len
        → Delivers
            (r ∷ rs)
            payload
            (packet_of (layered p h s ss (routing_of p (map hop_of rs) hs) t (payload ++ fill)))
    unfolding Delivers routing_of
    layered-Delivers r [] h [] s [] t payload fill fresh v k lt ld =
        let d = payload ++ fill in
        let q = layered p h s [] [] t d in
        let (vq, accepted) = layered_step r [] h [] s [] t d fresh v k lt ld in
        (
          next_hop_of p s q.beta,
          packet_of (peeled p s q),
          accepted,
          last_payload q s d payload fill vq refl refl ld,
        )
    layered-Delivers r [] h (h' ∷ hs) s ss t payload fill fresh v (dec, px, pc, k) lt ld = absurd k
    layered-Delivers r [] h [] s (s' ∷ ss) t payload fill fresh v (dec, px, pc, k) lt ld = absurd k
    layered-Delivers r (r' ∷ rs) h [] s ss t payload fill fresh v (dec, px, pc, k) lt ld = absurd k
    layered-Delivers r (r' ∷ rs) h (h' ∷ hs) s [] t payload fill fresh v (dec, px, pc, k) lt ld =
        absurd k
    layered-Delivers r (r' ∷ rs) h (h' ∷ hs) s (s' ∷ ss) t payload fill fresh (vi, v)
          (dec, px, pc, (dec', px', pc', k)) lt ld =
        let d = payload ++ fill in
        let es = routing_of p (map hop_of rs) hs in
        let e : Routing = record { id = r'.id; header = h' } in
        let ve : IsSizedEntry e = record { id_sized = vi; point_sized = px'; ct_sized = pc' } in
        let t' = padded p s s' ss e es t ve in
        let q = layered p h s (s' ∷ ss) (e ∷ es) t d in
        let accepted =
          (layered_step r (r' ∷ rs) h (h' ∷ hs) s (s' ∷ ss) t d fresh (vi, v)
            (dec, px, pc, (dec', px', pc', k)) lt ld).1 in
        let lt' : length rs * routing_slot_len + length t' ≡ beta_len = omega (
          arith,
          lt,
          length-append t (peel_pad p s routing_slot_len),
          length-peel_pad p s routing_slot_len,
        ) in
        (
          packet_of (layered p h' s' ss es t' d),
          accepted
              ∙ ap (λ n. ok (forward n (packet_of (peeled p s q))))
                  (next_hop_of-onion p s s' ss e es t ve)
              ∙ ap (λ g. ok (forward r'.id (packet_of g))) (peeled-layered p s s' ss e es t ve h d),
          layered-Delivers r' rs h' hs s' ss t' payload fill fresh v (dec', px', pc', k) lt' ld,
        )
