-- ===== src/Sphinx/Build/EndToEnd.antt =====
-- The result of `build` in terms of the packet in layers for the first hop.
use anonymous.Common.Slices.{splice, splice_front, splice_next, splice_pair, drop_all}
use anonymous.Common.Results.{Result, ok, Result-cases}
use mathlib.Core.Path.{subst}
use mathlib.Core.List.{append_assoc, append-nil}
use anonymous.Common.{
  ℕ, suc, ◌+◌, ◌*◌, ◌≤◌, ◌<◌, ◌≡◌, refl, sym, ap, ◌∙◌, inl, inr, ◌||◌, List, [], ◌∷◌, ◌++◌, map,
  arith, length, drop, replicate, length-append, length-drop, length-replicate, ltb, Bool-cases,
}
use anonymous.Kem.{
  Primitives, CryptoError, KemHeader, SharedSecret, kem_header_len, write_to, public_of,
  encapsulate,
}
use anonymous.Kem.Agreement.{decapsulate-encapsulate, encapsulate_lengths}
use anonymous.Replay.{CtEq, ReplayCache}
use anonymous.Replay.Window.{Holds}
use anonymous.Sphinx.{
  max_hops, routing_slot_len, beta_len, gamma_len, delta_len, off_beta, off_gamma, off_delta,
  sphinx_packet_len, SphinxPacket, compute_mac,
}
use anonymous.Sphinx.Regions.{length-packet_of, packet_of, header_bytes}
use anonymous.Sphinx.Build.{
  PathHop, Draws, encapsulate_all, mask_delta, build_delta, build_beta, assemble, routing_of,
  build_from, build,
}
use anonymous.Sphinx.Build.Macs.{length-compute_mac}
use anonymous.Sphinx.Build.Onion.{onion, build_beta-onion}
use anonymous.Sphinx.Build.Layers.{layered, layered-IsSized, length-mask_delta}
use anonymous.Sphinx.Build.Delivery.{
  Relay, hop_of, SizedIds, Keyed, routing_of-AllSized, Delivers, layered-Delivers,
}

ok_injective : {A : Type 0} (x y : A) → ◌≡◌ {A = Result CryptoError A} (ok x) (ok y) → x ≡ y
ok_injective x y h = ground (arith, h)

pub length-map_hops :
    (p : Primitives) (rs : List (Relay p)) → length (map (hop_of p) rs) ≡ length rs
length-map_hops p [] = refl
length-map_hops p (r ∷ rs) = ap suc (length-map_hops p rs)

module _ (p : Primitives) where
  -- The four regions in their places.
  assemble-packet_of :
      (h : KemHeader) (beta gamma delta : List ℕ)
      → length h.x25519_point ≡ 32
      → length h.mlkem_ct ≡ 1088
      → length beta ≡ beta_len
      → length gamma ≡ gamma_len
      → length delta ≡ delta_len
      → assemble p h beta gamma delta
        ≡ packet_of (record { alpha = header_bytes h; beta = beta; gamma = gamma; delta = delta })
  unfolding assemble write_to packet_of
  assemble-packet_of h beta gamma delta px pc lb lg ld =
      let pt = h.x25519_point in
      let ct = h.mlkem_ct in
      let hb = pt ++ ct in
      let z : List ℕ = replicate sphinx_packet_len 0 in
      let z1 = drop 1088 (drop 32 z) in
      let z2 = drop beta_len z1 in
      let z3 = drop gamma_len z2 in
      let lz : length z ≡ sphinx_packet_len = length-replicate {A = ℕ} sphinx_packet_len 0 in
      let lh : length hb ≡ kem_header_len = omega (arith, length-append pt ct, px, pc) in
      let l3 : length z3 ≡ delta_len = omega (
        arith,
        lz,
        length-drop 32 z,
        length-drop 1088 (drop 32 z),
        length-drop beta_len z1,
        length-drop gamma_len z2,
      ) in
      let write_beta : List ℕ → List ℕ = λ l. splice l off_beta beta in
      let write_gamma : List ℕ → List ℕ = λ l. splice l off_gamma gamma in
      let write_delta : List ℕ → List ℕ = λ l. splice l off_delta delta in
      ap (λ l. write_delta (write_gamma (write_beta (splice l 32 ct)))) (splice_front z pt 32 px)
      ∙ ap (λ l. write_delta (write_gamma (write_beta l)))
          (splice_next pt (drop 32 z) ct 32 1088 px pc ∙ sym (append_assoc pt ct z1))
      ∙ ap (λ l. write_delta (write_gamma l))
          (splice_next hb z1 beta off_beta beta_len lh lb ∙ sym (append_assoc hb beta z2))
      ∙ ap write_delta (
          splice_next (hb ++ beta) z2 gamma off_gamma gamma_len
            (omega (arith, length-append hb beta, lh, lb)) lg
          ∙ sym (append_assoc (hb ++ beta) gamma z3))
      ∙ splice_next ((hb ++ beta) ++ gamma) z3 delta off_delta delta_len
          (omega (arith, length-append (hb ++ beta) gamma, length-append hb beta, lh, lb, lg)) ld
      ∙ ap (λ l. ((hb ++ beta) ++ gamma) ++ (delta ++ l))
          (drop_all delta_len z3 (omega (arith, l3)))
      ∙ ap (λ l. ((hb ++ beta) ++ gamma) ++ l) (append-nil delta)
      ∙ append_assoc (hb ++ beta) gamma delta
      ∙ append_assoc hb beta (gamma ++ delta)

  build_delta_lem :
      (ss : List SharedSecret) (payload fill : List ℕ)
      → length payload + length fill ≡ delta_len
      → build_delta p ss payload fill ≡ mask_delta p ss (payload ++ fill)
  unfolding build_delta
  build_delta_lem ss payload fill h = ap (mask_delta p ss) (
      splice_pair (replicate delta_len 0) (length payload) payload fill refl
        (omega (arith, h, length-replicate {A = ℕ} delta_len 0)))

  -- Header and secret of each hop come from one encapsulation to its public key.
  encapsulate_all-Keyed :
      (draws : Draws p) (rs : List (Relay p)) (i : ℕ) (hs : List KemHeader) (ss : List SharedSecret)
      → encapsulate_all p draws i (map (hop_of p) rs) ≡ ok (hs, ss)
      → Keyed p rs hs ss
  unfolding encapsulate_all
  encapsulate_all-Keyed draws [] i [] [] e = tt
  encapsulate_all-Keyed draws [] i [] (s ∷ ss) e = absurd (ground (arith, e))
  encapsulate_all-Keyed draws [] i (h ∷ hs) ss e = absurd (ground (arith, e))
  encapsulate_all-Keyed draws (r ∷ rs) i hs ss e =
      elim (Result-cases (encapsulate p (public_of p r.keys) (draws.ephemeral i) (draws.coins i))) [
        | inl (x, f) ↦ absurd (ground (arith, e, f))
        | inr ((h, s), f) ↦
            elim (Result-cases (encapsulate_all p draws (i + 1) (map (hop_of p) rs))) [
              | inl (x, g) ↦ absurd (ground (arith, e, f, g))
              | inr ((hs', ss'), g) ↦
                  let (px, pc, _) =
                    encapsulate_lengths p (public_of p r.keys) (draws.ephemeral i) (draws.coins i) h
                      s f in
                  let eh : h ∷ hs' ≡ hs = ground (arith, e, f, g) in
                  let es : s ∷ ss' ≡ ss = ground (arith, e, f, g) in
                  rw (sym eh) (
                    rw (sym es) (
                      decapsulate-encapsulate p r.keys (draws.ephemeral i) (draws.coins i) h s f,
                      px,
                      pc,
                      encapsulate_all-Keyed draws rs (i + 1) hs' ss' g,
                    ))
            ]
      ]

  -- With the guards passed, `build` returns the packet in layers.
  build_from-layered :
      (draws : Draws p) (r : Relay p) (rs : List (Relay p)) (payload : List ℕ) (h : KemHeader)
      (hs : List KemHeader) (s : SharedSecret) (ss : List SharedSecret)
      → SizedIds p rs
      → Keyed p (r ∷ rs) (h ∷ hs) (s ∷ ss)
      → length rs < max_hops
      → length draws.beta_fill ≡ beta_len
      → length payload + length draws.delta_fill ≡ delta_len
      → build_from p draws (map (hop_of p) (r ∷ rs)) payload (h ∷ hs, s ∷ ss)
        ≡ ok (
            packet_of (
              layered p h s ss
                (routing_of p (map (hop_of p) rs) hs)
                (drop (length rs * routing_slot_len) draws.beta_fill)
                (payload ++ draws.delta_fill)))
  unfolding build_from
  build_from-layered draws r rs payload h hs s ss v (dec, px, pc, k) few lb ld =
      let es = routing_of p (map (hop_of p) rs) hs in
      let (sized, le, ls) = routing_of-AllSized p rs hs ss v k in
      let t = drop (length rs * routing_slot_len) draws.beta_fill in
      let delta = mask_delta p (s ∷ ss) (payload ++ draws.delta_fill) in
      let count : length (map (hop_of p) rs) ≡ length es = length-map_hops p rs ∙ sym le in
      let made : build_beta p (length (map (hop_of p) rs)) es (s ∷ ss) draws.beta_fill
          ≡ onion p (s ∷ ss) es t =
        ap (λ n. build_beta p n es (s ∷ ss) draws.beta_fill) count
        ∙ build_beta-onion p (s ∷ ss) es draws.beta_fill (ap suc (ls ∙ sym le)) sized lb
            (omega (arith, few, le))
        ∙ ap (λ n. onion p (s ∷ ss) es (drop (n * routing_slot_len) draws.beta_fill)) le in
      let whole : List ℕ → List ℕ → SphinxPacket = λ b d. assemble p h b (compute_mac p s b) d in
      ap (λ b. ok (whole b (build_delta p (s ∷ ss) payload draws.delta_fill))) made
      ∙ ap (λ d. ok (whole (onion p (s ∷ ss) es t) d))
          (build_delta_lem (s ∷ ss) payload draws.delta_fill ld)
      ∙ ap ok (
          assemble-packet_of h (onion p (s ∷ ss) es t) (compute_mac p s (onion p (s ∷ ss) es t))
            delta px pc
            (layered-IsSized p h s ss es t (payload ++ draws.delta_fill) px pc (ls ∙ sym le) sized
              (omega
                (arith, few, lb, le, length-drop (length rs * routing_slot_len) draws.beta_fill))
              (omega (arith, length-append payload draws.delta_fill, ld))).beta_sized
            (length-compute_mac p s (onion p (s ∷ ss) es t))
            (omega (
              arith,
              length-mask_delta p (s ∷ ss) (payload ++ draws.delta_fill),
              length-append payload draws.delta_fill,
              ld,
            )))

  -- `build` succeeds only on 2 to 6 hops.
  build_passes :
      (draws : Draws p) (path : List (PathHop p)) (payload : List ℕ) (packet : SphinxPacket)
      → build p draws path payload ≡ ok packet
      → (1 < length path)
        × (length path ≤ max_hops)
        × (keys : List KemHeader × List SharedSecret) × (encapsulate_all p draws 0 path ≡ ok keys)
        × (build_from p draws path payload keys ≡ ok packet)
  unfolding build
  build_passes draws path payload packet h =
      let guard = ltb (length path) 2 || ltb max_hops (length path) in
      elim (Bool-cases guard) [
        | inl bad ↦ absurd (ground (arith, h, bad))
        | inr good ↦ elim (Bool-cases (ltb delta_len (length payload))) [
          | inl long ↦ absurd (ground (arith, h, good, long))
          | inr short ↦ elim (Result-cases (encapsulate_all p draws 0 path)) [
            | inl (x, f) ↦ absurd (ground (arith, h, good, short, f))
            | inr (keys, f) ↦ (
              ground (arith, good),
              ground (arith, good),
              keys,
              f,
              ground (arith, h, good, short, f),
            )
          ]
        ]
      ]

  deliver :
      (subtle : CtEq) {F : Type 0} (fill_threshold : ℕ → F → ℕ) (c : ReplayCache F)
      (draws : Draws p) (rs : List (Relay p)) (payload : List ℕ) (packet : SphinxPacket)
      (hs : List KemHeader) (ss : List SharedSecret)
      → Holds c []
      → SizedIds p rs
      → length draws.beta_fill ≡ beta_len
      → length payload + length draws.delta_fill ≡ delta_len
      → length rs ≤ max_hops
      → 1 < length rs
      → Keyed p rs hs ss
      → build_from p draws (map (hop_of p) rs) payload (hs, ss) ≡ ok packet
      → (length packet ≡ sphinx_packet_len) × Delivers p subtle fill_threshold c rs payload packet
  deliver subtle ft c draws [] payload packet hs ss fresh v lb ld few more k b =
      absurd (omega arith)
  deliver subtle ft c draws (r ∷ rs) payload packet [] ss fresh v lb ld few more k b = absurd k
  deliver subtle ft c draws (r ∷ rs) payload packet (h ∷ hs) [] fresh v lb ld few more k b =
      absurd k
  deliver subtle ft c draws (r ∷ rs) payload packet (h ∷ hs) (s ∷ ss) fresh (vi, v) lb ld few more
        (dec, px, pc, k) b =
      let t = drop (length rs * routing_slot_len) draws.beta_fill in
      let q =
        layered p h s ss (routing_of p (map (hop_of p) rs) hs) t (payload ++ draws.delta_fill) in
      let same : packet_of q ≡ packet = ok_injective (packet_of q) packet (
        sym (
          build_from-layered draws r rs payload h hs s ss v (dec, px, pc, k) (omega (arith, few)) lb
            ld)
        ∙ b) in
      let (sized, le, ls) = routing_of-AllSized p rs hs ss v k in
      let room = length-drop (length rs * routing_slot_len) draws.beta_fill in
      let ld' = length-append payload draws.delta_fill in
      let vq =
        layered-IsSized p h s ss (routing_of p (map (hop_of p) rs) hs) t
          (payload ++ draws.delta_fill) px pc (ls ∙ sym le) sized (omega (arith, few, lb, le, room))
          (omega (arith, ld', ld)) in
      (
        ap length (sym same) ∙ length-packet_of q vq,
        subst (Delivers p subtle ft c (r ∷ rs) payload) same (
            layered-Delivers p subtle ft c r rs h hs s ss t payload draws.delta_fill fresh v
              (dec, px, pc, k) (omega (arith, few, lb, room)) (omega (arith, ld, ld'))),
      )

  -- A packet that `build` returns for relays with identities of full length, where the random draws
  -- fill `beta` and what the payload leaves of `delta`, is delivered: each relay, on a cache that
  -- holds no tag, accepts it and forwards it to the next one by its identity, and in what the last
  -- relay peels `delta` begins with the payload.
  pub build-Delivers :
      (subtle : CtEq) {F : Type 0} (fill_threshold : ℕ → F → ℕ) (c : ReplayCache F)
      (draws : Draws p) (rs : List (Relay p)) (payload : List ℕ) (packet : SphinxPacket)
      → Holds c []
      → SizedIds p rs
      → length draws.beta_fill ≡ beta_len
      → length payload + length draws.delta_fill ≡ delta_len
      → build p draws (map (hop_of p) rs) payload ≡ ok packet
      → Delivers p subtle fill_threshold c rs payload packet
  unfolding build
  build-Delivers subtle fill_threshold c draws rs payload packet fresh v lb ld built =
      let (more, few, (hs, ss), keys, sealed) =
        build_passes draws (map (hop_of p) rs) payload packet built in
      (deliver subtle fill_threshold c draws rs payload packet hs ss fresh v lb ld
        (omega (arith, few, length-map_hops p rs)) (omega (arith, more, length-map_hops p rs))
        (encapsulate_all-Keyed draws rs 0 hs ss keys) sealed).1

  -- Every packet that is built has the one length of all packets.
  pub length-build :
      (subtle : CtEq) {F : Type 0} (fill_threshold : ℕ → F → ℕ) (c : ReplayCache F)
      (draws : Draws p) (rs : List (Relay p)) (payload : List ℕ) (packet : SphinxPacket)
      → Holds c []
      → SizedIds p rs
      → length draws.beta_fill ≡ beta_len
      → length payload + length draws.delta_fill ≡ delta_len
      → build p draws (map (hop_of p) rs) payload ≡ ok packet
      → length packet ≡ sphinx_packet_len
  unfolding build
  length-build subtle fill_threshold c draws rs payload packet fresh v lb ld built =
      let (more, few, (hs, ss), keys, sealed) =
        build_passes draws (map (hop_of p) rs) payload packet built in
      (deliver subtle fill_threshold c draws rs payload packet hs ss fresh v lb ld
        (omega (arith, few, length-map_hops p rs)) (omega (arith, more, length-map_hops p rs))
        (encapsulate_all-Keyed draws rs 0 hs ss keys) sealed).0
