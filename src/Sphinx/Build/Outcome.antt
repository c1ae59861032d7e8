-- ===== src/Sphinx/Build/Outcome.antt =====
-- What `build` (sphinx.rs) comes to, for every path and every payload.
use anonymous.Common.Results.{Result, ok, err}
use anonymous.Common.{
  ℕ, ◌+◌, ◌-◌, ◌≤◌, ◌<◌, ◌≡◌, ◌⊎◌, inl, inr, List, [], map, arith, length, ltb, Bool-cases,
}
use anonymous.Kem.{Primitives, CryptoError, malformed}
use anonymous.Kem.Agreement.{NeverRefuses}
use anonymous.Replay.{CtEq, ReplayCache}
use anonymous.Replay.Window.{Holds}
use anonymous.Sphinx.{max_hops, beta_len, delta_len, sphinx_packet_len, SphinxPacket}
use anonymous.Sphinx.Build.{Draws, build}
use anonymous.Sphinx.Build.Delivery.{Relay, hop_of, SizedIds, Delivers}
use anonymous.Sphinx.Build.EndToEnd.{build-Delivers, length-build, length-map_hops}
use anonymous.Sphinx.Build.Guards.{build_total}

module _ (p : Primitives) (subtle : CtEq) {F : Type 0} (fill_threshold : ℕ → F → ℕ)
    (c : ReplayCache F) where
  abbrev pub IsPath : List (Relay p) → Type 0
  IsPath rs = (1 < length rs) × (length rs ≤ max_hops)

  -- A packet of full length that is delivered, or the error of the first bound that is violated.
  abbrev pub Outcome : List (Relay p) → List ℕ → Result CryptoError SphinxPacket → Type 0
  Outcome rs payload result =
      (IsPath rs
        × (length payload ≤ delta_len)
        × ((packet : SphinxPacket) × (result ≡ ok packet)
            × (length packet ≡ sphinx_packet_len)
            × Delivers p subtle fill_threshold c rs payload packet))
      ⊎ ((((length rs ≤ 1) ⊎ (max_hops < length rs)) × (result ≡ err (malformed "path length")))
          ⊎ (IsPath rs
              × (delta_len < length payload)
              × (result ≡ err (malformed "payload too long"))))

  build_short :
      (draws : Draws p) (rs : List (Relay p)) (payload : List ℕ)
      → (length rs ≤ 1) ⊎ (max_hops < length rs)
      → build p draws (map (hop_of p) rs) payload ≡ err (malformed "path length")
  unfolding build
  build_short draws rs payload h = ground (arith, h, length-map_hops p rs)

  build_heavy :
      (draws : Draws p) (rs : List (Relay p)) (payload : List ℕ)
      → IsPath rs
      → delta_len < length payload
      → build p draws (map (hop_of p) rs) payload ≡ err (malformed "payload too long")
  unfolding build
  build_heavy draws rs payload (more, few) h = ground (arith, more, few, h, length-map_hops p rs)

  -- For relays with identities of full length, where the random draws fill `beta` and what the
  -- payload leaves of `delta` and no encapsulation is refused, `build` comes to one of three
  -- results. With 2 to 6 relays and at most 256 bytes of payload it gives a packet of the one
  -- length, which is delivered: each relay, on a cache that holds no tag, accepts it and forwards it
  -- to the next one, and what the last relay peels begins with the payload. Outside of these bounds
  -- it gives the error of the path's length, or, where the path is good, of the payload's.
  pub build-Outcome :
      (draws : Draws p) (rs : List (Relay p)) (payload : List ℕ)
      → NeverRefuses p
      → Holds c []
      → SizedIds p rs
      → length draws.beta_fill ≡ beta_len
      → length draws.delta_fill ≡ delta_len - length payload
      → Outcome rs payload (build p draws (map (hop_of p) rs) payload)
  build-Outcome draws rs payload n fresh sized lb ld =
      let same = length-map_hops p rs in
      elim (Bool-cases (ltb 1 (length rs))) [
        | inr short ↦
            let h : length rs ≤ 1 = ground (arith, short) in
            inr (inl (inl h, build_short draws rs payload (inl h)))
        | inl more ↦ elim (Bool-cases (ltb max_hops (length rs))) [
          | inl long ↦
              let h : max_hops < length rs = ground (arith, long) in
              inr (inl (inr h, build_short draws rs payload (inr h)))
          | inr few ↦
              let path : IsPath rs = (ground (arith, more), ground (arith, few)) in
              elim (Bool-cases (ltb delta_len (length payload))) [
                | inl heavy ↦
                    let h : delta_len < length payload = ground (arith, heavy) in
                    inr (inr (path, h, build_heavy draws rs payload path h))
                | inr light ↦
                    let h : length payload ≤ delta_len = ground (arith, light) in
                    let filled : length payload + length draws.delta_fill ≡ delta_len =
                      omega (arith, ld, h) in
                    let (packet, made) =
                      build_total p draws (map (hop_of p) rs) payload n
                        (omega (arith, same, path.0)) (omega (arith, same, path.1)) h in
                    inl (
                      path,
                      h,
                      (
                        packet,
                        made,
                        length-build p subtle fill_threshold c draws rs payload packet fresh sized
                            lb filled made,
                        build-Delivers p subtle fill_threshold c draws rs payload packet fresh sized
                            lb filled made,
                      ),
                    )
              ]
        ]
      ]
