-- ===== src/Sphinx/Process.antt =====
-- Processing one packet at a mix: the order of the checks, replays, and the shape of the result.
use anonymous.Common.Results.{Result, ok, err, ◌>>=◌, Result-cases}
use anonymous.Common.{
  ℕ, ◌≡◌, ◌⊎◌, ◌++◌, [], ◌∷◌, refl, sym, ap, ◌∙◌, inl, inr, true, false, List, arith, length,
  Bool-cases,
}
use anonymous.Kem.{
  Primitives, CryptoError, integrity_failure, replay_rejected, SharedSecret, RelayKemSecret,
  decapsulate,
}
use mathlib.Core.Path.{subst}
use anonymous.Replay.{CtEq, ReplayTag, ReplayCache, set_contains, check_and_insert}
use anonymous.Replay.Window.{Holds, retained, window_insert-fresh, window_insert-known}
use anonymous.Replay.Refinement.{check_and_insert-Holds, check_and_insert-refused, threshold}
use anonymous.Replay.Epochs.{check_and_insert_twice}
use anonymous.Sphinx.{
  Processed, forward, SphinxPacket, sphinx_packet_len, replay_tag, extract_kem_header, peel,
  verify_mac, process_with, process,
}
use anonymous.Sphinx.Regions.{
  packet_of, regions_of, regions_of-IsSized, packet_of-regions_of, length-packet_of,
}
use anonymous.Sphinx.Peel.{peeled, next_hop_of, peeled-IsSized, peel-peeled}

-- What a successful processing is held to: a packet of full length for a next hop.
abbrev pub IsForwarded : Result CryptoError Processed → Type 0
IsForwarded (ok (forward next_hop packet)) = length packet ≡ sphinx_packet_len
IsForwarded (ok _) = ⊥
IsForwarded (err e) = Unit {0}

module _ (p : Primitives) where
  peel-regions :
      (packet : SphinxPacket) (secret : SharedSecret)
      → length packet ≡ sphinx_packet_len
      → peel p packet secret
        ≡ ok (
            forward
              (next_hop_of p secret (regions_of packet).beta)
              (packet_of (peeled p secret (regions_of packet))))
  peel-regions packet secret e =
      let r = regions_of packet in
      ap (λ l. peel p l secret) (sym (packet_of-regions_of packet e))
      ∙ peel-peeled p secret r (regions_of-IsSized packet e)

  -- The peel of any packet of full length is a forward of a packet of full length.
  pub peel-IsForwarded :
      (packet : SphinxPacket) (secret : SharedSecret)
      → length packet ≡ sphinx_packet_len
      → IsForwarded (peel p packet secret)
  peel-IsForwarded packet secret e =
      let r = regions_of packet in
      rw (peel-regions packet secret e) (
        length-packet_of (peeled p secret r)
          (peeled-IsSized p secret r (regions_of-IsSized packet e)))

  module _ (subtle : CtEq) {F : Type 0} (fill_threshold : ℕ → F → ℕ) where
    process_with-IsForwarded :
        (packet : SphinxPacket) (secret : SharedSecret) (c : ReplayCache F)
        → length packet ≡ sphinx_packet_len
        → IsForwarded (process_with p subtle fill_threshold packet secret c).0
    unfolding process_with
    process_with-IsForwarded packet secret c e =
        let forwarded = peel-IsForwarded packet secret e in
        elim (Bool-cases (verify_mac p subtle secret packet)) [
          | inr forged ↦ rw (forged, process_with) tt
          | inl good ↦
              elim (Bool-cases (check_and_insert subtle fill_threshold c (replay_tag p secret)).1) [
                | inl fresh ↦ rw (good, process_with) (rw fresh forwarded)
                | inr seen ↦ rw (good, process_with) (rw seen tt)
              ]
        ]

    -- A packet of full length that a mix accepts is always forwarded at its full length: no input
    -- makes `process` report a returned loop or a dropped cell.
    pub process-IsForwarded :
        (packet : SphinxPacket) (s : RelayKemSecret p) (c : ReplayCache F)
        → length packet ≡ sphinx_packet_len
        → IsForwarded (process p subtle fill_threshold packet s c).0
    unfolding process process_with
    process-IsForwarded packet s c e =
        elim (Result-cases (extract_kem_header packet >>= decapsulate p s)) [
          | inl (_, d) ↦ rw (d, process) tt
          | inr (secret, d) ↦ rw (d, process) (process_with-IsForwarded packet secret c e)
        ]

    -- Why a packet is refused: its header does not decapsulate, the MAC of its secret does not
    -- verify, or the secret's tag is in the window.
    abbrev pub Refusal : SphinxPacket → RelayKemSecret p → List ReplayTag → CryptoError → Type 0
    Refusal packet s w e =
        ((extract_kem_header packet >>= decapsulate p s) ≡ err e)
        ⊎ ((secret : SharedSecret) × ((extract_kem_header packet >>= decapsulate p s) ≡ ok secret)
            × (((verify_mac p subtle secret packet ≡ false) × (e ≡ integrity_failure))
                ⊎ ((verify_mac p subtle secret packet ≡ true)
                    × (set_contains (replay_tag p secret) w ≡ true)
                    × (e ≡ replay_rejected))))

    -- Refused for its reason without a trace in the cache, or accepted with its tag recorded in the
    -- window.
    abbrev pub Outcome :
        SphinxPacket
        → RelayKemSecret p
        → ReplayCache F
        → List ReplayTag
        → Result CryptoError Processed × ReplayCache F
        → Type 0
    Outcome packet s c w r =
        ((e : CryptoError) × Refusal packet s w e × (r ≡ (err e, c)))
        ⊎ ((secret : SharedSecret) × ((extract_kem_header packet >>= decapsulate p s) ≡ ok secret)
            × (verify_mac p subtle secret packet ≡ true)
            × (set_contains (replay_tag p secret) w ≡ false)
            × (r.0
                ≡ ok (
                    forward (next_hop_of p secret (regions_of packet).beta)
                      (packet_of (peeled p secret (regions_of packet)))))
            × Holds r.1 (
                retained c.capacity (threshold subtle fill_threshold c) w
                ++ (replay_tag p secret ∷ [])))

    -- On a cache that holds a window `w` of tags, a packet of full length comes to one of two
    -- results. Where its header does not decapsulate, the MAC of its secret does not verify or the
    -- secret's tag is in the window, it is refused with the error of this reason and the cache stays
    -- as it is. Else it is forwarded, with the hop and the packet that its regions give under the
    -- peel, and the cache holds what the window retains, followed by the tag.
    pub process-Outcome :
        (packet : SphinxPacket) (s : RelayKemSecret p) (c : ReplayCache F) (w : List ReplayTag)
        → Holds c w
        → length packet ≡ sphinx_packet_len
        → Outcome packet s c w (process p subtle fill_threshold packet s c)
    unfolding process process_with
    process-Outcome packet s c w h sized =
        elim (Result-cases (extract_kem_header packet >>= decapsulate p s)) [
          | inl (e, d) ↦ inl (e, inl d, rw (d, process) refl)
          | inr (secret, d) ↦ elim (Bool-cases (verify_mac p subtle secret packet)) [
            | inr forged ↦
                inl (
                  integrity_failure,
                  inr (secret, d, inl (forged, refl)),
                  ground (arith, d, forged),
                )
            | inl good ↦
                let tag = replay_tag p secret in
                let (held, answer) = check_and_insert-Holds subtle fill_threshold c w tag h in
                elim (Bool-cases (check_and_insert subtle fill_threshold c tag).1) [
                  | inr seen ↦
                      let same = check_and_insert-refused subtle fill_threshold c tag seen in
                      let known =
                        window_insert-known c.capacity (threshold subtle fill_threshold c) w tag
                          (sym answer ∙ seen) in
                      inl (
                        replay_rejected,
                        inr (secret, d, inr (good, known, refl)),
                        ground (arith, d, good, same),
                      )
                  | inl accepted ↦
                      let (fresh, after) =
                        window_insert-fresh c.capacity (threshold subtle fill_threshold c) w tag
                          (sym answer ∙ accepted) in
                      let next =
                        retained c.capacity (threshold subtle fill_threshold c) w ++ (tag ∷ []) in
                      let result : process p subtle fill_threshold packet s c ≡ (
                        peel p packet secret,
                        (check_and_insert subtle fill_threshold c tag).0,
                      ) =
                        ground (arith, d, good, accepted) in
                      inr (
                        secret,
                        d,
                        good,
                        fresh,
                        ap (λ r. r.0) result ∙ peel-regions packet secret sized,
                        subst (λ r. Holds r next) (sym (ap (λ r. r.1) result))
                            (subst (Holds (check_and_insert subtle fill_threshold c tag).0) after
                              held),
                      )
                ]
          ]
        ]

    -- On a cache that holds a window of tags: a packet that was accepted is rejected as a replay
    -- when it comes again, and the cache stays.
    pub process_twice :
        (packet : SphinxPacket) (s : RelayKemSecret p) (c : ReplayCache F) (w : List ReplayTag)
        (result : Processed)
        → Holds c w
        → (process p subtle fill_threshold packet s c).0 ≡ ok result
        → let c' = (process p subtle fill_threshold packet s c).1 in
          process p subtle fill_threshold packet s c' ≡ (err replay_rejected, c')
    unfolding process process_with
    process_twice packet s c w result h accepted =
        elim (Result-cases (extract_kem_header packet >>= decapsulate p s)) [
          | inl (_, d) ↦ absurd (ground (arith, d))
          | inr (secret, d) ↦
              ground
                (arith, d, check_and_insert_twice subtle fill_threshold c w (replay_tag p secret) h)
        ]
