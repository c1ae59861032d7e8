-- ===== src/CoverFlow/Sink.antt =====
-- A peelable cover onion at its terminal hop (cover_flow.rs, over sphinx.rs and fragment.rs).
use anonymous.Common.Results.{ok, Result-cases}
use anonymous.Common.{
  ℕ, ◌+◌, ◌-◌, ◌≡◌, refl, sym, ap, ◌∙◌, inl, inr, true, List, [], ◌∷◌, map, arith, length,
  bytes_eq_refl,
}
use anonymous.Fragment.{reassemble, fragment}
use anonymous.Fragment.RoundTrip.{reassemble-fragment}
use anonymous.Kem.{Primitives, public_of}
use anonymous.Replay.{CtEq, ReplayCache}
use anonymous.Replay.Window.{Holds}
use anonymous.Sphinx.{SphinxPacket, beta_len, delta_len, forward, process}
use anonymous.Sphinx.Build.{PathHop, build}
use anonymous.Sphinx.Build.Delivery.{Relay, hop_of, SizedIds, Delivers}
use anonymous.Sphinx.Build.EndToEnd.{build-Delivers, length-build}
use anonymous.CoverFlow.{
  CoverFlow, Rng, cover_sink_hop_id, cover_onion_payload_prefix, is_cover_sink_hop,
  build_peel_to_sink_cover_flow,
}

module _ (p : Primitives) {S : Type 0} (rng : Rng p S) where
  -- The draws of a build fill `beta`, and what the payload leaves of `delta`.
  abbrev pub FillsPackets : Type 0
  FillsPackets =
      (s : S)
      → (length (rng.build_draws s).0.beta_fill ≡ beta_len)
        × (length cover_onion_payload_prefix + length (rng.build_draws s).0.delta_fill ≡ delta_len)

  -- Where the random draws fill a packet and the terminal relay has an identity of 32 bytes and a
  -- cache without tags: the cells of a peelable cover flow that could be built reassemble to a
  -- packet that the terminal relay accepts and forwards to the sink.
  pub peelable-Sunk :
      (subtle : CtEq) {F : Type 0} (fill_threshold : ℕ → F → ℕ) (c : ReplayCache F)
      (terminal : Relay p) (s : S) (flow : CoverFlow)
      → Holds c []
      → length terminal.id ≡ 32
      → FillsPackets
      → (build_peel_to_sink_cover_flow p rng
          (record { id = terminal.id; pk = public_of p terminal.keys })
          s).0
        ≡ ok flow
      → (packet : SphinxPacket) × (next_hop : List ℕ) × (next : SphinxPacket) × (reassemble flow
          ≡ ok packet)
        × ((process p subtle fill_threshold packet terminal.keys c).0 ≡ ok (forward next_hop next))
        × (is_cover_sink_hop next_hop ≡ true)
  unfolding build_peel_to_sink_cover_flow Delivers is_cover_sink_hop
  peelable-Sunk subtle fill_threshold c terminal s flow fresh sized fills built =
      let (sink, made) = rng.relay_keys s in
      let s' = (rng.fill_bytes made (delta_len - length cover_onion_payload_prefix)).1 in
      let (draws, s'') = rng.build_draws s' in
      let id = (rng.fill_bytes s'' 8).0 in
      let relays : List (Relay p) =
        terminal ∷ record { id = cover_sink_hop_id; keys = sink } ∷ [] in
      let path : List (PathHop p) = map (hop_of p) relays in
      elim (Result-cases (build p draws path cover_onion_payload_prefix)) [
        | inl (e, f) ↦ absurd (ground (arith, built, f))
        | inr (packet, f) ↦
            let sizes : SizedIds p relays = (sized, (refl, tt)) in
            let (lb, ld) = fills s' in
            let whole =
              length-build p subtle fill_threshold c draws relays cover_onion_payload_prefix packet
                fresh sizes lb ld f in
            let (next, accepted, _) =
              build-Delivers p subtle fill_threshold c draws relays cover_onion_payload_prefix
                packet fresh sizes lb ld f in
            let same : fragment packet id ≡ flow = ground (arith, built, f) in
            (
              packet,
              cover_sink_hop_id,
              next,
              ap reassemble (sym same)
                  ∙ reassemble-fragment id packet (rng.length-fill_bytes s'' 8) whole,
              accepted,
              bytes_eq_refl cover_sink_hop_id,
            )
      ]
