-- ===== src/CoverFlow/Tests.antt =====
-- The theorems on cover flows with a generator that repeats one byte.
use anonymous.Common.Results.{ok}
use anonymous.Common.Sums.{All}
use anonymous.Common.{
  ℕ, ◌+◌, ◌≡◌, refl, inl, true, List, [], ◌∷◌, ◌++◌, arith, length, replicate, length-replicate,
  bytes_eq,
}
use anonymous.Common.Slices.{slice}
use anonymous.Cell.{Cell, cell_len, from_u8}
use anonymous.Fragment.{fragment, reassemble, is_sphinx_fragment}
use anonymous.Kem.{public_of}
use anonymous.Kem.Samples.{toy}
use anonymous.Negotiator.{l2_uniform_batched}
use anonymous.Sphinx.{SphinxPacket, beta_len, forward, process}
use anonymous.Sphinx.Build.{PathHop, build}
use anonymous.CoverFlow.{
  cover_fragment_reserved, is_discard_cover_fragment, is_relay_cover_fragment, BulkRoundTracker_new,
  begin, generate_one_flow, close_and_emit, build_peel_to_sink_cover_flow, is_cover_sink_hop,
  cover_sink_hop_id, cover_onion_payload_prefix,
}
use anonymous.CoverFlow.Markers.{generate_one_flow-Discarded}
use anonymous.CoverFlow.Plans.{emitted}
use anonymous.CoverFlow.Rounds.{observe_all, round-constant}
use anonymous.CoverFlow.Sink.{peelable-Sunk}
use anonymous.Sphinx.Build.Guards.{build_total}
use anonymous.Sphinx.Samples.{subtle, percent, cache}
use anonymous.CoverFlow.Samples.{draws, rng, config, five, terminal}

generate_one_flow-Discarded_example :
    All
      (λ cell. (is_discard_cover_fragment cell ≡ true) × (length cell ≡ cell_len))
      (generate_one_flow toy rng config 4 cover_fragment_reserved).0
generate_one_flow-Discarded_example =
    generate_one_flow-Discarded toy rng config 4 cover_fragment_reserved (inl refl)

round-constant_example :
    3
      + emitted toy rng
          (close_and_emit toy rng
            (observe_all 3 (begin BulkRoundTracker_new l2_uniform_batched five))
            config
            4).1.0
    ≡ 5
round-constant_example =
    round-constant toy rng BulkRoundTracker_new five 3 config 4 refl (omega arith) (omega arith)

-- A marked cell, written out.
abbrev cover_cell : Cell
cover_cell = 6 ∷ 0 ∷ (replicate 8 5 ++ (0xC0 ∷ 0x01 ∷ replicate 500 7))

cover_cell_marked : is_discard_cover_fragment cover_cell ≡ true
unfolding is_discard_cover_fragment is_relay_cover_fragment from_u8 is_sphinx_fragment bytes_eq
    slice
cover_cell_marked = refl

abbrev path : List (PathHop toy)
path =
    record { id = replicate 32 1; pk = public_of toy terminal.keys }
    ∷ record { id = cover_sink_hop_id; pk = public_of toy (record { x25519 = 4; mlkem = 4 }) }
    ∷ []

onion : (packet : SphinxPacket) × (build toy draws path cover_onion_payload_prefix ≡ ok packet)
unfolding cover_onion_payload_prefix
onion =
    build_total toy draws path cover_onion_payload_prefix (λ pk coins h. ground (arith, h))
      (omega arith) (omega arith) (omega arith)

onion_cells :
    (build_peel_to_sink_cover_flow toy rng
      (record { id = replicate 32 1; pk = public_of toy terminal.keys })
      4).0
    ≡ ok (fragment onion.0 (replicate 8 4))
unfolding build_peel_to_sink_cover_flow
onion_cells = rw (onion.1, build_peel_to_sink_cover_flow) refl

peelable-Sunk_example :
    (packet : SphinxPacket) × (next_hop : List ℕ) × (next : SphinxPacket) × (reassemble
        (fragment onion.0 (replicate 8 4))
      ≡ ok packet)
    × ((process toy subtle percent packet terminal.keys cache).0 ≡ ok (forward next_hop next))
    × (is_cover_sink_hop next_hop ≡ true)
unfolding cover_onion_payload_prefix
peelable-Sunk_example =
    peelable-Sunk toy rng subtle percent cache terminal 4 (fragment onion.0 (replicate 8 4))
      (ground arith) (length-replicate {A = ℕ} 32 1)
      (λ s. (length-replicate {A = ℕ} beta_len 9, omega (arith, length-replicate {A = ℕ} 231 9)))
      onion_cells
