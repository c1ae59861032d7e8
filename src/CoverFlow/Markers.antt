-- ===== src/CoverFlow/Markers.antt =====
-- The reserved bytes of cover cells and of packet cells (cover_flow.rs and fragment.rs).
use anonymous.Common.Slices.{
  slice, splice, length-splice, slice-splice_same, slice-splice_below, get_or-slice,
}
use anonymous.Common.Results.{err, Result-cases}
use anonymous.Common.Sums.{All}
use anonymous.Cell.{Cell, cell_len, to_u8, from_u8, zeroed, length-zeroed}
use anonymous.Fragment.{
  PacketId, FragmentError, fragment, encode_fragment_cell, write_byte, sphinx_packet_len,
  decode_fragment_cell, is_sphinx_fragment,
}
use anonymous.Fragment.Cells.{
  decode_reserved, fragment-All, encoded_command, encoded_reserved, length-encode_fragment_cell,
}
use anonymous.Kem.{Primitives}
use anonymous.CoverFlow.{
  cover_fragment_reserved, cover_onion_scaffold_reserved, is_relay_cover_fragment,
  is_cover_onion_scaffold_fragment, is_discard_cover_fragment, CoverFlowConfig, Rng,
  encode_cover_fragment_cell, cover_cells, generate_one_flow, cover_copy_len,
}
use anonymous.Common.{
  ℕ, zero, suc, ◌+◌, ◌%◌, ◌≤◌, ◌≡◌, ◌⊎◌, refl, ap, ◌∙◌, inl, inr, true, false, List, [], ◌∷◌, arith,
  length, get_or, bytes_eq, bytes_eq_refl,
}

abbrev pub IsMarker : List ℕ → Type 0
IsMarker reserved =
    (reserved ≡ cover_fragment_reserved) ⊎ (reserved ≡ cover_onion_scaffold_reserved)

-- The fields that the tests read decide them.
marked :
    (cell : Cell) (reserved : List ℕ)
    → get_or cell 0 0 ≡ 6
    → slice cell 10 2 ≡ reserved
    → IsMarker reserved
    → is_discard_cover_fragment cell ≡ true
unfolding is_discard_cover_fragment is_relay_cover_fragment is_cover_onion_scaffold_fragment
    is_sphinx_fragment from_u8
marked cell reserved c r (inl e) =
    rw c (rw (r ∙ e) (rw (bytes_eq_refl cover_fragment_reserved) refl))
marked cell reserved c r (inr e) =
    rw c (rw (r ∙ e) (rw (bytes_eq_refl cover_onion_scaffold_reserved) (unfold bytes_eq in refl)))

pub unmarked :
    (cell : Cell)
    → get_or cell 0 0 ≡ 6
    → slice cell 10 2 ≡ 0 ∷ 0 ∷ []
    → is_discard_cover_fragment cell ≡ false
unfolding is_discard_cover_fragment is_relay_cover_fragment is_cover_onion_scaffold_fragment
    is_sphinx_fragment from_u8 bytes_eq
unmarked cell c r = rw c (rw r refl)

-- A cell that the link handler discards would not be taken by the reassembler either.
pub discard-refused :
    (cell : Cell)
    → is_discard_cover_fragment cell ≡ true
    → (e : FragmentError) × (decode_fragment_cell cell ≡ err e)
unfolding is_discard_cover_fragment is_relay_cover_fragment is_cover_onion_scaffold_fragment
    bytes_eq
discard-refused cell h = elim (Result-cases (decode_fragment_cell cell)) [
  | inl refused ↦ refused
  | inr (d, e) ↦ absurd (ground (arith, h, decode_reserved cell d e))
]

module _ (p : Primitives) {S : Type 0} (rng : Rng p S) where
  module _ (s : S) (id : PacketId) (i : ℕ) (reserved : List ℕ) (id8 : length id ≡ 8)
      (two : length reserved ≡ 2) where
    abbrev bytes : List ℕ
    bytes = (rng.fill_bytes s (cover_copy_len p rng i)).0

    abbrev b1 : Cell
    b1 = write_byte zeroed 0 6

    abbrev b2 : Cell
    b2 = write_byte b1 1 i

    abbrev b3 : Cell
    b3 = splice b2 2 id

    abbrev b4 : Cell
    b4 = splice b3 10 reserved

    l1 : length b1 ≡ 512
    l1 = omega (arith, length-splice zeroed 0 (6 ∷ []), length-zeroed)

    l2 : length b2 ≡ 512
    l2 = omega (arith, length-splice b1 1 (i ∷ []), l1)

    l3 : length b3 ≡ 512
    l3 = omega (arith, length-splice b2 2 id, l2, id8)

    l4 : length b4 ≡ 512
    l4 = omega (arith, length-splice b3 10 reserved, l3, two)

    bytes_fit : length bytes ≤ 500
    bytes_fit = ground (arith, rng.length-fill_bytes s (cover_copy_len p rng i))

    l5 : length (splice b4 12 bytes) ≡ 512
    l5 = omega (arith, length-splice b4 12 bytes, l4, bytes_fit)

    command_field : get_or (splice b4 12 bytes) 0 0 ≡ 6
    command_field =
        get_or-slice (splice b4 12 bytes) 0 0
        ∙ ap (λ l. get_or l 0 0)
            (slice-splice_below b4 12 0 1 bytes (omega (arith, l4)) (omega arith)
              ∙ slice-splice_below b3 10 0 1 reserved (omega (arith, l3)) (omega arith)
              ∙ slice-splice_below b2 2 0 1 id (omega (arith, l2)) (omega arith)
              ∙ slice-splice_below b1 1 0 1 (i ∷ []) (omega (arith, l1)) (omega arith)
              ∙ slice-splice_same zeroed 0 1 (6 ∷ []) (omega arith) refl)

    reserved_field : slice (splice b4 12 bytes) 10 2 ≡ reserved
    reserved_field =
        slice-splice_below b4 12 10 2 bytes (omega (arith, l4)) (omega arith)
        ∙ slice-splice_same b3 10 2 reserved (omega (arith, l3)) two

    cover_cell :
        IsMarker reserved
        → let cell = (encode_cover_fragment_cell p rng s id i reserved).0 in
          (is_discard_cover_fragment cell ≡ true) × (length cell ≡ cell_len)
    unfolding encode_cover_fragment_cell to_u8
    cover_cell m = (marked (splice b4 12 bytes) reserved command_field reserved_field m, l5)

  marker_two : (reserved : List ℕ) → IsMarker reserved → length reserved ≡ 2
  marker_two reserved (inl e) = ap length e
  marker_two reserved (inr e) = ap length e

  cover_cells-Discarded :
      (n i : ℕ) (s : S) (id : PacketId) (reserved : List ℕ)
      → length id ≡ 8
      → IsMarker reserved
      → All
          (λ cell. (is_discard_cover_fragment cell ≡ true) × (length cell ≡ cell_len))
          (cover_cells p rng n i s id reserved).0
  unfolding cover_cells
  cover_cells-Discarded zero i s id reserved e m = tt
  cover_cells-Discarded (suc n) i s id reserved e m =
      let (cell, s') = encode_cover_fragment_cell p rng s id (i % 256) reserved in
      (
        cover_cell s id (i % 256) reserved e (marker_two reserved m) m,
        cover_cells-Discarded n (i + 1) s' id reserved e m,
      )

  -- Every cell of a synthetic flow that carries one of the two markers has the width of any cell
  -- and is discarded before reassembly.
  pub generate_one_flow-Discarded :
      (config : CoverFlowConfig p) (s : S) (reserved : List ℕ)
      → IsMarker reserved
      → All
          (λ cell. (is_discard_cover_fragment cell ≡ true) × (length cell ≡ cell_len))
          (generate_one_flow p rng config s reserved).0
  unfolding generate_one_flow
  generate_one_flow-Discarded config s reserved m =
      let (id, s') = rng.fill_bytes s 8 in
      cover_cells-Discarded config.cells_per_flow 0 s' id reserved (rng.length-fill_bytes s 8) m

-- No cell of a packet of full length, cut under an id of 8 bytes, is taken for cover, and each has
-- the width of any cell.
pub fragment-Kept :
    (packet : List ℕ) (id : PacketId)
    → length id ≡ 8
    → length packet ≡ sphinx_packet_len
    → All
        (λ cell. (is_discard_cover_fragment cell ≡ false) × (length cell ≡ cell_len))
        (fragment packet id)
fragment-Kept packet id e w =
    fragment-All (λ cell. (is_discard_cover_fragment cell ≡ false) × (length cell ≡ cell_len))
      packet id
      (λ i h. (
        unmarked (encode_fragment_cell id i packet) (encoded_command id i packet e w h)
            (encoded_reserved id i packet e w h),
        length-encode_fragment_cell id i packet e w h,
      ))
