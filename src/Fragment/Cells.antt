-- ===== src/Fragment/Cells.antt =====
-- One fragment cell: its width, its fields, and what decoding it gives back.
use anonymous.Common.{
  ℕ, zero, suc, ◌+◌, ◌*◌, ◌%◌, ◌≤◌, ◌<◌, ◌≡◌, refl, ap, ◌∙◌, List, [], ◌∷◌, arith, length, get_or,
  take, bytes_eq_refl, bytes_eq_iff, lt→ltb,
}
use anonymous.Common.Slices.{
  slice, splice, length-splice, length-slice, slice-splice_same, slice-splice_below,
  slice-splice_above, slice-replicate, get_or-slice, take-slice,
}
use anonymous.Common.Results.{ok}
use anonymous.Common.Sums.{All}
use anonymous.Cell.{Cell, cell_len, to_u8, from_u8, zeroed, length-zeroed}
use anonymous.Fragment.{
  fragment_payload_len, sphinx_fragment_count, copy_len, write_byte, PacketId, Decoded,
  encode_fragment_cell, fragment, fragment_from, decode_command, is_sphinx_fragment,
  decode_fragment_cell, sphinx_packet_len,
}

copy_len-le : (i : ℕ) → copy_len i ≤ fragment_payload_len
copy_len-le i = ground arith

-- The part of the packet that a slot carries lies in the packet.
pub copy_len-fits :
    (i : ℕ) → i < sphinx_fragment_count → i * fragment_payload_len + copy_len i ≤ sphinx_packet_len
copy_len-fits i h = ground arith

module _ (id : PacketId) (i : ℕ) (part : List ℕ) (id8 : length id ≡ 8)
    (fits : length part ≤ 500) where
  -- The buffer after each write.
  abbrev with_command : Cell
  with_command = write_byte zeroed 0 6

  abbrev with_index : Cell
  with_index = write_byte with_command 1 i

  abbrev with_id : Cell
  with_id = splice with_index 2 id

  abbrev with_payload : Cell
  with_payload = splice with_id 12 part

  length-with_command : length with_command ≡ 512
  length-with_command = omega (arith, length-splice zeroed 0 (6 ∷ []), length-zeroed)

  length-with_index : length with_index ≡ 512
  length-with_index = omega (arith, length-splice with_command 1 (i ∷ []), length-with_command)

  length-with_id : length with_id ≡ 512
  length-with_id = omega (arith, length-splice with_index 2 id, length-with_index, id8)

  length-with_payload : length with_payload ≡ 512
  length-with_payload = omega (arith, length-splice with_id 12 part, length-with_id, fits)

  command_field : get_or with_payload 0 0 ≡ 6
  command_field =
      get_or-slice with_payload 0 0
      ∙ ap (λ l. get_or l 0 0)
          (slice-splice_below with_id 12 0 1 part (omega (arith, length-with_id)) (omega arith)
            ∙ slice-splice_below with_index 2 0 1 id (omega (arith, length-with_index))
                (omega arith)
            ∙ slice-splice_below with_command 1 0 1 (i ∷ []) (omega (arith, length-with_command))
                (omega arith)
            ∙ slice-splice_same zeroed 0 1 (6 ∷ []) (omega arith) refl)

  index_field : get_or with_payload 1 0 ≡ i
  index_field =
      get_or-slice with_payload 1 0
      ∙ ap (λ l. get_or l 0 0)
          (slice-splice_below with_id 12 1 1 part (omega (arith, length-with_id)) (omega arith)
            ∙ slice-splice_below with_index 2 1 1 id (omega (arith, length-with_index))
                (omega arith)
            ∙ slice-splice_same with_command 1 1 (i ∷ []) (omega (arith, length-with_command)) refl)

  id_field : slice with_payload 2 8 ≡ id
  id_field =
      slice-splice_below with_id 12 2 8 part (omega (arith, length-with_id)) (omega arith)
      ∙ slice-splice_same with_index 2 8 id (omega (arith, length-with_index)) id8

  reserved_field : slice with_payload 10 2 ≡ 0 ∷ 0 ∷ []
  unfolding zeroed
  reserved_field =
      slice-splice_below with_id 12 10 2 part (omega (arith, length-with_id)) (omega arith)
      ∙ slice-splice_above with_index 2 10 2 id (omega (arith, length-with_index, id8))
          (omega (arith, id8))
      ∙ slice-splice_above with_command 1 10 2 (i ∷ []) (omega (arith, length-with_command))
          (omega arith)
      ∙ slice-splice_above zeroed 0 10 2 (6 ∷ []) (omega (arith, length-zeroed)) (omega arith)
      ∙ slice-replicate {A = ℕ} 512 10 2 0 (omega arith)

  payload_field : (n : ℕ) → length part ≡ n → slice with_payload 12 n ≡ part
  payload_field n e = slice-splice_same with_id 12 n part (omega (arith, length-with_id)) e

module _ (id : PacketId) (i : ℕ) (packet : List ℕ) (id8 : length id ≡ 8)
    (whole : length packet ≡ sphinx_packet_len) (in_range : i < sphinx_fragment_count) where
  pub length-part : length (slice packet (i * fragment_payload_len) (copy_len i)) ≡ copy_len i
  length-part =
      length-slice packet (i * fragment_payload_len) (copy_len i)
        (omega (arith, whole, copy_len-fits i in_range))

  part_fits : length (slice packet (i * fragment_payload_len) (copy_len i)) ≤ 500
  part_fits = omega (arith, length-part, copy_len-le i)

  -- Every cell is exactly 512 bytes, whatever the slot.
  pub length-encode_fragment_cell : length (encode_fragment_cell id i packet) ≡ cell_len
  unfolding encode_fragment_cell to_u8
  length-encode_fragment_cell =
      length-with_payload id i (slice packet (i * fragment_payload_len) (copy_len i)) id8 part_fits

  abbrev pub decoded : Decoded
  decoded = record { id = id; index = i; payload = slice (encode_fragment_cell id i packet) 12 500 }

  -- Decoding an encoded cell gives the id and the index back.
  pub decode-encode : decode_fragment_cell (encode_fragment_cell id i packet) ≡ ok decoded
  unfolding encode_fragment_cell decode_fragment_cell decode_command is_sphinx_fragment to_u8
      from_u8 splice slice
  decode-encode =
      let part = slice packet (i * fragment_payload_len) (copy_len i) in
      rw (command_field id i part id8 part_fits) (
        rw (index_field id i part id8 part_fits) (
          rw (reserved_field id i part id8 part_fits) (
            rw (id_field id i part id8 part_fits)
              (rw (lt→ltb i 18 in_range) (rw (bytes_eq_refl (0 ∷ 0 ∷ [])) refl)))))

  -- The slot holds the packet's bytes.
  pub take-payload :
      take (copy_len i) decoded.payload ≡ slice packet (i * fragment_payload_len) (copy_len i)
  unfolding encode_fragment_cell to_u8
  take-payload =
      let part = slice packet (i * fragment_payload_len) (copy_len i) in
      take-slice (encode_fragment_cell id i packet) 12 (copy_len i) 500 (copy_len-le i)
      ∙ payload_field id i part id8 part_fits (copy_len i) length-part

  -- The fields that tell a packet's cell from a cover cell.
  pub encoded_command : get_or (encode_fragment_cell id i packet) 0 0 ≡ 6
  unfolding encode_fragment_cell to_u8
  encoded_command =
      command_field id i (slice packet (i * fragment_payload_len) (copy_len i)) id8 part_fits

  pub encoded_reserved : slice (encode_fragment_cell id i packet) 10 2 ≡ 0 ∷ 0 ∷ []
  unfolding encode_fragment_cell to_u8
  encoded_reserved =
      reserved_field id i (slice packet (i * fragment_payload_len) (copy_len i)) id8 part_fits

-- A cell that decodes has its reserved bytes clear.
pub decode_reserved :
    (cell : Cell) (d : Decoded) → decode_fragment_cell cell ≡ ok d → slice cell 10 2 ≡ 0 ∷ 0 ∷ []
unfolding decode_fragment_cell
decode_reserved cell d h = (bytes_eq_iff (slice cell 10 2) (0 ∷ 0 ∷ [])).0 (ground (arith, h))

fragment_from-All :
    (P : Cell → Type 0) (packet : List ℕ) (id : PacketId)
    → ((i : ℕ) → i < sphinx_fragment_count → P (encode_fragment_cell id i packet))
    → (n i : ℕ) → i + n ≤ sphinx_fragment_count
    → All P (fragment_from n i packet id)
unfolding fragment_from
fragment_from-All P packet id each zero i h = tt
fragment_from-All P packet id each (suc n) i h =
    let byte : i % 256 ≡ i = omega (arith, h) in
    (
      rw byte (each i (omega (arith, h))),
      fragment_from-All P packet id each n (i + 1) (omega (arith, h)),
    )

-- What holds of each cell holds of all cells of a packet.
pub fragment-All :
    (P : Cell → Type 0) (packet : List ℕ) (id : PacketId)
    → ((i : ℕ) → i < sphinx_fragment_count → P (encode_fragment_cell id i packet))
    → All P (fragment packet id)
unfolding fragment
fragment-All P packet id each = fragment_from-All P packet id each 18 0 (omega arith)
