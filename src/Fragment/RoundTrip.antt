-- ===== src/Fragment/RoundTrip.antt =====
-- Fragmentation and reassembly together, cell by cell and for a whole batch.
use anonymous.Common.{
  ℕ, zero, suc, ◌+◌, ◌*◌, ◌%◌, ◌<◌, ◌≡◌, refl, sym, ap, ◌∙◌, ◌⊎◌, inl, inr, List, [], ◌∷◌, arith,
  length, take, none, some, bytes_eq_refl, take_all, length-replicate,
}
use anonymous.Common.Slices.{slice, length-splice, splice, take-splice_next}
use anonymous.Common.Results.{ok}
use anonymous.Cell.{Cell}
use anonymous.Fragment.{
  fragment_payload_len, sphinx_fragment_count, sphinx_packet_len, copy_len, PacketId,
  SphinxReassembler, zero_packet, encode_fragment_cell, fragment_from, fragment, new, finish, place,
  accept, push, push_all, reassemble,
}
use anonymous.Fragment.Cells.{decode-encode, take-payload, copy_len-fits, length-part}

push_all_next :
    (got : ℕ) (r r' : SphinxReassembler) (cell : Cell) (cells : List Cell)
    → push r cell ≡ (r', ok none)
    → push_all got r (cell ∷ cells) ≡ push_all got r' cells
unfolding push_all
push_all_next got r r' cell cells p = ground arith

push_all_done :
    (got : ℕ) (r r' : SphinxReassembler) (cell : Cell) (cells : List Cell) (packet : List ℕ)
    → push r cell ≡ (r', ok (some packet))
    → push_all got r (cell ∷ cells) ≡ ok packet
unfolding push_all
push_all_done got r r' cell cells packet p = ground arith

module _ (id : PacketId) (packet : List ℕ) (id8 : length id ≡ 8)
    (whole : length packet ≡ sphinx_packet_len) where
  -- The reassembler has taken the first `i` cells of the packet.
  pub record Collected (i : ℕ) (r : SphinxReassembler) : Type 0 where
    pub expected : r.expected_index ≡ i
    pub correlated : (r.packet_id ≡ none) ⊎ (r.packet_id ≡ some id)
    pub sized : length r.buf ≡ sphinx_packet_len
    pub agrees : take (i * fragment_payload_len) r.buf ≡ take (i * fragment_payload_len) packet

  pub new-Collected : Collected 0 new
  unfolding new zero_packet
  new-Collected = record {
    expected = refl;
    correlated = inl refl;
    sized = length-replicate {A = ℕ} sphinx_packet_len 0;
    agrees = refl;
  }

  module _ (i : ℕ) (r : SphinxReassembler) (c : Collected i r)
      (in_range : i < sphinx_fragment_count) where
    -- The buffer with the slot's bytes written.
    filled : List ℕ
    filled =
        splice r.buf (i * fragment_payload_len)
          (slice packet (i * fragment_payload_len) (copy_len i))

    length-filled : length filled ≡ sphinx_packet_len
    unfolding filled
    length-filled = omega (
      arith,
      length-splice r.buf (i * fragment_payload_len)
          (slice packet (i * fragment_payload_len) (copy_len i)),
      c.sized,
      length-part id i packet id8 whole in_range,
      copy_len-fits i in_range,
    )

    filled-agrees :
        (k : ℕ) → i * fragment_payload_len + copy_len i ≡ k → take k filled ≡ take k packet
    unfolding filled
    filled-agrees k e =
        take-splice_next r.buf packet (i * fragment_payload_len) (copy_len i) k c.agrees
          (omega (arith, c.sized, copy_len-fits i in_range))
          (omega (arith, whole, copy_len-fits i in_range)) e

    push-filled :
        push r (encode_fragment_cell id i packet)
        ≡ finish (record { expected_index = i + 1; packet_id = some id; buf = filled })
    unfolding push accept place filled
    push-filled = ground (
      arith,
      decode-encode id i packet id8 whole in_range,
      take-payload id i packet id8 whole in_range,
      bytes_eq_refl id,
    )

    -- A cell before the last one is taken, and asks for the next.
    pub push-Collected :
        suc i < sphinx_fragment_count
        → (r' : SphinxReassembler) × (push r (encode_fragment_cell id i packet) ≡ (r', ok none))
          × Collected (suc i) r'
    unfolding finish
    push-Collected more = (
      record { expected_index = i + 1; packet_id = some id; buf = filled },
      ground (arith, push-filled),
      record {
        expected = omega arith;
        correlated = inr refl;
        sized = length-filled;
        agrees = filled-agrees (suc i * fragment_payload_len) (ground arith);
      },
    )

    -- The last cell completes the packet, and the reassembler starts over.
    pub push_complete :
        suc i ≡ sphinx_fragment_count
        → push r (encode_fragment_cell id i packet) ≡ (new, ok (some packet))
    unfolding finish
    push_complete last =
        let e : filled ≡ packet =
          sym (take_all sphinx_packet_len filled (omega (arith, length-filled)))
          ∙ filled-agrees sphinx_packet_len (ground arith)
          ∙ take_all sphinx_packet_len packet (omega (arith, whole)) in
        ground (arith, push-filled, e)

  -- From any point of the packet, the cells that are left complete it.
  push_all-fragment_from :
      (n i got : ℕ) (r : SphinxReassembler)
      → Collected i r
      → i + suc n ≡ sphinx_fragment_count
      → push_all got r (fragment_from (suc n) i packet id) ≡ ok packet
  unfolding fragment_from
  push_all-fragment_from zero i got r c e =
      let m : i % 256 ≡ i = omega arith in
      rw m (
        push_all_done got r new (encode_fragment_cell id i packet) [] packet
          (push_complete i r c (omega arith) (omega arith)))
  push_all-fragment_from (suc n) i got r c e =
      let m : i % 256 ≡ i = omega arith in
      let (r', p, c') = push-Collected i r c (omega arith) (omega arith) in
      let s : suc i ≡ i + 1 = omega arith in
      rw m (
        push_all_next got r r' (encode_fragment_cell id i packet)
          (fragment_from (suc n) (i + 1) packet id) p
        ∙ rw (← s) (push_all-fragment_from n (suc i) got r' c' (omega arith)))

  length-fragment_from : (n i : ℕ) → length (fragment_from n i packet id) ≡ n
  unfolding fragment_from
  length-fragment_from zero i = refl
  length-fragment_from (suc n) i = ap suc (length-fragment_from n (i + 1))

  -- Reassembling the cells of a packet of full length, cut under an id of 8 bytes, gives the packet
  -- back.
  pub reassemble-fragment : reassemble (fragment packet id) ≡ ok packet
  unfolding reassemble fragment
  reassemble-fragment =
      rw (length-fragment_from 18 0) (push_all-fragment_from 17 0 18 new new-Collected refl)
