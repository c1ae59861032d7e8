-- ===== src/Fragment/Errors.antt =====
-- The reassembler on arbitrary cells: bounds, and what a refused cell leaves behind.
use anonymous.Common.{
  ℕ, ◌*◌, ◌<◌, ◌≡◌, ◌≢◌, refl, List, arith, length, take, Option, none, some, bytes_eq_iff,
  length-take, length-replicate,
}
use anonymous.Common.Slices.{length-splice, length-slice}
use anonymous.Common.Results.{Result, ok, err}
use anonymous.Cell.{Cell, cell_len, from_u8}
use anonymous.Fragment.{
  fragment_payload_len, sphinx_fragment_count, sphinx_packet_len, copy_len, Decoded, FragmentError,
  out_of_order, packet_id_mismatch, SphinxReassembler, zero_packet, new, finish, place, accept,
  push, decode_command, is_sphinx_fragment, decode_fragment_cell,
}
use anonymous.Fragment.Cells.{copy_len-fits}

-- The state that every operation of the reassembler keeps.
pub record IsBounded (r : SphinxReassembler) : Type 0 where
  pub index_in_range : r.expected_index < sphinx_fragment_count
  pub sized : length r.buf ≡ sphinx_packet_len

pub new-IsBounded : IsBounded new
unfolding new zero_packet
new-IsBounded = record {
  index_in_range = omega arith;
  sized = length-replicate {A = ℕ} sphinx_packet_len 0;
}

-- What a completed packet is held to.
abbrev pub IsWhole : Result FragmentError (Option (List ℕ)) → Type 0
IsWhole (ok (some packet)) = length packet ≡ sphinx_packet_len
IsWhole (ok none) = Unit {0}
IsWhole (err e) = Unit {0}

decoded_bounds :
    (cell : Cell) (d : Decoded)
    → length cell ≡ cell_len
    → decode_fragment_cell cell ≡ ok d
    → (d.index < sphinx_fragment_count) × (length d.payload ≡ fragment_payload_len)
unfolding decode_fragment_cell decode_command is_sphinx_fragment from_u8
decoded_bounds cell d h e = ground (arith, length-slice cell 12 500 (omega (arith, h)))

place-IsBounded :
    (r : SphinxReassembler) (d : Decoded)
    → IsBounded r
    → d.index < sphinx_fragment_count
    → length d.payload ≡ fragment_payload_len
    → IsBounded (place r d).0 × IsWhole (place r d).1
unfolding place finish
place-IsBounded r d v h p = ground (
  arith,
  new-IsBounded,
  length-splice r.buf (d.index * fragment_payload_len) (take (copy_len d.index) d.payload),
  length-take (copy_len d.index) d.payload,
  copy_len-fits d.index h,
)

accept-IsBounded :
    (r : SphinxReassembler) (d : Decoded)
    → IsBounded r
    → d.index < sphinx_fragment_count
    → length d.payload ≡ fragment_payload_len
    → IsBounded (accept r d).0 × IsWhole (accept r d).1
unfolding accept
accept-IsBounded r d v h p = ground (
  arith,
  place-IsBounded r d v h p,
  place-IsBounded (record r { packet_id = some d.id }) d
      (record { index_in_range = v.index_in_range; sized = v.sized }) h p,
)

-- On any 512 bytes that a peer may send, every write of the reassembler stays within its buffer,
-- its index stays below the number of slots, and a packet that it completes has its full length.
pub push-IsBounded :
    (r : SphinxReassembler) (cell : Cell)
    → length cell ≡ cell_len
    → IsBounded r
    → IsBounded (push r cell).0 × IsWhole (push r cell).1
unfolding push
push-IsBounded r cell h v = split (decode_fragment_cell cell) refl
  where
    split :
        (m : Result FragmentError Decoded)
        → decode_fragment_cell cell ≡ m
        → IsBounded (push r cell).0 × IsWhole (push r cell).1
    split (err e) q = rw (q, push) (v, tt)
    split (ok d) q =
        let (k, p) = decoded_bounds cell d h q in rw (q, push) (accept-IsBounded r d v k p)

-- A cell that is refused leaves the buffer and the next index as they were.
pub push_refused :
    (r : SphinxReassembler) (cell : Cell) (e : FragmentError)
    → (push r cell).1 ≡ err e
    → ((push r cell).0.expected_index ≡ r.expected_index) × ((push r cell).0.buf ≡ r.buf)
unfolding push accept place finish
push_refused r cell e h = ground arith

-- A well-formed cell out of turn is refused, yet it binds an idle reassembler to its packet id:
-- every later cell of another packet is refused too, until `reset`.
pub push_binds_id :
    (r : SphinxReassembler) (cell other : Cell) (d d' : Decoded)
    → r.packet_id ≡ none
    → decode_fragment_cell cell ≡ ok d
    → d.index ≢ r.expected_index
    → decode_fragment_cell other ≡ ok d'
    → d'.id ≢ d.id
    → ((push r cell).1 ≡ err (out_of_order r.expected_index d.index))
      × ((push (push r cell).0 other).1 ≡ err packet_id_mismatch)
unfolding push accept place
push_binds_id r cell other d d' idle p late q foreign = ground (arith, bytes_eq_iff d.id d'.id)
