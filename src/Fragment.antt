-- ===== src/Fragment.antt =====
-- crates/aegis-crypto/src/fragment.rs: a Sphinx packet as a fixed number of link cells.
--
-- Arrays are lists of bytes whose lengths the theorems state. `copy_from_slice` is `splice`, a
-- range is `slice`. `PacketId` is eight bytes; the random id of `fragment_with_random_id` is the
-- argument `packet_id`.
pub mod Cells
pub mod RoundTrip
pub mod Errors
mod Tests
use Prim.Native.String.{String}
use anonymous.Cell.{Cell, Command, cell_len, to_u8, from_u8, zeroed, sphinx_fragment}
use anonymous.Common.Slices.{slice, splice}
use anonymous.Common.Results.{Result, ok, err, ◌>>=◌, ◌>>◌}
use anonymous.Common.{
  ℕ, zero, suc, ◌+◌, ◌-◌, ◌*◌, ◌/◌, ◌%◌, ◌≡◌, Bool, true, false, Option, none, some, List, [], ◌∷◌,
  length, get_or, set, take, replicate, ltb, leb, ◌==◌, if◌then◌else◌, bytes_eq,
}

abbrev pub sphinx_packet_len : ℕ
sphinx_packet_len = 8512

abbrev pub fragment_header_len : ℕ
fragment_header_len = 12

abbrev pub fragment_payload_len : ℕ
fragment_payload_len = cell_len - fragment_header_len

abbrev pub sphinx_fragment_count : ℕ
sphinx_fragment_count = (sphinx_packet_len - 1) / fragment_payload_len + 1

abbrev pub last_fragment_data_len : ℕ
last_fragment_data_len = sphinx_packet_len - (sphinx_fragment_count - 1) * fragment_payload_len

abbrev pub off_command : ℕ
off_command = 0

abbrev pub off_frag_idx : ℕ
off_frag_idx = 1

abbrev pub off_packet_id : ℕ
off_packet_id = 2

abbrev pub off_reserved : ℕ
off_reserved = 10

abbrev pub off_payload : ℕ
off_payload = fragment_header_len

pub data FragmentError : Type 0 where
  malformed : String → FragmentError
  incomplete : ℕ → ℕ → FragmentError
  out_of_order : ℕ → ℕ → FragmentError
  packet_id_mismatch : FragmentError

abbrev pub PacketId : Type 0
PacketId = List ℕ

-- Bytes of the packet in the slot `index`.
abbrev pub copy_len : ℕ → ℕ
copy_len index =
    if index == sphinx_fragment_count - 1 then last_fragment_data_len else fragment_payload_len

-- `buf[i] = v`.
abbrev pub write_byte : List ℕ → ℕ → ℕ → List ℕ
write_byte buf i v = splice buf i (v ∷ [])

pub encode_fragment_cell : PacketId → ℕ → List ℕ → Cell
encode_fragment_cell packet_id index packet =
    let buf = zeroed in
    let buf = write_byte buf off_command (to_u8 sphinx_fragment) in
    let buf = write_byte buf off_frag_idx index in
    let buf = splice buf off_packet_id packet_id in
    splice buf off_payload (slice packet (index * fragment_payload_len) (copy_len index))

-- `fragment`: the cells from `index` on, `n` of them.
unfoldable pub fragment_from : ℕ → ℕ → List ℕ → PacketId → List Cell
fragment_from zero index packet packet_id = []
fragment_from (suc n) index packet packet_id =
    encode_fragment_cell packet_id (index % 256) packet
    ∷ fragment_from n (index + 1) packet packet_id

unfoldable pub fragment : List ℕ → PacketId → List Cell
fragment packet packet_id = fragment_from sphinx_fragment_count 0 packet packet_id

-- The packet id, the index and the payload slot of a cell.
pub record Decoded : Type 0 where
  pub id : PacketId
  pub index : ℕ
  pub payload : List ℕ

pub decode_command : Cell → Result FragmentError Command
decode_command b = elim (from_u8 (get_or b off_command 0)) [
  | none ↦ err (malformed "command")
  | some cmd ↦ ok cmd
]

unfoldable pub is_sphinx_fragment : Command → Bool
is_sphinx_fragment sphinx_fragment = true
is_sphinx_fragment _ = false

abbrev pub guard : Bool → FragmentError → Result FragmentError (Unit {0})
guard true e = ok tt
guard false e = err e

pub decode_fragment_cell : Cell → Result FragmentError Decoded
decode_fragment_cell b = do
  cmd ← decode_command b
  guard (is_sphinx_fragment cmd) (malformed "not a sphinx fragment")
  guard (ltb (get_or b off_frag_idx 0) sphinx_fragment_count) (malformed "fragment index")
  guard (bytes_eq (slice b off_reserved (off_payload - off_reserved)) (0 ∷ 0 ∷ []))
      (malformed "reserved bytes")
  ok (record {
    id = slice b off_packet_id 8;
    index = get_or b off_frag_idx 0;
    payload = slice b off_payload fragment_payload_len;
  })

pub record SphinxReassembler : Type 0 where
  pub expected_index : ℕ
  pub packet_id : Option PacketId
  pub buf : List ℕ

pub zero_packet : List ℕ
zero_packet = replicate sphinx_packet_len 0

-- `SphinxReassembler::new`, and the state after `reset`.
pub new : SphinxReassembler
new = record { expected_index = 0; packet_id = none; buf = zero_packet }

-- The last part of `push`: the index has advanced.
pub finish : SphinxReassembler → SphinxReassembler × Result FragmentError (Option (List ℕ))
finish r =
    if r.expected_index == sphinx_fragment_count then (new, ok (some r.buf)) else (r, ok none)

pub place : SphinxReassembler → Decoded → SphinxReassembler × Result FragmentError (Option (List ℕ))
place r d =
    if d.index == r.expected_index
    then finish (record r {
      buf = splice r.buf (d.index * fragment_payload_len) (take (copy_len d.index) d.payload);
      expected_index = r.expected_index + 1;
    })
    else (r, err (out_of_order r.expected_index d.index))

pub accept :
    SphinxReassembler → Decoded → SphinxReassembler × Result FragmentError (Option (List ℕ))
accept r d = elim r.packet_id [
  | none ↦ place (record r { packet_id = some d.id }) d
  | some expected_id ↦ if bytes_eq expected_id d.id then place r d else (r, err packet_id_mismatch)
]

pub push : SphinxReassembler → Cell → SphinxReassembler × Result FragmentError (Option (List ℕ))
push r cell = elim (decode_fragment_cell cell) [ err e ↦ (r, err e) | ok d ↦ accept r d ]

-- The loop of `reassemble`; `got` is the number of cells in the batch.
pub push_all : ℕ → SphinxReassembler → List Cell → Result FragmentError (List ℕ)
push_all got r [] = err (incomplete sphinx_fragment_count got)
push_all got r (cell ∷ cells) =
    let (r', outcome) = push r cell in
    elim outcome [ err e ↦ err e | ok (some packet) ↦ ok packet | ok none ↦ push_all got r' cells ]

pub reassemble : List Cell → Result FragmentError (List ℕ)
reassemble cells =
    if length cells == sphinx_fragment_count
    then push_all (length cells) new cells
    else err (incomplete sphinx_fragment_count (length cells))
