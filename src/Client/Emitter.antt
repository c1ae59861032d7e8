-- ===== src/Client/Emitter.antt =====
-- crates/aegis-client/src/emitter.rs: one cell per slot, real if one is queued and cover otherwise.
--
-- The random generator is a state and the bytes that it fills. The load figure `rho` is arithmetic
-- on f64 and not modelled, nor are the fields that only it reads. A payload above 509 bytes, which
-- a debug build refuses, is cut as a release build cuts it. Sending the cell is the transport's.
pub mod Backlog
pub mod Cells
pub mod Order
mod Tests
use anonymous.Cell.{Cell, Command, cell_len, to_u8, zeroed, data_cell, drop_cell}
use anonymous.Common.Slices.{splice}
use anonymous.Common.Results.{Result, ok, err}
use anonymous.Common.{
  ℕ, zero, suc, ◌+◌, ◌-◌, ◌/◌, ◌%◌, ◌^◌, ◌≡◌, Bool, true, false, List, [], ◌∷◌, ◌++◌, length, take,
  min, ltb, leb, if◌then◌else◌,
}

abbrev pub default_max_backlog : ℕ
default_max_backlog = 256

abbrev pub data_header_len : ℕ
data_header_len = 1 + 2

abbrev pub max_cell_payload : ℕ
max_cell_payload = cell_len - data_header_len

pub record BacklogFullError : Type 0 where
  pub max_backlog : ℕ

-- `CryptoRngCore`.
pub record Filler (S : Type 0) : Type 0 where
  pub fill_bytes : S → ℕ → List ℕ × S
  pub length-fill_bytes : (s : S) (n : ℕ) → length (fill_bytes s n).0 ≡ n

pub record ConstantRateEmitter (S : Type 0) : Type 0 where
  pub max_backlog : ℕ
  pub queue : List (List ℕ)
  pub cell_queue : List Cell
  pub tick : ℕ
  pub dropped_enqueue_count : ℕ
  pub rng : S

-- `u16::try_from(payload.len()).unwrap_or(u16::MAX)`.
abbrev pub length_field : List ℕ → ℕ
length_field payload = if ltb (length payload) (2 ^ 16) then length payload else 2 ^ 16 - 1

module _ {S : Type 0} where
  pub new : ℕ → S → ConstantRateEmitter S
  new max_backlog rng = record {
    max_backlog = max_backlog;
    queue = [];
    cell_queue = [];
    tick = 0;
    dropped_enqueue_count = 0;
    rng = rng;
  }

  unfoldable pub pending_emissions : ConstantRateEmitter S → ℕ
  pending_emissions e = length e.cell_queue + length e.queue

  pub try_push_real : ConstantRateEmitter S → Result BacklogFullError (Unit {0})
  try_push_real e =
      if leb e.max_backlog (pending_emissions e)
      then err (record { max_backlog = e.max_backlog })
      else ok tt

  pub enqueue :
      ConstantRateEmitter S → List ℕ → ConstantRateEmitter S × Result BacklogFullError (Unit {0})
  enqueue e payload = elim (try_push_real e) [
    | err full ↦ (e, err full)
    | ok u ↦ (record e { queue = e.queue ++ (payload ∷ []) }, ok tt)
  ]

  pub enqueue_cell :
      ConstantRateEmitter S → Cell → ConstantRateEmitter S × Result BacklogFullError (Unit {0})
  enqueue_cell e cell = elim (try_push_real e) [
    | err full ↦ (e, err full)
    | ok u ↦ (record e { cell_queue = e.cell_queue ++ (cell ∷ []) }, ok tt)
  ]

  pub enqueue_drop_newest : ConstantRateEmitter S → List ℕ → ConstantRateEmitter S
  enqueue_drop_newest e payload =
      if leb e.max_backlog (pending_emissions e)
      then record e { dropped_enqueue_count = (e.dropped_enqueue_count + 1) % 2 ^ 64 }
      else record e { queue = e.queue ++ (payload ∷ []) }

  pub note_dropped_enqueue : ConstantRateEmitter S → ConstantRateEmitter S
  note_dropped_enqueue e = record e {
    dropped_enqueue_count = (e.dropped_enqueue_count + 1) % 2 ^ 64;
  }

  module _ (rng : Filler S) where
    pub encode_data_cell : List ℕ → S → Cell × S
    encode_data_cell payload s =
        let len = length_field payload in
        let copy_len = min (length payload) max_cell_payload in
        let buf = splice zeroed 0 (to_u8 data_cell ∷ []) in
        let buf = splice buf 1 ((len / 256) ∷ (len % 256) ∷ []) in
        let buf = splice buf 3 (take copy_len payload) in
        let (bytes, s) = rng.fill_bytes s (cell_len - (3 + copy_len)) in
        (splice buf (3 + copy_len) bytes, s)

    pub encode_dummy_cell : S → Cell × S
    encode_dummy_cell s =
        let buf = splice zeroed 0 (to_u8 drop_cell ∷ []) in
        let (bytes, s) = rng.fill_bytes s (cell_len - 1) in (splice buf 1 bytes, s)

    -- The cell of this slot, and the emitter without it, the slot not yet counted.
    pub choose_cell : ConstantRateEmitter S → Cell × ConstantRateEmitter S
    choose_cell e = elim e.cell_queue [
      | cell ∷ cells ↦ (cell, record e { cell_queue = cells })
      | [] ↦ elim e.queue [
        | payload ∷ payloads ↦
            (let (cell, s) = encode_data_cell payload e.rng in
              (cell, record e { queue = payloads; rng = s }))
        | [] ↦ (let (cell, s) = encode_dummy_cell e.rng in (cell, record e { rng = s }))
      ]
    ]

    pub next_cell : ConstantRateEmitter S → (ℕ × Cell) × ConstantRateEmitter S
    next_cell e =
        let (cell, e') = choose_cell e in
        ((e.tick, cell), record e' { tick = (e.tick + 1) % 2 ^ 64 })
