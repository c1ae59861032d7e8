-- ===== src/Client/Emitter/Cells.antt =====
-- The cells that the emitter makes, and the cell of one slot.
use anonymous.Cell.{Cell, cell_len, to_u8, zeroed, length-zeroed}
use anonymous.Common.Slices.{
  slice, splice, length-splice, slice-splice_same, slice-splice_below, get_or-slice, take-slice,
  slice-slice,
}
use anonymous.Common.Sums.{All}
use anonymous.Common.{
  ℕ, zero, suc, ◌+◌, ◌-◌, ◌*◌, ◌/◌, ◌%◌, ◌≤◌, ◌≡◌, refl, sym, ap, ◌∙◌, List, [], ◌∷◌, arith, length,
  get_or, take, take_all, length-take, min,
}
use anonymous.Client.Emitter.{
  ConstantRateEmitter, Filler, max_cell_payload, length_field, encode_data_cell, encode_dummy_cell,
  choose_cell, next_cell,
}

module _ {S : Type 0} (rng : Filler S) where
  pub length-encode_data_cell :
      (payload : List ℕ) (s : S) → length (encode_data_cell rng payload s).0 ≡ cell_len
  unfolding encode_data_cell to_u8
  length-encode_data_cell payload s =
      let n = min (length payload) max_cell_payload in
      let b1 = splice zeroed 0 (3 ∷ []) in
      let b2 = splice b1 1 ((length_field payload / 256) ∷ (length_field payload % 256) ∷ []) in
      let b3 = splice b2 3 (take n payload) in
      let bytes = (rng.fill_bytes s (cell_len - (3 + n))).0 in
      let l1 = length-splice zeroed 0 (3 ∷ []) (omega (arith, length-zeroed)) in
      let l2 =
        length-splice b1 1 ((length_field payload / 256) ∷ (length_field payload % 256) ∷ [])
          (omega (arith, l1, length-zeroed)) in
      let l3 =
        length-splice b2 3 (take n payload)
          (omega (arith, l1, l2, length-zeroed, length-take n payload)) in
      let l4 =
        length-splice b3 (3 + n) bytes (
          omega (arith, l1, l2, l3, length-zeroed, rng.length-fill_bytes s (cell_len - (3 + n)))) in
      omega (arith, l1, l2, l3, l4, length-zeroed)

  pub length-encode_dummy_cell : (s : S) → length (encode_dummy_cell rng s).0 ≡ cell_len
  unfolding encode_dummy_cell to_u8
  length-encode_dummy_cell s =
      let b1 = splice zeroed 0 (4 ∷ []) in
      let bytes = (rng.fill_bytes s (cell_len - 1)).0 in
      let l1 = length-splice zeroed 0 (4 ∷ []) (omega (arith, length-zeroed)) in
      let l2 =
        length-splice b1 1 bytes
          (omega (arith, l1, length-zeroed, rng.length-fill_bytes s (cell_len - 1))) in
      omega (arith, l1, l2, length-zeroed)

  -- The payload of a data cell, by its length field.
  abbrev pub payload_of : Cell → List ℕ
  payload_of cell = slice cell 3 (get_or cell 1 0 * 256 + get_or cell 2 0)

  -- A payload that fits is read back from its cell.
  pub payload_of-encode_data_cell :
      (payload : List ℕ) (s : S)
      → length payload ≤ max_cell_payload
      → payload_of (encode_data_cell rng payload s).0 ≡ payload
  unfolding encode_data_cell to_u8 slice
  payload_of-encode_data_cell payload s fits =
      let len = length payload in
      let n = min len max_cell_payload in
      let digits = (length_field payload / 256) ∷ (length_field payload % 256) ∷ [] in
      let b1 = splice zeroed 0 (3 ∷ []) in
      let b2 = splice b1 1 digits in
      let b3 = splice b2 3 (take n payload) in
      let bytes = (rng.fill_bytes s (cell_len - (3 + n))).0 in
      let b4 = splice b3 (3 + n) bytes in
      let field : length_field payload ≡ len = ground (arith, fits) in
      let same : n ≡ len = omega (arith, fits) in
      let l1 = length-splice zeroed 0 (3 ∷ []) (omega (arith, length-zeroed)) in
      let l2 = length-splice b1 1 digits (omega (arith, l1, length-zeroed)) in
      let lt = length-take n payload in
      let l3 = length-splice b2 3 (take n payload) (omega (arith, l1, l2, length-zeroed, lt)) in
      let header : slice b4 1 2 ≡ digits =
        slice-splice_below b3 (3 + n) 1 2 bytes (omega (arith, l1, l2, l3, length-zeroed, fits))
          (omega arith)
        ∙ slice-splice_below b2 3 1 2 (take n payload) (omega (arith, l1, l2, length-zeroed))
            (omega arith)
        ∙ slice-splice_same b1 1 2 digits (omega (arith, l1, length-zeroed)) refl in
      let hi : get_or b4 1 0 ≡ length_field payload / 256 =
        get_or-slice b4 1 0
        ∙ ap (λ l. get_or l 0 0) (sym (take-slice b4 1 1 2 (omega arith)) ∙ ap (take 1) header) in
      let lo : get_or b4 2 0 ≡ length_field payload % 256 =
        get_or-slice b4 2 0
        ∙ ap (λ l. get_or l 0 0)
            (sym (slice-slice b4 1 2 1 1 2 (omega arith) refl) ∙ ap (λ l. slice l 1 1) header) in
      let size : get_or b4 1 0 * 256 + get_or b4 2 0 ≡ n = omega (arith, hi, lo, field, same) in
      ap (slice b4 3) size
      ∙ slice-splice_below b3 (3 + n) 3 n bytes (omega (arith, l1, l2, l3, length-zeroed, fits))
          (omega arith)
      ∙ slice-splice_same b2 3 n (take n payload) (omega (arith, l1, l2, length-zeroed))
          (omega (arith, lt))
      ∙ take_all n payload (omega (arith, same))

  choice-Wide :
      (most : ℕ) (queue : List (List ℕ)) (cells : List Cell) (tick dropped : ℕ) (s : S)
      → All (λ cell. length cell ≡ cell_len) cells
      → let e : ConstantRateEmitter S = record {
        max_backlog = most;
        queue = queue;
        cell_queue = cells;
        tick = tick;
        dropped_enqueue_count = dropped;
        rng = s;
      } in
        (length (choose_cell rng e).0 ≡ cell_len)
        × All (λ cell. length cell ≡ cell_len) (choose_cell rng e).1.cell_queue
  unfolding choose_cell
  choice-Wide most queue (c ∷ cells) tick dropped s (h, a) = (h, a)
  choice-Wide most (q ∷ queue) [] tick dropped s a = (length-encode_data_cell q s, tt)
  choice-Wide most [] [] tick dropped s a = (length-encode_dummy_cell s, tt)

  -- `n` slots: the cells that go out, with their ticks.
  unfoldable pub slots : ℕ → ConstantRateEmitter S → List (ℕ × Cell) × ConstantRateEmitter S
  slots zero e = ([], e)
  slots (suc n) e = let (out, e) = next_cell rng e in let (rest, e) = slots n e in (out ∷ rest, e)

  -- Where the queued cells are 512 bytes long, every slot sends exactly one cell of 512 bytes,
  -- whether anything is queued or not.
  pub slots-Wide :
      (n : ℕ) (e : ConstantRateEmitter S)
      → All (λ cell. length cell ≡ cell_len) e.cell_queue
      → (length (slots n e).0 ≡ n) × All (λ (out : ℕ × Cell). length out.1 ≡ cell_len) (slots n e).0
  unfolding slots next_cell
  slots-Wide zero e a = (refl, tt)
  slots-Wide (suc n) e a =
      let (wide, rest) =
        choice-Wide e.max_backlog e.queue e.cell_queue e.tick e.dropped_enqueue_count e.rng a in
      let (l, all) = slots-Wide n (next_cell rng e).1 rest in (ap suc l, (wide, all))
