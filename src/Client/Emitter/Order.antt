-- ===== src/Client/Emitter/Order.antt =====
-- In which order the queued cells and payloads go out.
use anonymous.Cell.{Cell}
use anonymous.Common.Sums.{All}
use anonymous.Common.{ℕ, ◌+◌, ◌%◌, ◌^◌, ◌≤◌, ◌≡◌, refl, ap, ◌∙◌, List, [], ◌∷◌, map, length}
use anonymous.Client.Emitter.{
  ConstantRateEmitter, Filler, max_cell_payload, choose_cell, next_cell, encode_data_cell,
}
use anonymous.Client.Emitter.Cells.{slots, payload_of, payload_of-encode_data_cell}

module _ {S : Type 0} (rng : Filler S) where
  drained :
      (most : ℕ) (queue : List (List ℕ)) (cells : List Cell) (tick dropped : ℕ) (s : S)
      → let e : ConstantRateEmitter S = record {
        max_backlog = most;
        queue = queue;
        cell_queue = cells;
        tick = tick;
        dropped_enqueue_count = dropped;
        rng = s;
      } in
        (map (λ (out : ℕ × Cell). out.1) (slots rng (length cells) e).0 ≡ cells)
        × ((slots rng (length cells) e).1.cell_queue ≡ [])
        × ((slots rng (length cells) e).1.queue ≡ queue)
  unfolding slots next_cell choose_cell
  drained most queue [] tick dropped s = (refl, refl, refl)
  drained most queue (c ∷ cells) tick dropped s =
      let (out, c', q') = drained most queue cells ((tick + 1) % 2 ^ 64) dropped s in
      (ap (◌∷◌ c) out, c', q')

  paid :
      (most : ℕ) (queue : List (List ℕ)) (tick dropped : ℕ) (s : S)
      → All (λ payload. length payload ≤ max_cell_payload) queue
      → let e : ConstantRateEmitter S = record {
        max_backlog = most;
        queue = queue;
        cell_queue = [];
        tick = tick;
        dropped_enqueue_count = dropped;
        rng = s;
      } in
        map (λ (out : ℕ × Cell). payload_of rng out.1) (slots rng (length queue) e).0 ≡ queue
  unfolding slots next_cell choose_cell
  paid most [] tick dropped s a = refl
  paid most (q ∷ queue) tick dropped s (fits, a) =
      let s' = (encode_data_cell rng q s).1 in
      ap
        (λ x.
          x
          ∷ map (λ (out : ℕ × Cell). payload_of rng out.1)
              (slots rng (length queue) (record {
                max_backlog = most;
                queue = queue;
                cell_queue = [];
                tick = (tick + 1) % 2 ^ 64;
                dropped_enqueue_count = dropped;
                rng = s';
              })).0)
        (payload_of-encode_data_cell rng q s fits)
      ∙ ap (◌∷◌ q) (paid most queue ((tick + 1) % 2 ^ 64) dropped s' a)

  -- With payloads queued that fit into a cell: the ready cells go out first, each as it was queued
  -- and in its order, one a slot. The slots behind them carry the payloads, each readable from its
  -- cell, in the order of their queue.
  pub slots-Order :
      (e : ConstantRateEmitter S)
      → All (λ payload. length payload ≤ max_cell_payload) e.queue
      → let (first, e') = slots rng (length e.cell_queue) e in
        (map (λ (out : ℕ × Cell). out.1) first ≡ e.cell_queue)
        × (map (λ (out : ℕ × Cell). payload_of rng out.1) (slots rng (length e.queue) e').0
            ≡ e.queue)
  slots-Order e a =
      let (out, c', q') =
        drained e.max_backlog e.queue e.cell_queue e.tick e.dropped_enqueue_count e.rng in
      let e' = (slots rng (length e.cell_queue) e).1 in
      let run : List (List ℕ) → List Cell → List (List ℕ) = λ queue cells.
        map (λ (out : ℕ × Cell). payload_of rng out.1)
          (slots rng (length e.queue) (record {
            max_backlog = e'.max_backlog;
            queue = queue;
            cell_queue = cells;
            tick = e'.tick;
            dropped_enqueue_count = e'.dropped_enqueue_count;
            rng = e'.rng;
          })).0 in
      (
        out,
        ap (λ q. run q e'.cell_queue) q'
            ∙ ap (run e.queue) c'
            ∙ paid e'.max_backlog e.queue e'.tick e'.dropped_enqueue_count e'.rng a,
      )
