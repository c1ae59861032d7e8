-- ===== src/Client/Emitter/Tests.antt =====
-- The emitter's theorems on a small emitter whose generator repeats one byte.
use anonymous.Cell.{Cell}
use anonymous.Common.{ℕ, ◌≡◌, List, [], ◌∷◌, map, arith, length-replicate, replicate}
use anonymous.Client.Emitter.{ConstantRateEmitter, Filler, pending_emissions}
use anonymous.Client.Emitter.Backlog.{
  Event, enqueues, enqueues_cell, drops_newest, slot, run, IsWithin, run-IsWithin,
}
use anonymous.Client.Emitter.Cells.{slots, payload_of}
use anonymous.Client.Emitter.Order.{slots-Order}

abbrev rng : Filler ℕ
rng = record {
  fill_bytes = λ s n. (replicate n s, s);
  length-fill_bytes = λ s n. length-replicate {A = ℕ} n s;
}

abbrev emitter : ConstantRateEmitter ℕ
emitter = record {
  max_backlog = 3;
  queue = (104 ∷ 105 ∷ []) ∷ [];
  cell_queue = replicate 512 6 ∷ [];
  tick = 0;
  dropped_enqueue_count = 0;
  rng = 9;
}

abbrev events : List Event
events =
    enqueues (1 ∷ [])
    ∷ enqueues (2 ∷ [])
    ∷ drops_newest (3 ∷ [])
    ∷ slot
    ∷ enqueues_cell (replicate 512 7)
    ∷ []

run-IsWithin_example :
    IsWithin rng (run rng emitter events) × ((run rng emitter events).max_backlog ≡ 3)
unfolding pending_emissions
run-IsWithin_example = run-IsWithin rng events emitter (omega arith)

slots-Order_example :
    let (first, e') = slots rng 1 emitter in
    (map (λ (out : ℕ × Cell). out.1) first ≡ replicate 512 6 ∷ [])
    × (map (λ (out : ℕ × Cell). payload_of rng out.1) (slots rng 1 e').0 ≡ (104 ∷ 105 ∷ []) ∷ [])
slots-Order_example = slots-Order rng emitter (omega arith, tt)
