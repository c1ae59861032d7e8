-- ===== src/Client/Emitter/Backlog.antt =====
-- The bound on the backlog of crates/aegis-client/src/emitter.rs.
use anonymous.Cell.{Cell}
use anonymous.Common.{
  ℕ, ◌-◌, ◌≤◌, ◌≡◌, refl, ◌∙◌, inl, inr, List, [], ◌∷◌, arith, length-append, leb, Bool-cases,
}
use anonymous.Client.Emitter.{
  ConstantRateEmitter, Filler, pending_emissions, try_push_real, enqueue, enqueue_cell,
  enqueue_drop_newest, note_dropped_enqueue, choose_cell, next_cell,
}

pub data Event : Type 0 where
  enqueues drops_newest : List ℕ → Event
  enqueues_cell : Cell → Event
  notes_drop slot : Event

module _ {S : Type 0} (rng : Filler S) where
  unfoldable pub step : ConstantRateEmitter S → Event → ConstantRateEmitter S
  step e (enqueues payload) = (enqueue e payload).0
  step e (drops_newest payload) = enqueue_drop_newest e payload
  step e (enqueues_cell cell) = (enqueue_cell e cell).0
  step e notes_drop = note_dropped_enqueue e
  step e slot = (next_cell rng e).1

  unfoldable pub run : ConstantRateEmitter S → List Event → ConstantRateEmitter S
  run e [] = e
  run e (v ∷ vs) = run (step e v) vs

  abbrev pub IsWithin : ConstantRateEmitter S → Type 0
  IsWithin e = pending_emissions e ≤ e.max_backlog

  pending_of_choice :
      (most : ℕ) (queue : List (List ℕ)) (cells : List Cell) (tick dropped : ℕ) (s : S)
      → let e : ConstantRateEmitter S = record {
        max_backlog = most;
        queue = queue;
        cell_queue = cells;
        tick = tick;
        dropped_enqueue_count = dropped;
        rng = s;
      } in
        (pending_emissions (choose_cell rng e).1 ≡ pending_emissions e - 1)
        × ((choose_cell rng e).1.max_backlog ≡ most)
  unfolding pending_emissions choose_cell
  pending_of_choice most queue (c ∷ cells) tick dropped s = (omega arith, refl)
  pending_of_choice most (q ∷ queue) [] tick dropped s = (omega arith, refl)
  pending_of_choice most [] [] tick dropped s = (refl, refl)

  -- A slot takes one real cell off the backlog if there is one.
  pub pending-next_cell :
      (e : ConstantRateEmitter S)
      → (pending_emissions (next_cell rng e).1 ≡ pending_emissions e - 1)
        × ((next_cell rng e).1.max_backlog ≡ e.max_backlog)
  unfolding pending_emissions next_cell
  pending-next_cell e =
      pending_of_choice e.max_backlog e.queue e.cell_queue e.tick e.dropped_enqueue_count e.rng

  step-IsWithin :
      (e : ConstantRateEmitter S) (v : Event)
      → IsWithin e
      → IsWithin (step e v) × ((step e v).max_backlog ≡ e.max_backlog)
  unfolding step pending_emissions enqueue enqueue_cell enqueue_drop_newest note_dropped_enqueue
      try_push_real
  step-IsWithin e (enqueues payload) w =
      elim (Bool-cases (leb e.max_backlog (pending_emissions e))) [
        | inl full ↦ ground (arith, w, full)
        | inr room ↦ ground (arith, w, room, length-append e.queue (payload ∷ []))
      ]
  step-IsWithin e (enqueues_cell cell) w =
      elim (Bool-cases (leb e.max_backlog (pending_emissions e))) [
        | inl full ↦ ground (arith, w, full)
        | inr room ↦ ground (arith, w, room, length-append e.cell_queue (cell ∷ []))
      ]
  step-IsWithin e (drops_newest payload) w =
      elim (Bool-cases (leb e.max_backlog (pending_emissions e))) [
        | inl full ↦ ground (arith, w, full)
        | inr room ↦ ground (arith, w, room, length-append e.queue (payload ∷ []))
      ]
  step-IsWithin e notes_drop w = (w, refl)
  step-IsWithin e slot w = let (p, m) = pending-next_cell e in (omega (arith, p, m, w), m)

  -- Whatever is enqueued, dropped or emitted in whatever order, the backlog never passes its
  -- bound, and the bound stays what it was configured to be.
  pub run-IsWithin :
      (vs : List Event) (e : ConstantRateEmitter S)
      → IsWithin e
      → IsWithin (run e vs) × ((run e vs).max_backlog ≡ e.max_backlog)
  unfolding run
  run-IsWithin [] e w = (w, refl)
  run-IsWithin (v ∷ vs) e w =
      let (w', m) = step-IsWithin e v w in
      let (w'', m') = run-IsWithin vs (step e v) w' in (w'', m' ∙ m)
