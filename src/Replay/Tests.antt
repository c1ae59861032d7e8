-- ===== src/Replay/Tests.antt =====
-- Runs of the replay cache on small inputs, and its theorems at concrete caches.
use anonymous.Common.{
  ℕ, ◌*◌, ◌/◌, ◌≡◌, refl, true, false, List, [], ◌∷◌, arith, bytes_eq, bytes_eq_iff,
}
use anonymous.Replay.{
  CtEq, ReplayTag, ReplayCache, set_contains, with_capacity, advance_epoch, ct_scan_dummy,
  check_and_insert, clear, set_insert, set_remove, set_remove_all, retain_active, retain_order,
  drop_generation, drop_front_generation, drop_excess, push_generation, insert_tag,
  shrink_generation, remove_tag_from_generation, evict_oldest, scan_slot, scan, ct_contains,
  advance_under_pressure, make_room,
}
use anonymous.Common.Maps.{lookup, insert, remove}
use anonymous.Replay.Window.{window_insert, Holds}
use anonymous.Replay.Refinement.{threshold, check_and_insert-Holds}
use anonymous.Replay.Epochs.{
  inserts, advances, clears, run, step, insert_all, run-Holds, advance_epoch_forgets,
  accepted_stays_rejected,
}

abbrev subtle : CtEq
subtle = record { ct_eq = bytes_eq; ct_eq_iff = bytes_eq_iff }

-- The fill ratio in percent.
abbrev percent : ℕ → ℕ → ℕ
percent capacity ratio = capacity * ratio / 100

abbrev tag : ℕ → ReplayTag
tag n = n ∷ 0 ∷ []

abbrev small : ReplayCache ℕ
small = record {
  seen = [];
  order = [];
  by_generation = [];
  active_generations = [];
  capacity = 3;
  generation = 0;
  max_generations = 4;
  auto_advance_fill_ratio = 85;
}

small-Holds : Holds small []
small-Holds = ground arith

program : Unit {0}
unfolding with_capacity advance_epoch check_and_insert clear set_contains set_insert set_remove
    set_remove_all retain_active retain_order drop_generation drop_front_generation drop_excess
    push_generation insert_tag shrink_generation remove_tag_from_generation evict_oldest scan_slot
    scan ct_contains advance_under_pressure make_room ct_scan_dummy bytes_eq lookup insert remove
    run step insert_all
program = tt

-- The source's test `evicted_tag_accepted_again`.
evicted_tag_accepted_again :
    (check_and_insert subtle percent
      (insert_all subtle percent small (tag 1 ∷ tag 2 ∷ tag 3 ∷ tag 4 ∷ []))
      (tag 1)).1
    ≡ true
unfolding program
evicted_tag_accepted_again = refl

-- The source's test `advance_epoch_on_empty_cache_increments_generation_only`.
advance_on_empty : (advance_epoch (with_capacity {F = ℕ} 85 8)).generation ≡ 1
unfolding program
advance_on_empty = refl

check_and_insert-Holds_example :
    let r = check_and_insert subtle percent small (tag 1) in
    let s = window_insert 3 (threshold subtle percent small) [] (tag 1) in
    Holds r.0 s.0 × (r.1 ≡ s.1)
check_and_insert-Holds_example = check_and_insert-Holds subtle percent small [] (tag 1) small-Holds

run-Holds_example :
    (w : List ReplayTag) × Holds
      (run subtle percent small (inserts (tag 1) ∷ inserts (tag 1) ∷ advances ∷ clears ∷ []))
      w
run-Holds_example =
    run-Holds subtle percent (inserts (tag 1) ∷ inserts (tag 1) ∷ advances ∷ clears ∷ []) small []
      small-Holds

advance_epoch_forgets_example :
    (check_and_insert subtle percent (advance_epoch small) (tag 7)).1 ≡ true
advance_epoch_forgets_example = advance_epoch_forgets subtle percent small [] (tag 7) small-Holds

accepted_stays_rejected_example :
    (check_and_insert subtle percent
      (insert_all subtle percent
        (check_and_insert subtle percent small (tag 7)).0
        (tag 1 ∷ tag 2 ∷ []))
      (tag 7)).1
    ≡ false
unfolding program
accepted_stays_rejected_example =
    accepted_stays_rejected subtle percent small [] (tag 7) (tag 1 ∷ tag 2 ∷ []) small-Holds
      (omega arith) refl (omega arith)
