-- ===== src/Replay/Epochs.antt =====
-- Histories of calls on one replay cache: what is rejected, for how long, and what an epoch
-- advance or a rollover forgets.
use anonymous.Common.{
  ℕ, ◌+◌, ◌<◌, ◌≡◌, ◌∙◌, true, false, List, [], ◌∷◌, arith, length, length-append,
}
use anonymous.Replay.{
  CtEq, ReplayTag, ReplayCache, min_capacity_for_pressure_advance, set_contains, with_capacity,
  clear, advance_epoch, insert_tag, scan, ct_contains, advance_under_pressure, make_room,
  check_and_insert,
}
use anonymous.Replay.Window.{
  window_insert, Holds, Recent, window_insert-contains, window_insert-Recent, window_insert-last,
  Recent-contains,
}
use anonymous.Replay.Refinement.{
  threshold, check_and_insert-capacity, advance_epoch-Holds, check_and_insert-Holds,
  ct_contains-set_contains,
}

pub data Operation : Type 0 where
  inserts : ReplayTag → Operation
  advances clears : Operation

module _ {F : Type 0} where
  pub with_capacity-Holds :
      (ratio : F) (capacity : ℕ) → 0 < capacity → Holds (with_capacity ratio capacity) []
  unfolding with_capacity
  with_capacity-Holds ratio capacity h = ground arith

  pub clear-Holds : (c : ReplayCache F) (w : List ReplayTag) → Holds c w → Holds (clear c) []
  unfolding clear
  clear-Holds c w h = ground arith

module _ (subtle : CtEq) {F : Type 0} (fill_threshold : ℕ → F → ℕ) where
  unfoldable pub step : ReplayCache F → Operation → ReplayCache F
  step c (inserts tag) = (check_and_insert subtle fill_threshold c tag).0
  step c advances = advance_epoch c
  step c clears = clear c

  unfoldable pub run : ReplayCache F → List Operation → ReplayCache F
  run c [] = c
  run c (o ∷ os) = run (step c o) os

  step-Holds :
      (c : ReplayCache F) (w : List ReplayTag) (o : Operation)
      → Holds c w
      → (w' : List ReplayTag) × Holds (step c o) w'
  unfolding step
  step-Holds c w (inserts tag) h = (
    (window_insert c.capacity (threshold subtle fill_threshold c) w tag).0,
    (check_and_insert-Holds subtle fill_threshold c w tag h).0,
  )
  step-Holds c w advances h = ([], (advance_epoch-Holds c w h).0)
  step-Holds c w clears h = ([], clear-Holds c w h)

  -- After any history of insertions, advances and rollovers on a cache that holds a window, the
  -- cache holds a window: no tag twice, no more than `capacity` of them, and the four containers
  -- agree, with every tag in the one current generation.
  pub run-Holds :
      (os : List Operation) (c : ReplayCache F) (w : List ReplayTag)
      → Holds c w
      → (w' : List ReplayTag) × Holds (run c os) w'
  unfolding run
  run-Holds [] c w h = (w, h)
  run-Holds (o ∷ os) c w h = let (w', h') = step-Holds c w o h in run-Holds os (step c o) w' h'

  -- A tag that was just presented is rejected when it is presented again.
  pub check_and_insert_twice :
      (c : ReplayCache F) (w : List ReplayTag) (tag : ReplayTag)
      → Holds c w
      → let c' = (check_and_insert subtle fill_threshold c tag).0 in
        check_and_insert subtle fill_threshold c' tag ≡ (c', false)
  unfolding check_and_insert
  check_and_insert_twice c w tag h =
      let k = check_and_insert-Holds subtle fill_threshold c w tag h in
      let s = window_insert c.capacity (threshold subtle fill_threshold c) w tag in
      rw (
        ct_contains-set_contains subtle (check_and_insert subtle fill_threshold c tag).0 s.0 tag k.0
        ∙ window_insert-contains c.capacity (threshold subtle fill_threshold c) w tag)

  -- A cache of capacity 0 accepts every tag, replays included, and records each.
  pub check_and_insert_unbounded :
      (c : ReplayCache F) (tag : ReplayTag)
      → c.capacity ≡ 0
      → ((check_and_insert subtle fill_threshold c tag).1 ≡ true)
        × (length (check_and_insert subtle fill_threshold c tag).0.order ≡ length c.order + 1)
  unfolding check_and_insert ct_contains scan insert_tag make_room advance_under_pressure
  check_and_insert_unbounded c tag h =
      ground (arith, length-append c.order ((c.generation, tag) ∷ []))

  -- On a cache that holds a window: after an advance the cache accepts any tag, also one that it
  -- rejected right before.
  pub advance_epoch_forgets :
      (c : ReplayCache F) (w : List ReplayTag) (tag : ReplayTag)
      → Holds c w
      → (check_and_insert subtle fill_threshold (advance_epoch c) tag).1 ≡ true
  unfolding set_contains window_insert
  advance_epoch_forgets c w tag h =
      let k = advance_epoch-Holds c w h in
      ground (arith, check_and_insert-Holds subtle fill_threshold (advance_epoch c) [] tag k.0)

  -- The tags of the list are inserted one after the other.
  unfoldable pub insert_all : ReplayCache F → List ReplayTag → ReplayCache F
  insert_all c [] = c
  insert_all c (t ∷ ts) = insert_all (check_and_insert subtle fill_threshold c t).0 ts

  insert_all-Recent :
      (ts : List ReplayTag) (c : ReplayCache F) (w : List ReplayTag) (n : ℕ) (tag : ReplayTag)
      → Holds c w
      → Recent n tag w
      → c.capacity < min_capacity_for_pressure_advance
      → n + length ts < c.capacity
      → ct_contains subtle (insert_all c ts) tag ≡ true
  unfolding insert_all
  insert_all-Recent [] c w n tag h r small room =
      ct_contains-set_contains subtle c w tag h ∙ Recent-contains n tag w r
  insert_all-Recent (t ∷ ts) c w n tag h r small room =
      let e = check_and_insert-capacity subtle fill_threshold c w t h in
      insert_all-Recent ts (check_and_insert subtle fill_threshold c t).0
        (window_insert c.capacity (threshold subtle fill_threshold c) w t).0 (n + 1) tag
        (check_and_insert-Holds subtle fill_threshold c w t h).0
        (window_insert-Recent c.capacity (threshold subtle fill_threshold c) n tag t w small
          (omega arith) r)
        (omega (arith, e)) (omega (arith, e))

  -- On a cache that holds a window and whose capacity is below 1024, a tag that was accepted stays
  -- rejected while fewer than `capacity` further tags are presented, whatever they are.
  pub accepted_stays_rejected :
      (c : ReplayCache F) (w : List ReplayTag) (tag : ReplayTag) (ts : List ReplayTag)
      → Holds c w
      → c.capacity < min_capacity_for_pressure_advance
      → (check_and_insert subtle fill_threshold c tag).1 ≡ true
      → length ts < c.capacity
      → (check_and_insert subtle fill_threshold
          (insert_all (check_and_insert subtle fill_threshold c tag).0 ts)
          tag).1
        ≡ false
  unfolding check_and_insert
  accepted_stays_rejected c w tag ts h small accepted few =
      let k = check_and_insert-Holds subtle fill_threshold c w tag h in
      let s = window_insert c.capacity (threshold subtle fill_threshold c) w tag in
      let e = check_and_insert-capacity subtle fill_threshold c w tag h in
      rw (
        insert_all-Recent ts (check_and_insert subtle fill_threshold c tag).0 s.0 0 tag k.0
          (window_insert-last c.capacity (threshold subtle fill_threshold c) w tag (cc (k.1)))
          (omega (arith, e)) (omega (arith, e)))
