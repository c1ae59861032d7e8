-- ===== src/Replay/Refinement.antt =====
-- The operations of the replay cache against their effects on the window.
use anonymous.Common.{
  ℕ, zero, suc, Bool-cases, inl, inr, ◌+◌, ◌%◌, ◌^◌, ◌≤◌, ◌<◌, ◌≡◌, refl, Bool, false, ◌||◌, List,
  [], ◌∷◌, ◌++◌, arith, length, drop, bytes_eq, bytes_eq_refl, bytes_eq_iff, length-append,
  get_elem?-drop, tail-drop,
}
use anonymous.Common.Maps.{lookup, insert, remove}
use anonymous.Replay.{
  CtEq, ReplayTag, ReplayCache, set_contains, set_insert, set_remove, set_remove_all, retain_active,
  retain_order, drop_generation, drop_front_generation, drop_excess, push_generation, advance_epoch,
  insert_tag, shrink_generation, remove_tag_from_generation, evict_oldest, scan_slot, scan,
  ct_contains, advance_under_pressure, make_room, check_and_insert,
}
use anonymous.Replay.Window.{
  retained, retained-room, window_insert, stamped, Holds, append-Distinct, stamped-append,
}

module _ (subtle : CtEq) where
  ct_eq-bytes_eq : (a b : ReplayTag) → subtle.ct_eq a b ≡ bytes_eq b a
  ct_eq-bytes_eq a b = ground (arith, subtle.ct_eq_iff a b, bytes_eq_iff b a)

  -- The scan finds a tag exactly if a slot that is left holds it, whatever the fill level.
  scan_lem :
      (tag : ReplayTag) (order : List (ℕ × ReplayTag)) (n i : ℕ) (found : Bool) (g : ℕ)
      (rest : List ReplayTag)
      → drop i order ≡ stamped g rest
      → length rest ≤ n
      → scan subtle tag order n i found ≡ (found || set_contains tag rest)
  unfolding scan scan_slot set_contains
  scan_lem tag order zero i found g [] e h = ground arith
  scan_lem tag order zero i found g (t ∷ rest) e h = absurd (omega arith)
  scan_lem tag order (suc n) i found g [] e h = ground (
    arith,
    get_elem?-drop i order,
    tail-drop i order,
    scan_lem tag order n (i + 1) (found || scan_slot subtle tag order i) g [],
  )
  scan_lem tag order (suc n) i found g (t ∷ rest) e h = ground (
    arith,
    get_elem?-drop i order,
    tail-drop i order,
    ct_eq-bytes_eq tag t,
    scan_lem tag order n (i + 1) (found || scan_slot subtle tag order i) g rest,
  )

  pub ct_contains-set_contains :
      {F : Type 0} (c : ReplayCache F) (w : List ReplayTag) (tag : ReplayTag)
      → Holds c w
      → ct_contains subtle c tag ≡ set_contains tag w
  unfolding ct_contains
  ct_contains-set_contains c w tag h =
      scan_lem tag c.order c.capacity 0 false c.generation w h.order h.bounded

set_remove_self : (t : ReplayTag) (ts : List ReplayTag) → set_remove t (t ∷ ts) ≡ ts
unfolding set_remove
set_remove_self t ts = ground (arith, bytes_eq_refl t)

set_remove_all_self : (w : List ReplayTag) → set_remove_all w w ≡ []
unfolding set_remove_all
set_remove_all_self [] = refl
set_remove_all_self (t ∷ ts) = ground (arith, set_remove_self t ts, set_remove_all_self ts)

retain_order-stamped : (g : ℕ) (w : List ReplayTag) → retain_order g (stamped g w) ≡ []
unfolding retain_order
retain_order-stamped g [] = refl
retain_order-stamped g (t ∷ ts) = ground (arith, retain_order-stamped g ts)

module _ {F : Type 0} where
  -- Dropping the one active generation leaves nothing behind.
  drop_front-Holds :
      (c : ReplayCache F) (w : List ReplayTag)
      → Holds c w
      → Holds (drop_front_generation c c.active_generations) []
        × ((drop_front_generation c c.active_generations).active_generations ≡ [])
  unfolding drop_front_generation drop_generation lookup remove retain_active retain_order
  drop_front-Holds c [] h = ground arith
  drop_front-Holds c (t ∷ ts) h =
      ground (arith, retain_order-stamped c.generation ts, set_remove_all_self (t ∷ ts))

  drop_front_keeps :
      (c : ReplayCache F) (gs : List ℕ)
      → let d = drop_front_generation c gs in
        (d.generation ≡ c.generation)
        × (d.capacity ≡ c.capacity)
        × (d.max_generations ≡ c.max_generations)
        × (d.auto_advance_fill_ratio ≡ c.auto_advance_fill_ratio)
  unfolding drop_front_generation drop_generation
  drop_front_keeps c [] = (refl, refl, refl, refl)
  drop_front_keeps c (g ∷ gs) = (refl, refl, refl, refl)

  drop_excess_one :
      (n g : ℕ) (c : ReplayCache F)
      → c.active_generations ≡ g ∷ []
      → 0 < c.max_generations
      → drop_excess n c ≡ c
  unfolding drop_excess
  drop_excess_one zero g c e h = refl
  drop_excess_one (suc n) g c e h = ground arith

  -- One advance forgets the whole window, since all of it is in the one active generation.
  pub advance_epoch-Holds :
      (c : ReplayCache F) (w : List ReplayTag)
      → Holds c w
      → Holds (advance_epoch c) []
        × ((advance_epoch c).generation ≡ (c.generation + 1) % 2 ^ 32)
        × ((advance_epoch c).capacity ≡ c.capacity)
        × ((advance_epoch c).auto_advance_fill_ratio ≡ c.auto_advance_fill_ratio)
  unfolding advance_epoch push_generation
  advance_epoch-Holds c w h =
      let d = drop_front_generation c c.active_generations in
      ground (
        arith,
        drop_front-Holds c w h,
        drop_front_keeps c c.active_generations,
        drop_excess_one (length (push_generation d).active_generations)
            (push_generation d).generation (push_generation d),
      )

  pub evict_oldest-Holds :
      (c : ReplayCache F) (t : ReplayTag) (w : List ReplayTag)
      → Holds c (t ∷ w)
      → Holds (evict_oldest c c.order) w × ((evict_oldest c c.order).capacity ≡ c.capacity)
  unfolding evict_oldest remove_tag_from_generation shrink_generation lookup remove insert
      retain_active
  evict_oldest-Holds c t [] h = ground (arith, set_remove_self t [])
  evict_oldest-Holds c t (u ∷ w) h = ground (arith, set_remove_self t (u ∷ w))

  pub insert_tag-Holds :
      (c : ReplayCache F) (t : ReplayTag) (w : List ReplayTag)
      → Holds c w
      → set_contains t w ≡ false
      → length w < c.capacity
      → Holds (insert_tag t c) (w ++ (t ∷ []))
  unfolding insert_tag set_insert lookup insert
  insert_tag-Holds c t [] h fresh room = ground arith
  insert_tag-Holds c t (u ∷ w) h fresh room = ground (
    arith,
    stamped-append c.generation t w,
    append-Distinct t (u ∷ w) fresh h.distinct,
    length-append w (t ∷ []),
  )

module _ (subtle : CtEq) {F : Type 0} (fill_threshold : ℕ → F → ℕ) where
  abbrev pub threshold : ReplayCache F → ℕ
  threshold c = fill_threshold c.capacity c.auto_advance_fill_ratio

  make_room-Holds :
      (c : ReplayCache F) (w : List ReplayTag)
      → Holds c w
      → let d = make_room subtle fill_threshold (advance_under_pressure subtle fill_threshold c) in
        Holds d (retained c.capacity (threshold c) w) × (d.capacity ≡ c.capacity)
  unfolding make_room advance_under_pressure retained
  make_room-Holds c [] h = ground (arith, advance_epoch-Holds c [] h)
  make_room-Holds c (t ∷ w) h =
      ground (arith, advance_epoch-Holds c (t ∷ w) h, evict_oldest-Holds c t w h)

  -- A tag that is refused leaves the cache as it is.
  pub check_and_insert-refused :
      (c : ReplayCache F) (tag : ReplayTag)
      → (check_and_insert subtle fill_threshold c tag).1 ≡ false
      → check_and_insert subtle fill_threshold c tag ≡ (c, false)
  unfolding check_and_insert
  check_and_insert-refused c tag h = elim (Bool-cases (ct_contains subtle c tag)) [
    | inl seen ↦ rw seen refl
    | inr fresh ↦ absurd (ground (arith, fresh, h))
  ]

  -- On a cache that holds the window `w`, `check_and_insert` answers as the window does and holds
  -- the window's successor afterwards.
  pub check_and_insert-Holds :
      (c : ReplayCache F) (w : List ReplayTag) (tag : ReplayTag)
      → Holds c w
      → let r = check_and_insert subtle fill_threshold c tag in
        let s = window_insert c.capacity (threshold c) w tag in Holds r.0 s.0 × (r.1 ≡ s.1)
  unfolding check_and_insert window_insert
  check_and_insert-Holds c w tag h =
      let d = make_room subtle fill_threshold (advance_under_pressure subtle fill_threshold c) in
      ground (
        arith,
        ct_contains-set_contains subtle c w tag h,
        make_room-Holds c w h,
        retained-room c.capacity (threshold c) w tag h.positive h.bounded,
        insert_tag-Holds d tag (retained c.capacity (threshold c) w),
      )

  pub check_and_insert-capacity :
      (c : ReplayCache F) (w : List ReplayTag) (tag : ReplayTag)
      → Holds c w
      → (check_and_insert subtle fill_threshold c tag).0.capacity ≡ c.capacity
  unfolding check_and_insert insert_tag
  check_and_insert-capacity c w tag h = ground (arith, make_room-Holds c w h)
