-- ===== src/Replay.antt =====
-- crates/aegis-crypto/src/replay.rs: the per-epoch replay cache.
--
-- A `HashSet` is the list of its elements in the order of insertion, each once; a `VecDeque` is a
-- list with its front first; `by_generation` is an association list. The comparison `ct_eq` of the
-- crate `subtle` is a parameter, and so is the product of `capacity` and the fill ratio, which the
-- source takes in `f64` and rounds (`fill_threshold`).
pub mod Window
pub mod Refinement
pub mod Epochs
mod Tests
use anonymous.Common.Maps.{lookup, insert, remove}
use anonymous.Common.{
  ℕ, zero, suc, ◌+◌, ◌%◌, ◌^◌, ◌↔◌, ◌≡◌, Bool, true, false, not, ◌&&◌, ◌||◌, Option, none, some,
  List, [], ◌∷◌, ◌++◌, length, get_elem?, replicate, ltb, leb, ◌==◌, if◌then◌else◌, bytes_eq,
}

-- A 32-byte tag.
abbrev pub ReplayTag : Type 0
ReplayTag = List ℕ

abbrev pub default_replay_cache_capacity : ℕ
default_replay_cache_capacity = 1_000_000

abbrev pub default_max_generations : ℕ
default_max_generations = 4

abbrev pub min_capacity_for_pressure_advance : ℕ
min_capacity_for_pressure_advance = 1024

pub ct_scan_dummy : ReplayTag
ct_scan_dummy = replicate 32 0

-- What the scan relies on in `subtle::ConstantTimeEq`: it decides equality.
pub record CtEq : Type 0 where
  pub ct_eq : List ℕ → List ℕ → Bool
  pub ct_eq_iff : (a b : List ℕ) → (ct_eq a b ≡ true) ↔ (a ≡ b)

-- `F` is the type of the fill ratio.
pub record ReplayCache (F : Type 0) : Type 0 where
  pub seen : List ReplayTag
  pub order : List (ℕ × ReplayTag)
  pub by_generation : List (ℕ × List ReplayTag)
  pub active_generations : List ℕ
  pub capacity : ℕ
  pub generation : ℕ
  pub max_generations : ℕ
  pub auto_advance_fill_ratio : F

-- `HashSet::contains`, `insert` and `remove`.
pub set_contains : ReplayTag → List ReplayTag → Bool
set_contains t [] = false
set_contains t (x ∷ xs) = bytes_eq x t || set_contains t xs

pub set_insert : ReplayTag → List ReplayTag → List ReplayTag
set_insert t xs = if set_contains t xs then xs else xs ++ (t ∷ [])

pub set_remove : ReplayTag → List ReplayTag → List ReplayTag
set_remove t [] = []
set_remove t (x ∷ xs) = if bytes_eq x t then xs else x ∷ set_remove t xs

-- `for tag in tags { self.seen.remove(&tag) }`.
pub set_remove_all : List ReplayTag → List ReplayTag → List ReplayTag
set_remove_all [] seen = seen
set_remove_all (t ∷ ts) seen = set_remove_all ts (set_remove t seen)

-- `active_generations.retain(|&g| g != gen)` and `order.retain(|(g, _)| *g != gen)`.
pub retain_active : ℕ → List ℕ → List ℕ
retain_active gen [] = []
retain_active gen (g ∷ gs) = if g == gen then retain_active gen gs else g ∷ retain_active gen gs

pub retain_order : ℕ → List (ℕ × ReplayTag) → List (ℕ × ReplayTag)
retain_order gen [] = []
retain_order gen ((g, t) ∷ rest) =
    if g == gen then retain_order gen rest else (g, t) ∷ retain_order gen rest

module _ {F : Type 0} where
  pub with_capacity : F → ℕ → ReplayCache F
  with_capacity default_ratio capacity = record {
    seen = [];
    order = [];
    by_generation = [];
    active_generations = [];
    capacity = capacity;
    generation = 0;
    max_generations = default_max_generations;
    auto_advance_fill_ratio = default_ratio;
  }

  pub clear : ReplayCache F → ReplayCache F
  clear c = record c {
    seen = [];
    order = [];
    by_generation = [];
    active_generations = [];
    generation = 0;
  }

  pub drop_generation : ℕ → ReplayCache F → ReplayCache F
  drop_generation gen c = record c {
    seen = elim (lookup gen c.by_generation) [
      | none ↦ c.seen
      | some tags ↦ set_remove_all tags c.seen
    ];
    order = retain_order gen c.order;
    by_generation = remove gen c.by_generation;
    active_generations = retain_active gen c.active_generations;
  }

  -- The `if let Some(old_gen) = self.active_generations.pop_front()` of `advance_epoch`.
  pub drop_front_generation : ReplayCache F → List ℕ → ReplayCache F
  drop_front_generation c [] = c
  drop_front_generation c (old_gen ∷ rest) =
      drop_generation old_gen (record c { active_generations = rest })

  -- Its `while`: a round for each generation beyond `max_generations`.
  pub drop_excess : ℕ → ReplayCache F → ReplayCache F
  drop_excess zero c = c
  drop_excess (suc fuel) c = elim (ltb c.max_generations (length c.active_generations)) [
    | true ↦ drop_excess fuel (drop_front_generation c c.active_generations)
    | false ↦ c
  ]

  -- The new generation number, behind those that are still active.
  pub push_generation : ReplayCache F → ReplayCache F
  push_generation c = record c {
    generation = (c.generation + 1) % 2 ^ 32;
    active_generations = c.active_generations ++ (((c.generation + 1) % 2 ^ 32) ∷ []);
  }

  -- Each round of the `while` drops one generation, so their number is enough rounds.
  pub advance_epoch : ReplayCache F → ReplayCache F
  advance_epoch c =
      let c' = push_generation (drop_front_generation c c.active_generations) in
      drop_excess (length c'.active_generations) c'

  pub insert_tag : ReplayTag → ReplayCache F → ReplayCache F
  insert_tag tag c = record c {
    active_generations = elim c.active_generations [ [] ↦ c.generation ∷ [] | g ∷ gs ↦ g ∷ gs ];
    seen = set_insert tag c.seen;
    order = c.order ++ ((c.generation, tag) ∷ []);
    by_generation =
        insert c.generation
          (elim (lookup c.generation c.by_generation) [
            | none ↦ set_insert tag []
            | some tags ↦ set_insert tag tags
          ])
          c.by_generation;
  }

  -- The body of `if let Some(gen_set) = self.by_generation.get_mut(&gen)`, once the set is smaller.
  pub shrink_generation : ℕ → List ReplayTag → ReplayCache F → ReplayCache F
  shrink_generation gen [] c = record c {
    by_generation = remove gen c.by_generation;
    active_generations = retain_active gen c.active_generations;
  }
  shrink_generation gen (t ∷ ts) c = record c {
    by_generation = insert gen (t ∷ ts) c.by_generation;
  }

  pub remove_tag_from_generation : ℕ → ReplayTag → ReplayCache F → ReplayCache F
  remove_tag_from_generation gen tag c =
      let c' = record c { seen = set_remove tag c.seen } in
      elim (lookup gen c.by_generation) [
        | none ↦ c'
        | some gen_set ↦ shrink_generation gen (set_remove tag gen_set) c'
      ]

  -- `if let Some((gen, oldest)) = self.order.pop_front()`.
  pub evict_oldest : ReplayCache F → List (ℕ × ReplayTag) → ReplayCache F
  evict_oldest c [] = c
  evict_oldest c ((gen, oldest) ∷ rest) =
      remove_tag_from_generation gen oldest (record c { order = rest })

module _ (subtle : CtEq) where
  -- One slot of the scan: the entry if the slot is active, the dummy otherwise.
  pub scan_slot : ReplayTag → List (ℕ × ReplayTag) → ℕ → Bool
  scan_slot tag order i = elim (get_elem? order i) [
    | none ↦ subtle.ct_eq tag ct_scan_dummy && false
    | some e ↦ subtle.ct_eq tag e.1 && true
  ]

  -- `for i in 0..self.capacity`, with `n` slots left from `i` on.
  pub scan : ReplayTag → List (ℕ × ReplayTag) → ℕ → ℕ → Bool → Bool
  scan tag order zero i found = found
  scan tag order (suc n) i found = scan tag order n (i + 1) (found || scan_slot tag order i)

module _ (subtle : CtEq) {F : Type 0} where
  pub ct_contains : ReplayCache F → ReplayTag → Bool
  ct_contains c tag = scan subtle tag c.order c.capacity 0 false

  module _ (fill_threshold : ℕ → F → ℕ) where
    -- The first guard: advance before the fill ratio is passed.
    pub advance_under_pressure : ReplayCache F → ReplayCache F
    advance_under_pressure c =
        if ltb 0 c.capacity
          && (leb min_capacity_for_pressure_advance c.capacity
              && leb (fill_threshold c.capacity c.auto_advance_fill_ratio) (length c.seen))
        then advance_epoch c
        else c

    -- The second guard: at capacity, advance a large cache, then evict the oldest tag.
    pub make_room : ReplayCache F → ReplayCache F
    make_room c =
        if ltb 0 c.capacity && leb c.capacity (length c.seen)
        then (let c' =
              (if leb min_capacity_for_pressure_advance c.capacity then advance_epoch c else c) in
            if leb c'.capacity (length c'.seen) then evict_oldest c' c'.order else c')
        else c

    pub check_and_insert : ReplayCache F → ReplayTag → ReplayCache F × Bool
    check_and_insert c tag =
        if ct_contains c tag
        then (c, false)
        else (insert_tag tag (make_room (advance_under_pressure c)), true)
