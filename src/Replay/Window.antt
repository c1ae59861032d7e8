-- ===== src/Replay/Window.antt =====
-- The contract of the replay cache: a window of the tags that it still rejects, oldest first.
use anonymous.Common.{
  ℕ, ◌+◌, ◌≤◌, ◌<◌, ◌≡◌, refl, ap, ◌⊎◌, Bool, true, false, ◌||◌, List, [], ◌∷◌, ◌++◌, arith, tests,
  Bool-cases, inl, inr, length, tail, leb, if◌then◌else◌, bytes_eq, bytes_eq_refl, bytes_eq_iff,
  length-append,
}
use mathlib.Core.List.{append_assoc}
use anonymous.Replay.{ReplayTag, ReplayCache, min_capacity_for_pressure_advance, set_contains}

-- What stays in the window when a fresh tag arrives: a large cache that has reached its threshold
-- or its capacity forgets everything, a small one at capacity its oldest tag.
unfoldable pub retained : ℕ → ℕ → List ReplayTag → List ReplayTag
retained capacity threshold w =
    if leb min_capacity_for_pressure_advance capacity
    then (if leb threshold (length w) || leb capacity (length w) then [] else w)
    else (if leb capacity (length w) then tail w else w)

unfoldable pub window_insert : ℕ → ℕ → List ReplayTag → ReplayTag → List ReplayTag × Bool
unfolding retained
window_insert capacity threshold w tag =
    if set_contains tag w then (w, false) else (retained capacity threshold w ++ (tag ∷ []), true)

-- No tag stands twice in the list.
abbrev pub Distinct : List ReplayTag → Type 0
Distinct [] = Unit {0}
Distinct (t ∷ ts) = (set_contains t ts ≡ false) × Distinct ts

abbrev pub stamped : ℕ → List ReplayTag → List (ℕ × ReplayTag)
stamped g [] = []
stamped g (t ∷ ts) = (g, t) ∷ stamped g ts

abbrev pub batch : ℕ → List ReplayTag → List (ℕ × List ReplayTag)
batch g [] = []
batch g (t ∷ ts) = (g, t ∷ ts) ∷ []

-- The cache `c` holds the window `w`, all of it in one generation.
pub record Holds {F : Type 0} (c : ReplayCache F) (w : List ReplayTag) : Type 0 where
  pub seen : c.seen ≡ w
  pub order : c.order ≡ stamped c.generation w
  pub by_generation : c.by_generation ≡ batch c.generation w
  pub active : ((c.active_generations ≡ []) × (w ≡ [])) ⊎ (c.active_generations ≡ c.generation ∷ [])
  pub distinct : Distinct w
  pub bounded : length w ≤ c.capacity
  pub positive : 0 < c.capacity
  pub retains : 0 < c.max_generations

pub set_contains-append :
    (u t : ReplayTag) (w : List ReplayTag)
    → set_contains u (w ++ (t ∷ [])) ≡ (set_contains u w || bytes_eq t u)
unfolding set_contains
set_contains-append u t [] = ground arith
set_contains-append u t (x ∷ w) = ground (arith, set_contains-append u t w)

pub append-Distinct :
    (t : ReplayTag) (w : List ReplayTag)
    → set_contains t w ≡ false
    → Distinct w
    → Distinct (w ++ (t ∷ []))
unfolding set_contains
append-Distinct t [] h d = (refl, tt)
append-Distinct t (x ∷ w) h d = (
  ground (arith, set_contains-append x t w, bytes_eq_iff t x, bytes_eq_iff x t),
  append-Distinct t w (ground arith) d.1,
)

pub stamped-append :
    (g : ℕ) (t : ReplayTag) (w : List ReplayTag)
    → stamped g (w ++ (t ∷ [])) ≡ stamped g w ++ ((g, t) ∷ [])
stamped-append g t [] = refl
stamped-append g t (x ∷ w) = ap (◌∷◌ (g, x)) (stamped-append g t w)

-- A full window has room after eviction, and eviction brings no tag in.
pub retained-room :
    (capacity threshold : ℕ) (w : List ReplayTag) (tag : ReplayTag)
    → 0 < capacity
    → length w ≤ capacity
    → set_contains tag w ≡ false
    → (length (retained capacity threshold w) < capacity)
      × (set_contains tag (retained capacity threshold w) ≡ false)
unfolding retained set_contains
retained-room capacity threshold [] tag p h f = ground arith
retained-room capacity threshold (t ∷ w) tag p h f = ground arith

-- `t` is in the window, and at most `n` tags came after it.
pub record Recent (n : ℕ) (t : ReplayTag) (w : List ReplayTag) : Type 0 where
  pub before : List ReplayTag
  pub after : List ReplayTag
  pub split : w ≡ before ++ (t ∷ after)
  pub few : length after ≤ n

Recent-tail :
    (n : ℕ) (t : ReplayTag) (before after : List ReplayTag)
    → length after ≤ n
    → n + 1 < length (before ++ (t ∷ after))
    → Recent n t (tail (before ++ (t ∷ after)))
Recent-tail n t [] after h k = absurd (omega arith)
Recent-tail n t (b ∷ before) after h k = record {
  before = before;
  after = after;
  split = refl;
  few = h;
}

Recent-append :
    (n : ℕ) (t u : ReplayTag) (w : List ReplayTag) → Recent n t w → Recent (n + 1) t (w ++ (u ∷ []))
Recent-append n t u w r = record {
  before = r.before;
  after = r.after ++ (u ∷ []);
  split = rw (r.split) (append_assoc r.before (t ∷ r.after) (u ∷ []));
  few = omega (arith, r.few, length-append r.after (u ∷ []));
}

pub Recent-weaken : (n : ℕ) (t : ReplayTag) (w : List ReplayTag) → Recent n t w → Recent (n + 1) t w
Recent-weaken n t w r = record {
  before = r.before;
  after = r.after;
  split = r.split;
  few = omega (arith, r.few);
}

retained-Recent :
    (capacity threshold n : ℕ) (t : ReplayTag) (w : List ReplayTag)
    → capacity < min_capacity_for_pressure_advance
    → n + 1 < capacity
    → Recent n t w
    → Recent n t (retained capacity threshold w)
unfolding retained
retained-Recent capacity threshold n t w small room r =
    elim (Bool-cases (leb capacity (length w))) [
      | inl full ↦
          let k : Recent n t (tail w) =
            (rw (r.split)
              (Recent-tail n t r.before r.after r.few (omega (tests, full, ap length r.split)))) in
          ground (arith, k)
      | inr spare ↦ ground arith
    ]

-- In a small window an insertion pushes a tag back by one place, and evicts it only at the front
-- of a full window.
pub window_insert-Recent :
    (capacity threshold n : ℕ) (t u : ReplayTag) (w : List ReplayTag)
    → capacity < min_capacity_for_pressure_advance
    → n + 1 < capacity
    → Recent n t w
    → Recent (n + 1) t (window_insert capacity threshold w u).0
unfolding window_insert
window_insert-Recent capacity threshold n t u w small room r =
    elim (Bool-cases (set_contains u w)) [
      | inl old ↦ rw old (Recent-weaken n t w r)
      | inr new ↦ rw new (
          Recent-append n t u (retained capacity threshold w)
            (retained-Recent capacity threshold n t w small room r))
    ]

pub Recent-contains :
    (n : ℕ) (t : ReplayTag) (w : List ReplayTag) → Recent n t w → set_contains t w ≡ true
unfolding set_contains
Recent-contains n t w r = rw (r.split) (go r.before)
  where
    go : (before : List ReplayTag) → set_contains t (before ++ (t ∷ r.after)) ≡ true
    go [] = ground (arith, bytes_eq_refl t)
    go (b ∷ before) = ground (arith, go before)

-- A tag that the window takes in, or already holds, is in its successor, at the end if it is new.
pub window_insert-contains :
    (capacity threshold : ℕ) (w : List ReplayTag) (tag : ReplayTag)
    → set_contains tag (window_insert capacity threshold w tag).0 ≡ true
unfolding window_insert
window_insert-contains capacity threshold w tag =
    ground (arith, set_contains-append tag tag (retained capacity threshold w), bytes_eq_refl tag)

pub window_insert-last :
    (capacity threshold : ℕ) (w : List ReplayTag) (tag : ReplayTag)
    → (window_insert capacity threshold w tag).1 ≡ true
    → Recent 0 tag (window_insert capacity threshold w tag).0
unfolding window_insert
window_insert-last capacity threshold w tag h = elim (Bool-cases (set_contains tag w)) [
  | inl old ↦ absurd (ground arith)
  | inr new ↦ rw new (record {
    before = retained capacity threshold w;
    after = [];
    split = refl;
    few = omega arith;
  })
]

-- An empty window takes every tag in.
pub window_insert_empty :
    (capacity threshold : ℕ) (tag : ReplayTag) → (window_insert capacity threshold [] tag).1 ≡ true
unfolding window_insert set_contains
window_insert_empty capacity threshold tag = refl

-- The window of a fresh tag.
pub window_insert-fresh :
    (capacity most : ℕ) (w : List ReplayTag) (tag : ReplayTag)
    → (window_insert capacity most w tag).1 ≡ true
    → (set_contains tag w ≡ false)
      × ((window_insert capacity most w tag).0 ≡ retained capacity most w ++ (tag ∷ []))
unfolding window_insert
window_insert-fresh capacity most w tag h = elim (Bool-cases (set_contains tag w)) [
  | inl seen ↦ absurd (ground (arith, seen, h))
  | inr fresh ↦ (fresh, rw fresh refl)
]

pub window_insert-known :
    (capacity most : ℕ) (w : List ReplayTag) (tag : ReplayTag)
    → (window_insert capacity most w tag).1 ≡ false
    → set_contains tag w ≡ true
unfolding window_insert
window_insert-known capacity most w tag h = elim (Bool-cases (set_contains tag w)) [
  | inl seen ↦ seen
  | inr fresh ↦ absurd (ground (arith, fresh, h))
]
