-- ===== src/Relay/FairQueue/Scans.antt =====
-- One scan of the fair queue's drain: whom it serves, and where it leaves the cursor.
use anonymous.Common.{
  ℕ, zero, suc, ◌+◌, ◌-◌, ◌%◌, ◌≤◌, ◌<◌, ◌≡◌, ◌≢◌, refl, sym, ap, ◌∙◌, ◌⊎◌, inl, inr, Option, none,
  some, [], ◌∷◌, length, get_or, set, ◌==◌, if◌then◌else◌, arith, Bool-cases,
}
use mathlib.Core.Path.{subst}
use native.Mathlib.Nat.{mod-add-mod, add-mod_right, mod-eq_of_lt}
use anonymous.Common.Sums.{All}
use anonymous.Relay.Channels.{Mpsc}
use anonymous.Relay.FairQueue.{max_peer_queue_weight, FairPeerSlot, Slots, FairHub, take_loop}
use anonymous.Relay.FairQueue.Visits.{
  get_or-set_self, get_or-set_other, length-set, All-set, All-get_or, queue_of, IsBounded,
  credits_of, allowance, VisitLaw, visit-VisitLaw, visit-cases,
}

-- Two places fewer than `n` steps apart on the ring are different.
pub ring_distinct : (a e n : ℕ) → 0 < e → e < n → a % n ≢ (a + e) % n
ring_distinct a e n pos small same = absurd (grind arith)

pub ring_lt : (a n : ℕ) → 0 < n → a % n < n
ring_lt a n h = grind arith

-- Every place is fewer than `n` steps ahead.
pub ring_reach : (a i n : ℕ) → i < n → (e : ℕ) × (e < n) × ((a + e) % n ≡ i)
ring_reach a i n h =
    let r = a % n in
    let small : r < n = ring_lt a n (omega arith) in
    let x = i + n - r in
    let swap : (a + x % n) % n ≡ (x % n + a) % n = ap (λ y. y % n) (omega arith) in
    let swap' : (x + a) % n ≡ (a + x) % n = ap (λ y. y % n) (omega arith) in
    let whole : r + x ≡ i + n = omega arith in
    (
      x % n,
      ring_lt x n (omega arith),
      swap
          ∙ mod-add-mod x n a
          ∙ swap'
          ∙ sym (mod-add-mod a n x)
          ∙ ap (λ y. y % n) whole
          ∙ add-mod_right i n
          ∙ mod-eq_of_lt h,
    )

module _ {A : Type 0} (m : Mpsc A) where
  -- The scan served the slot `j`: its first packet is the result, the others stay.
  pub record Serves (slots : Slots m) (r : Option A × FairHub m) (j : ℕ) : Type 0 where
    pub packet : A
    pub result : r.0 ≡ some packet
    pub behind : queue_of m (get_or slots j none) ≡ packet ∷ queue_of m (get_or r.1.slots j none)

  -- Where the cursor stands after the slot `i` was served.
  abbrev pub Moved : Slots m → ℕ → ℕ → Type 0
  Moved slots cursor i =
      (cursor ≡ i + 1)
      ⊎ ((cursor ≡ i)
          × (0 < credits_of m (get_or slots i none))
          × (credits_of m (get_or slots i none) ≤ max_peer_queue_weight))

  -- The scan served another slot, `i`, and left `j` as it was.
  pub record Passes (slots : Slots m) (r : Option A × FairHub m) (j i : ℕ) : Type 0 where
    pub same_length : length r.1.slots ≡ length slots
    pub bounded : All (IsBounded m) r.1.slots
    pub untouched : get_or r.1.slots j none ≡ get_or slots j none
    pub moved : Moved r.1.slots r.1.cursor i

  -- What the scan makes of a slot with something queued that is `e` steps ahead.
  abbrev pub Reaches : Slots m → Option A × FairHub m → ℕ → ℕ → ℕ → ℕ → Type 0
  Reaches slots r n at e j =
      Serves slots r j
      ⊎ ((k : ℕ) × (k < e)
          × Passes slots r j ((at + k) % n)
          × (k ≡ 0
              → suc (credits_of m (get_or r.1.slots (at % n) none))
                ≤ allowance m (get_or slots (at % n) none)))

  -- The hub after the slot `i` was served.
  abbrev after : Slots m → ℕ → A → FairPeerSlot m → Option A × FairHub m
  after slots i pkt slot = (
    some pkt,
    record { slots = set slots i (some slot); cursor = if slot.credits == 0 then i + 1 else i },
  )

  after-Serves :
      (slots : Slots m) (i : ℕ) (pkt : A) (slot : FairPeerSlot m)
      → i < length slots
      → queue_of m (get_or slots i none) ≡ pkt ∷ m.contents slot.rx
      → Serves slots (after slots i pkt slot) i
  after-Serves slots i pkt slot inside e = record {
    packet = pkt;
    result = refl;
    behind =
        e ∙ ap (λ o. pkt ∷ queue_of m o) (sym (get_or-set_self slots i (some slot) none inside));
  }

  after-Moved :
      (slots : Slots m) (i : ℕ) (slot : FairPeerSlot m)
      → get_or slots i none ≡ some slot
      → slot.credits ≤ max_peer_queue_weight
      → Moved slots (if slot.credits == 0 then i + 1 else i) i
  after-Moved slots i slot e c = elim (Bool-cases (slot.credits == 0)) [
    | inl spent ↦ rw spent (inl refl)
    | inr more ↦
        let some_left : 0 < slot.credits = ground (arith, more) in
        rw more (inr (refl, rw e some_left, rw e c))
  ]

  after-Passes :
      (slots : Slots m) (i j : ℕ) (pkt : A) (slot : FairPeerSlot m)
      → i < length slots
      → i ≢ j
      → All (IsBounded m) slots
      → IsBounded m (some slot)
      → Passes slots (after slots i pkt slot) j i
  after-Passes slots i j pkt slot inside other b (w, c) = record {
    same_length = length-set slots i (some slot);
    bounded = All-set (IsBounded m) slots i (some slot) b (w, c);
    untouched = get_or-set_other slots i j (some slot) none other;
    moved =
        after-Moved (set slots i (some slot)) i slot
          (get_or-set_self slots i (some slot) none inside) c;
  }

  -- A scan from the next slot on, seen from this one, which was left without being served.
  Reaches-next :
      (slots : Slots m) (slot : Option (FairPeerSlot m)) (r : Option A × FairHub m) (n at e j : ℕ)
      → get_or (set slots (at % n) slot) j none ≡ get_or slots j none
      → Reaches (set slots (at % n) slot) r n (at + 1) e j
      → Reaches slots r n at (suc e) j
  Reaches-next slots slot r n at e j other (inl s) = inl (record {
    packet = s.packet;
    result = s.result;
    behind = ap (queue_of m) (sym other) ∙ s.behind;
  })
  Reaches-next slots slot r n at e j other (inr (k, few, passes, first)) =
      let place : (at + 1 + k) % n ≡ (at + suc k) % n = ap (λ y. y % n) (omega arith) in
      inr (
        suc k,
        omega (arith, few),
        record {
          same_length = passes.same_length ∙ length-set slots (at % n) slot;
          bounded = passes.bounded;
          untouched = passes.untouched ∙ other;
          moved = subst (Moved r.1.slots r.1.cursor) place passes.moved;
        },
        (λ never. absurd (omega (arith, never))),
      )

  pub take_loop-Reaches :
      (n left step e j : ℕ) (slots : Slots m) (cursor : ℕ)
      → length slots ≡ n
      → 0 < n
      → All (IsBounded m) slots
      → (cursor + step + e) % n ≡ j
      → e < left
      → left ≤ n
      → queue_of m (get_or slots j none) ≢ []
      → Reaches slots (take_loop m n left step slots cursor) n (cursor + step) e j
  unfolding take_loop
  take_loop-Reaches n zero step e j slots cursor size pos b place few most waits =
      absurd (omega arith)
  take_loop-Reaches n (suc left) step zero j slots cursor size pos b place few most waits =
      let i = (cursor + step) % n in
      let inside : i < length slots = omega (arith, ring_lt (cursor + step) n pos, size) in
      let slot = get_or slots i none in
      let law = visit-VisitLaw m slot (All-get_or (IsBounded m) slots i none b tt) in
      let none_ahead : cursor + step ≡ cursor + step + 0 = omega arith in
      let here : i ≡ j = ap (λ y. y % n) none_ahead ∙ place in
      elim (visit-cases m slot) [
        | inl (pkt, slot', v) ↦
            let (found, _, _) = subst (VisitLaw m slot) v law in
            rw (v, take_loop)
              (inl (
                subst (Serves slots (after slots i pkt slot')) here
                  (after-Serves slots i pkt slot' inside found)))
        | inr (slot', v) ↦
            let (nothing, _, _) = subst (VisitLaw m slot) v law in
            absurd (waits (subst (λ x. queue_of m (get_or slots x none) ≡ []) here nothing))
      ]
  take_loop-Reaches n (suc left) step (suc e) j slots cursor size pos b place few most waits =
      let i = (cursor + step) % n in
      let inside : i < length slots = omega (arith, ring_lt (cursor + step) n pos, size) in
      let slot = get_or slots i none in
      let law = visit-VisitLaw m slot (All-get_or (IsBounded m) slots i none b tt) in
      let away : i ≢ j = λ same.
        ring_distinct (cursor + step) (suc e) n (omega arith) (omega arith) (same ∙ sym place) in
      elim (visit-cases m slot) [
        | inl (pkt, slot', v) ↦
            let (_, within, spent) = subst (VisitLaw m slot) v law in
            let self = get_or-set_self slots i (some slot') none inside in
            let none_ahead : cursor + step ≡ cursor + step + 0 = omega arith in
            rw (v, take_loop)
              (inr (
                0,
                omega arith,
                subst (Passes slots (after slots i pkt slot') j) (ap (λ y. y % n) none_ahead)
                    (after-Passes slots i j pkt slot' inside away b within),
                (λ _. rw self spent),
              ))
        | inr (slot', v) ↦
            let (_, _, within) = subst (VisitLaw m slot) v law in
            let other = get_or-set_other slots i j slot' none away in
            let ahead : (cursor + suc step + e) % n ≡ j = ap (λ y. y % n) (omega arith) ∙ place in
            let waits' : queue_of m (get_or (set slots i slot') j none) ≢ [] =
              subst (λ o. queue_of m o ≢ []) (sym other) waits in
            let later =
              take_loop-Reaches n left (suc step) e j (set slots i slot') cursor
                (length-set slots i slot' ∙ size) pos (All-set (IsBounded m) slots i slot' b within)
                ahead (omega arith) (omega arith) waits' in
            let next : cursor + suc step ≡ cursor + step + 1 = omega arith in
            rw (v, take_loop)
              (Reaches-next slots slot' (take_loop m n left (suc step) (set slots i slot') cursor) n
                (cursor + step) e j other
                (subst
                  (λ at.
                    Reaches (set slots i slot')
                      (take_loop m n left (suc step) (set slots i slot') cursor) n at e j)
                  next later))
      ]
