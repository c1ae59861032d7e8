-- ===== src/Relay/FairQueue/Liveness.antt =====
-- How long a link with something queued waits for the drain, whatever the other links do.
use anonymous.Common.{
  ℕ, zero, suc, ◌+◌, ◌-◌, ◌*◌, ◌%◌, ◌≤◌, ◌<◌, ◌≡◌, ◌≢◌, refl, sym, ap, ◌∙◌, ◌⊎◌, inl, inr, false,
  Option, none, some, [], length, get_or, ◌==◌, ==_iff, if◌then◌else◌, arith, Bool-cases,
}
use mathlib.Core.Path.{subst}
use anonymous.Common.Sums.{All}
use native.Mathlib.Nat.{mod-eq_of_lt, mod-add-mod}
use anonymous.Relay.Channels.{Mpsc}
use anonymous.Relay.FairQueue.{
  max_peer_queue_weight, FairPeerSlot, FairHub, fair_wfq_take_one, take_loop,
}
use anonymous.Relay.FairQueue.Visits.{queue_of, IsBounded, credits_of, allowance, All-get_or}
use anonymous.Relay.FairQueue.Scans.{
  ring_lt, ring_reach, Serves, Moved, Passes, Reaches, take_loop-Reaches,
}

module _ {A : Type 0} (m : Mpsc A) where
  -- What the links and their health may do between two scans: any queue but that of `j` may
  -- change, weights may change within their bounds, `j` keeps something queued.
  pub record Feeds (j : ℕ) (before after : FairHub m) : Type 0 where
    pub cursor : after.cursor ≡ before.cursor
    pub same_length : length after.slots ≡ length before.slots
    pub bounded : All (IsBounded m) before.slots → All (IsBounded m) after.slots
    pub credits :
        (i : ℕ)
        → credits_of m (get_or after.slots i none) ≡ credits_of m (get_or before.slots i none)
    pub waits :
        queue_of m (get_or before.slots j none) ≢ [] → queue_of m (get_or after.slots j none) ≢ []

  -- The hub before the scan `t`, with `feed i` between the scans `i` and `i + 1`.
  unfoldable pub hub_at : (ℕ → FairHub m → FairHub m) → ℕ → FairHub m → FairHub m
  hub_at feed zero hub = hub
  hub_at feed (suc t) hub = hub_at (λ i. feed (suc i)) t (feed 0 (fair_wfq_take_one m hub).1)

  record Waits (n j d : ℕ) (hub : FairHub m) : Type 0 where
    size : length hub.slots ≡ n
    near : d < n
    place : (hub.cursor + d) % n ≡ j
    bounded : All (IsBounded m) hub.slots
    queued : queue_of m (get_or hub.slots j none) ≢ []

  -- A bound on the scans before the slot that is `d` steps ahead.
  wait : ℕ → ℕ → FairHub m → ℕ
  wait n zero hub = 0
  wait n (suc d) hub =
      max_peer_queue_weight * d + allowance m (get_or hub.slots (hub.cursor % n) none)

  allowance_bounds :
      (slot : Option (FairPeerSlot m))
      → IsBounded m slot
      → (0 < allowance m slot) × (allowance m slot ≤ max_peer_queue_weight)
  allowance_bounds none b = (omega arith, omega arith)
  allowance_bounds (some slot) (w, c) = elim (Bool-cases (slot.credits == 0)) [
    | inl e ↦ rw e (omega arith, omega arith)
    | inr e ↦
        let some_left : 0 < slot.credits = ground (arith, e) in rw e (some_left, omega (arith, c))
  ]

  wait-le :
      (n d : ℕ) (hub : FairHub m)
      → All (IsBounded m) hub.slots
      → wait n d hub ≤ max_peer_queue_weight * d
  unfolding wait
  wait-le n zero hub b = omega arith
  wait-le n (suc d) hub b =
      let (_, most) =
        allowance_bounds (get_or hub.slots (hub.cursor % n) none)
          (All-get_or (IsBounded m) hub.slots (hub.cursor % n) none b tt) in
      omega (arith, most)

  wait_pos :
      (n d : ℕ) (hub : FairHub m)
      → All (IsBounded m) hub.slots
      → max_peer_queue_weight * d < wait n (suc d) hub
  unfolding wait
  wait_pos n d hub b =
      let (least, _) =
        allowance_bounds (get_or hub.slots (hub.cursor % n) none)
          (All-get_or (IsBounded m) hub.slots (hub.cursor % n) none b tt) in
      omega (arith, least)

  -- With credits left at the cursor, these are what is still to be waited for there.
  wait_credits :
      (n d i c : ℕ) (hub : FairHub m)
      → i < n
      → hub.cursor ≡ i
      → credits_of m (get_or hub.slots i none) ≡ c
      → 0 < c
      → wait n (suc d) hub ≡ max_peer_queue_weight * d + c
  unfolding wait
  wait_credits n d i c hub inside e same pos =
      let here : hub.cursor % n ≡ i = ap (λ y. y % n) e ∙ mod-eq_of_lt inside in
      let some_left : (c == 0) ≡ false = ground arith in rw here (rw same (rw some_left refl))

  Passes-Waits :
      (n j d k : ℕ) (hub : FairHub m) (r : Option A × FairHub m)
      → Waits n j (suc d) hub
      → k < suc d
      → Passes m hub.slots r j ((hub.cursor + 0 + k) % n)
      → (k ≡ 0
          → suc (credits_of m (get_or r.1.slots ((hub.cursor + 0) % n) none))
            ≤ allowance m (get_or hub.slots ((hub.cursor + 0) % n) none))
      → (d' : ℕ) × Waits n j d' r.1 × (wait n d' r.1 < wait n (suc d) hub)
  unfolding wait
  Passes-Waits n j d k hub r v few passes first =
      let i = (hub.cursor + 0 + k) % n in
      let pos : 0 < n = omega (arith, v.near) in
      let queued : queue_of m (get_or r.1.slots j none) ≢ [] =
        subst (λ o. queue_of m o ≢ []) (sym passes.untouched) v.queued in
      let size = passes.same_length ∙ v.size in
      let before = wait_pos n d hub v.bounded in
      let here : (hub.cursor + 0) % n ≡ hub.cursor % n = ap (λ y. y % n) (omega arith) in
      let spent : k ≡ 0
          → suc (credits_of m (get_or r.1.slots i none))
            ≤ allowance m (get_or hub.slots (hub.cursor % n) none) =
        λ z.
          let same : (hub.cursor + 0) % n ≡ i = ap (λ y. y % n) (omega (arith, z)) in
          subst
            (λ y.
              suc (credits_of m (get_or r.1.slots y none))
              ≤ allowance m (get_or hub.slots (hub.cursor % n) none))
            same
            (subst
              (λ y.
                suc (credits_of m (get_or r.1.slots ((hub.cursor + 0) % n) none))
                ≤ allowance m (get_or hub.slots y none))
              here (first z)) in
      let less : wait n (suc (d - k)) r.1
            ≡ max_peer_queue_weight * (d - k) + credits_of m (get_or r.1.slots i none)
          → credits_of m (get_or r.1.slots i none) ≤ max_peer_queue_weight
          → wait n (suc (d - k)) r.1 < wait n (suc d) hub =
        λ after most. elim (Bool-cases (k == 0)) [
          | inl e ↦ let z : k ≡ 0 = (==_iff k 0).0 e in omega (arith, after, spent z, z)
          | inr e ↦
              let further : 0 < k = ground (arith, e) in
              omega (arith, after, most, before, further, few)
        ] in
      let cases : Moved m r.1.slots r.1.cursor i
          → (d' : ℕ) × Waits n j d' r.1 × (wait n d' r.1 < wait n (suc d) hub) =
        λ moved. elim moved [
          | inl past ↦
              let after = wait-le n (d - k) r.1 passes.bounded in
              let place : (r.1.cursor + (d - k)) % n ≡ j =
                ap (λ c. (c + (d - k)) % n) past
                ∙ ap (λ y. y % n) (omega arith)
                ∙ mod-add-mod (hub.cursor + 0 + k) n (1 + (d - k))
                ∙ ap (λ y. y % n) (omega arith)
                ∙ v.place in
              (
                d - k,
                record {
                  size = size;
                  near = omega (arith, v.near);
                  place = place;
                  bounded = passes.bounded;
                  queued = queued;
                },
                omega (arith, after, before, few),
              )
          | inr (stays, some_left, most) ↦
              let c = credits_of m (get_or r.1.slots i none) in
              let after =
                wait_credits n (d - k) i c r.1 (ring_lt (hub.cursor + 0 + k) n pos) stays refl
                  some_left in
              let place : (r.1.cursor + suc (d - k)) % n ≡ j =
                ap (λ c. (c + suc (d - k)) % n) stays
                ∙ mod-add-mod (hub.cursor + 0 + k) n (suc (d - k))
                ∙ ap (λ y. y % n) (omega arith)
                ∙ v.place in
              (
                suc (d - k),
                record {
                  size = size;
                  near = omega (arith, v.near);
                  place = place;
                  bounded = passes.bounded;
                  queued = queued;
                },
                less after most,
              )
        ] in
      cases passes.moved

  reaches :
      (n j d : ℕ) (hub : FairHub m)
      → Waits n j d hub
      → (hub.cursor + 0 + d) % n ≡ j
      → Reaches m hub.slots (fair_wfq_take_one m hub) n (hub.cursor + 0) d j
  unfolding fair_wfq_take_one
  reaches n j d hub v place =
      let pos : 0 < n = omega (arith, v.near) in
      subst
        (λ l. Reaches m hub.slots (take_loop m l l 0 hub.slots hub.cursor) n (hub.cursor + 0) d j)
        (sym v.size)
        (take_loop-Reaches m n n 0 d j hub.slots hub.cursor v.size pos v.bounded place v.near
          (omega arith) v.queued)

  -- One scan: the slot is served, or it is nearer than before.
  take-Waits :
      (n j d : ℕ) (hub : FairHub m)
      → Waits n j d hub
      → let r = fair_wfq_take_one m hub in
        Serves m hub.slots r j ⊎ ((d' : ℕ) × Waits n j d' r.1 × (wait n d' r.1 < wait n d hub))
  take-Waits n j zero hub v =
      let pos : 0 < n = v.near in
      let place : (hub.cursor + 0 + 0) % n ≡ j = ap (λ y. y % n) (omega arith) ∙ v.place in
      elim (reaches n j 0 hub v place) [
        | inl served ↦ inl served
        | inr (k, few, _, _) ↦ absurd (omega (arith, few))
      ]
  take-Waits n j (suc d) hub v =
      let place : (hub.cursor + 0 + suc d) % n ≡ j = ap (λ y. y % n) (omega arith) ∙ v.place in
      elim (reaches n j (suc d) hub v place) [
        | inl served ↦ inl served
        | inr (k, few, passes, first) ↦
            inr (Passes-Waits n j d k hub (fair_wfq_take_one m hub) v few passes first)
      ]

  wait-Feeds : (n j d : ℕ) (hub hub' : FairHub m) → Feeds j hub hub' → wait n d hub' ≡ wait n d hub
  unfolding wait
  wait-Feeds n j zero hub hub' f = refl
  wait-Feeds n j (suc d) hub hub' f =
      ap (λ c. max_peer_queue_weight * d + allowance m (get_or hub'.slots (c % n) none)) f.cursor
      ∙ ap (λ c. max_peer_queue_weight * d + (if c == 0 then max_peer_queue_weight else c))
          (f.credits (hub.cursor % n))

  -- The environment's turn leaves the distance and the bound on the wait.
  Feeds-Waits :
      (n j d : ℕ) (hub hub' : FairHub m)
      → Feeds j hub hub'
      → Waits n j d hub
      → Waits n j d hub' × (wait n d hub' ≡ wait n d hub)
  Feeds-Waits n j d hub hub' f v = (
    record {
      size = f.same_length ∙ v.size;
      near = v.near;
      place = ap (λ c. (c + d) % n) f.cursor ∙ v.place;
      bounded = f.bounded v.bounded;
      queued = f.waits v.queued;
    },
    wait-Feeds n j d hub hub' f,
  )

  served_within :
      (n j fuel d : ℕ) (feed : ℕ → FairHub m → FairHub m) (hub : FairHub m)
      → ((t : ℕ) (h : FairHub m) → Feeds j h (feed t h))
      → Waits n j d hub
      → wait n d hub < fuel
      → (t : ℕ) × (t < fuel)
        × Serves m (hub_at feed t hub).slots (fair_wfq_take_one m (hub_at feed t hub)) j
  unfolding hub_at
  served_within n j zero d feed hub f v h = absurd (omega arith)
  served_within n j (suc fuel) d feed hub f v h = elim (take-Waits n j d hub v) [
    | inl served ↦ (0, omega arith, served)
    | inr (d', v', less) ↦
        let next = (fair_wfq_take_one m hub).1 in
        let (w, same) = Feeds-Waits n j d' next (feed 0 next) (f 0 next) v' in
        let (t, few, served) =
          served_within n j fuel d' (λ i. feed (suc i)) (feed 0 next) (λ i x. f (suc i) x) w
            (omega (arith, less, same, h)) in
        (suc t, omega (arith, few), served)
  ]

  -- No link starves: in a hub of `n` slots within the highest weight, a slot with something queued
  -- is served by one of the next `8 * n` scans. Between scans the other queues may fill or be
  -- replaced and the weights may change within their bounds, the slot itself may receive more.
  pub fair_wfq-Serves :
      (j : ℕ) (feed : ℕ → FairHub m → FairHub m) (hub : FairHub m)
      → ((t : ℕ) (h : FairHub m) → Feeds j h (feed t h))
      → j < length hub.slots
      → All (IsBounded m) hub.slots
      → queue_of m (get_or hub.slots j none) ≢ []
      → (t : ℕ) × (t < max_peer_queue_weight * length hub.slots)
        × Serves m (hub_at feed t hub).slots (fair_wfq_take_one m (hub_at feed t hub)) j
  fair_wfq-Serves j feed hub f inside b queued =
      let n = length hub.slots in
      let (d, near, place) = ring_reach hub.cursor j n inside in
      served_within n j (max_peer_queue_weight * n) d feed hub f
        (record { size = refl; near = near; place = place; bounded = b; queued = queued })
        (omega (arith, wait-le n d hub b, near))
