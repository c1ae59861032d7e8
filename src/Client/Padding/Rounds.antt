-- ===== src/Client/Padding/Rounds.antt =====
-- What an observer counts, and what the client receives, over any number of rounds.
use mathlib.Core.List.{append_assoc, append-nil}
use anonymous.Common.{
  ℕ, zero, suc, ◌+◌, ◌-◌, ◌≤◌, ◌≡◌, refl, sym, ap, ◌∙◌, List, [], ◌∷◌, ◌++◌, arith, length,
}
use anonymous.Client.Padding.{
  DeliverySlot, real, dummy, HardCapPadder, deliver_real, backlog, fill_slots, count_real,
  round_tick,
}

module _ {T : Type 0} where
  -- The items that the slots release.
  abbrev pub released : List (DeliverySlot T) → List T
  released [] = []
  released (real item ∷ slots) = item ∷ released slots
  released (dummy ∷ slots) = released slots

  fill_slots_lem :
      (n : ℕ) (pending : List T)
      → (length (fill_slots n pending).0 ≡ n)
        × (released (fill_slots n pending).0 ++ (fill_slots n pending).1 ≡ pending)
        × (count_real (fill_slots n pending).0 ≤ n)
        × (count_real (fill_slots n pending).0 ≡ length (released (fill_slots n pending).0))
        × (length (fill_slots n pending).1 ≡ length pending - n)
  unfolding fill_slots count_real
  fill_slots_lem zero pending = (refl, refl, omega arith, refl, omega arith)
  fill_slots_lem (suc n) [] =
      let (l, r, b, c, p) = fill_slots_lem n [] in
      (ap suc l, r, omega (arith, b), c, omega (arith, p))
  fill_slots_lem (suc n) (item ∷ pending) =
      let (l, r, b, c, p) = fill_slots_lem n pending in
      (ap suc l, ap (◌∷◌ item) r, omega (arith, b), ap suc c, omega (arith, p))

  -- Every round shows exactly `q` slots: those that release an item and the dummies add up to `q`.
  -- The backlog falls by `q`, to 0 at the least, and `q` stays.
  pub round_tick-constant :
      (h : HardCapPadder T)
      → let (out, h') = round_tick h in
        (length out.slots ≡ h.q)
        × (out.real_count + out.dummy_count ≡ h.q)
        × (out.real_count ≡ length (released out.slots))
        × (backlog h' ≡ backlog h - h.q)
        × (h'.q ≡ h.q)
  unfolding round_tick backlog
  round_tick-constant h =
      let (l, r, b, c, p) = fill_slots_lem h.q h.pending in (l, omega (arith, b), c, p, refl)

  pub deliver_all : HardCapPadder T → List T → HardCapPadder T
  deliver_all h [] = h
  deliver_all h (item ∷ items) = deliver_all (deliver_real h item) items

  deliver_all-pending :
      (h : HardCapPadder T) (items : List T) → (deliver_all h items).pending ≡ h.pending ++ items
  unfolding deliver_all deliver_real
  deliver_all-pending h [] = sym (append-nil h.pending)
  deliver_all-pending h (item ∷ items) =
      deliver_all-pending (deliver_real h item) items ∙ append_assoc h.pending (item ∷ []) items

  -- Rounds with the arrivals before each: all that is released, and the padder afterwards.
  unfoldable pub rounds : HardCapPadder T → List (List T) → List T × HardCapPadder T
  rounds h [] = ([], h)
  rounds h (items ∷ later) =
      let (out, h') = round_tick (deliver_all h items) in
      let (rest, h'') = rounds h' later in (released out.slots ++ rest, h'')

  unfoldable pub arrivals : List (List T) → List T
  arrivals [] = []
  arrivals (items ∷ later) = items ++ arrivals later

  -- Nothing is lost, duplicated or reordered: what was released over the rounds, with what is
  -- still pending behind it, is what was pending and what arrived.
  pub rounds-Fifo :
      (later : List (List T)) (h : HardCapPadder T)
      → (rounds h later).0 ++ (rounds h later).1.pending ≡ h.pending ++ arrivals later
  unfolding rounds arrivals round_tick
  rounds-Fifo [] h = sym (append-nil h.pending)
  rounds-Fifo (items ∷ later) h =
      let h1 = deliver_all h items in
      let (out, h2) = round_tick h1 in
      let r = (fill_slots_lem h1.q h1.pending).1 in
      append_assoc (released out.slots) (rounds h2 later).0 (rounds h2 later).1.pending
      ∙ ap (λ l. released out.slots ++ l) (rounds-Fifo later h2)
      ∙ sym (append_assoc (released out.slots) h2.pending (arrivals later))
      ∙ ap (λ l. l ++ arrivals later) (r ∙ deliver_all-pending h items)
      ∙ append_assoc h.pending items (arrivals later)
