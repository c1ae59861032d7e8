-- ===== src/Relay/FairQueue/Visits.antt =====
-- One slot of the fair queue: what a visit finds, and who waits.
use anonymous.Common.{
  ℕ, zero, suc, ◌≤◌, ◌<◌, ◌≡◌, ◌≢◌, refl, ap, ◌⊎◌, inl, inr, Option, none, some, List, [], ◌∷◌,
  length, get_or, set, ◌==◌, if◌then◌else◌, arith, Bool-cases,
}
use anonymous.Common.Sums.{All}
use anonymous.Relay.Channels.{Mpsc, TryRecv, received, empty, disconnected, RecvLaw}
use anonymous.Relay.FairQueue.{
  max_peer_queue_weight, FairPeerSlot, Visit, served, passed, visit_of, visit,
}

pub get_or-set_self {ℓ} :
    {A : Type ℓ} (xs : List A) (i : ℕ) (v d : A) → i < length xs → get_or (set xs i v) i d ≡ v
get_or-set_self [] i v d h = absurd (omega arith)
get_or-set_self (x ∷ xs) zero v d h = refl
get_or-set_self (x ∷ xs) (suc i) v d h = get_or-set_self xs i v d (omega arith)

pub get_or-set_other {ℓ} :
    {A : Type ℓ} (xs : List A) (i j : ℕ) (v d : A) → i ≢ j → get_or (set xs i v) j d ≡ get_or xs j d
get_or-set_other [] i j v d h = refl
get_or-set_other (x ∷ xs) zero zero v d h = absurd (h refl)
get_or-set_other (x ∷ xs) zero (suc j) v d h = refl
get_or-set_other (x ∷ xs) (suc i) zero v d h = refl
get_or-set_other (x ∷ xs) (suc i) (suc j) v d h = get_or-set_other xs i j v d (λ e. h (ap suc e))

pub length-set {ℓ} : {A : Type ℓ} (xs : List A) (i : ℕ) (v : A) → length (set xs i v) ≡ length xs
length-set [] i v = refl
length-set (x ∷ xs) zero v = refl
length-set (x ∷ xs) (suc i) v = ap suc (length-set xs i v)

pub All-set {ℓ κ} :
    {A : Type ℓ} (P : A → Type κ) (xs : List A) (i : ℕ) (v : A)
    → All P xs
    → P v
    → All P (set xs i v)
All-set P [] i v a h = tt
All-set P (x ∷ xs) zero v (hx, a) h = (h, a)
All-set P (x ∷ xs) (suc i) v (hx, a) h = (hx, All-set P xs i v a h)

pub All-get_or {ℓ κ} :
    {A : Type ℓ} (P : A → Type κ) (xs : List A) (i : ℕ) (d : A) → All P xs → P d → P (get_or xs i d)
All-get_or P [] i d a h = h
All-get_or P (x ∷ xs) zero d (hx, a) h = hx
All-get_or P (x ∷ xs) (suc i) d (hx, a) h = All-get_or P xs i d a h

module _ {A : Type 0} (m : Mpsc A) where
  -- What stands in a slot's queue; nothing where there is no slot.
  abbrev pub queue_of : Option (FairPeerSlot m) → List A
  queue_of none = []
  queue_of (some slot) = m.contents slot.rx

  -- Weight and credits are within the highest weight.
  abbrev pub IsBounded : Option (FairPeerSlot m) → Type 0
  IsBounded none = Unit {0}
  IsBounded (some slot) =
      (slot.weight ≤ max_peer_queue_weight) × (slot.credits ≤ max_peer_queue_weight)

  abbrev pub credits_of : Option (FairPeerSlot m) → ℕ
  credits_of none = 0
  credits_of (some slot) = slot.credits

  -- The most packets that a slot may still send while the cursor stays on it.
  abbrev pub allowance : Option (FairPeerSlot m) → ℕ
  allowance slot = if credits_of slot == 0 then max_peer_queue_weight else credits_of slot

  -- What a visit is, for the slot that it meets.
  abbrev pub VisitLaw : Option (FairPeerSlot m) → Visit m → Type 0
  VisitLaw slot (served pkt slot') =
      (queue_of slot ≡ pkt ∷ m.contents slot'.rx)
      × IsBounded (some slot')
      × (suc slot'.credits ≤ allowance slot)
  VisitLaw slot (passed slot') = (queue_of slot ≡ []) × (queue_of slot' ≡ []) × IsBounded slot'

  visit_of-VisitLaw :
      (slot : FairPeerSlot m) (r : TryRecv A) (rx : m.Channel)
      → IsBounded (some slot)
      → RecvLaw (m.contents slot.rx) (m.contents rx) r
      → VisitLaw (some slot) (visit_of m slot (r, rx))
  visit_of-VisitLaw slot (received pkt) rx (w, c) law = elim (Bool-cases (slot.credits == 0)) [
    | inl e ↦ rw e (law, (w, omega (arith, w)), omega (arith, w))
    | inr e ↦
        let some_left : 0 < slot.credits = ground (arith, e) in
        rw e (law, (w, omega (arith, c)), omega (arith, some_left))
  ]
  visit_of-VisitLaw slot empty rx (w, c) law = (law.0, law.1, (w, omega arith))
  visit_of-VisitLaw slot disconnected rx (w, c) law = (law.0, refl, tt)

  pub visit-VisitLaw :
      (slot : Option (FairPeerSlot m)) → IsBounded slot → VisitLaw slot (visit m slot)
  unfolding visit
  visit-VisitLaw none b = (refl, refl, tt)
  visit-VisitLaw (some slot) b =
      visit_of-VisitLaw slot (m.try_recv slot.rx).0 (m.try_recv slot.rx).1 b
        (m.try_recv_law slot.rx)

  pub visit-cases :
      (slot : Option (FairPeerSlot m))
      → ((pkt : A) × (slot' : FairPeerSlot m) × (visit m slot ≡ served pkt slot'))
        ⊎ ((slot' : Option (FairPeerSlot m)) × (visit m slot ≡ passed slot'))
  visit-cases slot = cases (visit m slot) refl
    where
      cases :
          (v : Visit m)
          → visit m slot ≡ v
          → ((pkt : A) × (slot' : FairPeerSlot m) × (visit m slot ≡ served pkt slot'))
            ⊎ ((slot' : Option (FairPeerSlot m)) × (visit m slot ≡ passed slot'))
      cases (served pkt slot') e = inl (pkt, slot', e)
      cases (passed slot') e = inr (slot', e)
