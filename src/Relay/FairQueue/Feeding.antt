-- ===== src/Relay/FairQueue/Feeding.antt =====
-- What the links do to the hub between two scans, as turns of the environment.
use anonymous.Common.{
  ℕ, zero, suc, ◌≤◌, ◌≡◌, ◌≢◌, refl, sym, ◌∙◌, Option, none, some, List, [], ◌∷◌, ◌++◌, get_or, set,
  arith, inl, inr,
}
use mathlib.Core.Path.{subst}
use anonymous.Relay.Channels.{Mpsc, try_send_drop_newest-grows}
use anonymous.Relay.FairQueue.{
  max_peer_queue_weight, peer_queue_weight_from_success_rate, FairPeerSlot, FairHub, reweighted,
  set_weight, enqueued, try_enqueue,
}
use anonymous.Relay.FairQueue.Visits.{
  queue_of, IsBounded, credits_of, length-set, All-set, All-get_or,
}
use anonymous.Relay.FairQueue.Liveness.{Feeds}

-- Every weight that comes from a success rate is within the bounds.
pub peer_queue_weight_bounds :
    {F : Type 0} (scaled : F → ℕ) (rate : Option F)
    → (1 ≤ peer_queue_weight_from_success_rate scaled rate)
      × (peer_queue_weight_from_success_rate scaled rate ≤ max_peer_queue_weight)
unfolding peer_queue_weight_from_success_rate
peer_queue_weight_bounds scaled none = (omega arith, omega arith)
peer_queue_weight_bounds scaled (some rate) = (omega arith, omega arith)

append_not_empty {ℓ} : {A : Type ℓ} (xs : List A) (x : A) → (xs ++ (x ∷ [])) ≢ []
append_not_empty [] x = λ e. cc
append_not_empty (y ∷ xs) x = λ e. cc

-- What holds of the new element where it held of the old one holds at every index still.
set-keeps {ℓ κ} :
    {A : Type ℓ} (P : A → Type κ) (xs : List A) (i k : ℕ) (v d : A)
    → (P (get_or xs i d) → P v)
    → P (get_or xs k d)
    → P (get_or (set xs i v) k d)
set-keeps P [] i k v d h p = p
set-keeps P (x ∷ xs) zero zero v d h p = h p
set-keeps P (x ∷ xs) zero (suc k) v d h p = p
set-keeps P (x ∷ xs) (suc i) zero v d h p = p
set-keeps P (x ∷ xs) (suc i) (suc k) v d h p = set-keeps P xs i k v d h p

module _ {A : Type 0} (m : Mpsc A) where
  -- A write to one slot that keeps its credits, its bounds and a queue that is not empty.
  set-Feeds :
      (j i : ℕ) (hub : FairHub m) (slot : Option (FairPeerSlot m))
      → credits_of m slot ≡ credits_of m (get_or hub.slots i none)
      → (IsBounded m (get_or hub.slots i none) → IsBounded m slot)
      → (queue_of m (get_or hub.slots i none) ≢ [] → queue_of m slot ≢ [])
      → Feeds m j hub (record hub { slots = set hub.slots i slot })
  set-Feeds j i hub slot same bounds keeps = record {
    cursor = refl;
    same_length = length-set hub.slots i slot;
    bounded = λ b.
        All-set (IsBounded m) hub.slots i slot b
          (bounds (All-get_or (IsBounded m) hub.slots i none b tt));
    credits = λ k.
        set-keeps (λ o. credits_of m o ≡ credits_of m (get_or hub.slots k none)) hub.slots i k slot
          none (λ e. same ∙ e) refl;
    waits = set-keeps (λ o. queue_of m o ≢ []) hub.slots i j slot none keeps;
  }

  reweighted-Bounded :
      (weight : ℕ) (slot : Option (FairPeerSlot m))
      → weight ≤ max_peer_queue_weight
      → IsBounded m slot
      → IsBounded m (reweighted m weight slot)
  reweighted-Bounded weight none h b = tt
  reweighted-Bounded weight (some slot) h (w, c) = (omega (arith, h), c)

  credits_of-reweighted :
      (weight : ℕ) (slot : Option (FairPeerSlot m))
      → credits_of m (reweighted m weight slot) ≡ credits_of m slot
  credits_of-reweighted weight none = refl
  credits_of-reweighted weight (some slot) = refl

  queue_of-reweighted :
      (weight : ℕ) (slot : Option (FairPeerSlot m))
      → queue_of m (reweighted m weight slot) ≡ queue_of m slot
  queue_of-reweighted weight none = refl
  queue_of-reweighted weight (some slot) = refl

  -- A weight within the bounds, as `peer_queue_weight_from_success_rate` gives it.
  pub set_weight-Feeds :
      (j i weight : ℕ) (hub : FairHub m)
      → weight ≤ max_peer_queue_weight
      → Feeds m j hub (set_weight m hub i weight)
  unfolding set_weight
  set_weight-Feeds j i weight hub h =
      let slot = get_or hub.slots i none in
      set-Feeds j i hub (reweighted m weight slot) (credits_of-reweighted weight slot)
        (reweighted-Bounded weight slot h)
        (subst (λ q. q ≢ []) (sym (queue_of-reweighted weight slot)))

  enqueued-Bounded :
      (dropped : ℕ) (packet : A) (slot : Option (FairPeerSlot m))
      → IsBounded m slot
      → IsBounded m (enqueued m dropped packet slot)
  enqueued-Bounded dropped packet none b = tt
  enqueued-Bounded dropped packet (some slot) b = b

  credits_of-enqueued :
      (dropped : ℕ) (packet : A) (slot : Option (FairPeerSlot m))
      → credits_of m (enqueued m dropped packet slot) ≡ credits_of m slot
  credits_of-enqueued dropped packet none = refl
  credits_of-enqueued dropped packet (some slot) = refl

  queue_of-enqueued :
      (dropped : ℕ) (packet : A) (slot : Option (FairPeerSlot m))
      → queue_of m slot ≢ []
      → queue_of m (enqueued m dropped packet slot) ≢ []
  queue_of-enqueued dropped packet none h = h
  queue_of-enqueued dropped packet (some slot) h =
      elim (try_send_drop_newest-grows m slot.rx packet dropped) [
        | inl e ↦ subst (λ q. q ≢ []) (sym e) h
        | inr e ↦ subst (λ q. q ≢ []) (sym e) (append_not_empty (m.contents slot.rx) packet)
      ]

  pub try_enqueue-Feeds :
      (j i : ℕ) (packet : A) (dropped : ℕ) (hub : FairHub m)
      → Feeds m j hub (try_enqueue m hub i packet dropped).0
  unfolding try_enqueue
  try_enqueue-Feeds j i packet dropped hub =
      let slot = get_or hub.slots i none in
      set-Feeds j i hub (enqueued m dropped packet slot) (credits_of-enqueued dropped packet slot)
        (enqueued-Bounded dropped packet slot) (queue_of-enqueued dropped packet slot)
