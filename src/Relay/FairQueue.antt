-- ===== src/Relay/FairQueue.antt =====
-- crates/aegis-relay/src/net.rs: the weighted fair queue between the links and the mix, used for
-- both directions.
--
-- The hub is its slots and the cursor of its drain task. A channel's two ends are one value, so
-- a slot holds the queue that its sender fills. `notify`, which only wakes the drain task, is left
-- out. The product of a success rate (f64) and the highest weight, rounded, is a parameter.
pub mod Visits
pub mod Scans
pub mod Liveness
pub mod Feeding
mod Tests
use anonymous.Common.Results.{Result, ok, err}
use anonymous.Common.{
  ℕ, zero, suc, ◌+◌, ◌-◌, ◌%◌, Bool, true, false, Option, none, some, List, [], ◌∷◌, ◌++◌, length,
  get_or, set, min, max, ◌==◌, if◌then◌else◌,
}
use anonymous.Relay.Channels.{
  Mpsc, TryRecv, received, empty, disconnected, ChannelClosed, channel_closed, Sending,
  try_send_drop_newest,
}

abbrev pub per_peer_inbound_capacity : ℕ
per_peer_inbound_capacity = 16

abbrev pub default_peer_queue_weight : ℕ
default_peer_queue_weight = 1

abbrev pub max_peer_queue_weight : ℕ
max_peer_queue_weight = 8

-- `scaled` is `(rate.clamp(0.0, 1.0) * MAX_PEER_QUEUE_WEIGHT as f64).round() as u32`.
unfoldable pub peer_queue_weight_from_success_rate : {F : Type 0} → (F → ℕ) → Option F → ℕ
peer_queue_weight_from_success_rate scaled none = default_peer_queue_weight
peer_queue_weight_from_success_rate scaled (some rate) =
    max default_peer_queue_weight (min (scaled rate) max_peer_queue_weight)

module _ {A : Type 0} (m : Mpsc A) where
  pub record FairPeerSlot : Type 0 where
    pub rx : m.Channel
    pub weight : ℕ
    pub credits : ℕ

  abbrev pub Slots : Type 0
  Slots = List (Option FairPeerSlot)

  pub record FairHub : Type 0 where
    pub slots : Slots
    pub cursor : ℕ

  -- What the scan finds at a slot: a packet with the slot behind it, or the slot to leave.
  pub data Visit : Type 0 where
    served : A → FairPeerSlot → Visit
    passed : Option FairPeerSlot → Visit

  abbrev pub refilled : FairPeerSlot → ℕ
  refilled slot =
      if slot.credits == 0 then max slot.weight default_peer_queue_weight else slot.credits

  -- The branches on `slot.rx.try_recv()`.
  abbrev pub visit_of : FairPeerSlot → TryRecv A × m.Channel → Visit
  visit_of slot (received pkt, rx) =
      served pkt (record slot { rx = rx; credits = refilled slot - 1 })
  visit_of slot (empty, rx) = passed (some (record slot { rx = rx; credits = 0 }))
  visit_of slot (disconnected, rx) = passed none

  unfoldable pub visit : Option FairPeerSlot → Visit
  visit none = passed none
  visit (some slot) = visit_of slot (m.try_recv slot.rx)

  -- `for step in 0..n`, with the steps that are left.
  unfoldable pub take_loop : ℕ → ℕ → ℕ → Slots → ℕ → Option A × FairHub
  take_loop n zero step slots cursor = (none, record { slots = slots; cursor = cursor })
  take_loop n (suc left) step slots cursor =
      let i = (cursor + step) % n in
      elim (visit (get_or slots i none)) [
        | served pkt slot ↦ (
          some pkt,
          record {
            slots = set slots i (some slot);
            cursor = if slot.credits == 0 then i + 1 else i;
          },
        )
        | passed slot ↦ take_loop n left (suc step) (set slots i slot) cursor
      ]

  unfoldable pub fair_wfq_take_one : FairHub → Option A × FairHub
  fair_wfq_take_one hub = take_loop (length hub.slots) (length hub.slots) 0 hub.slots hub.cursor

  -- The index of the first slot that is free, or the number of slots.
  unfoldable pub free_slot : Slots → ℕ
  free_slot [] = 0
  free_slot (none ∷ slots) = 0
  free_slot (some slot ∷ slots) = suc (free_slot slots)

  unfoldable pub put_slot : Slots → FairPeerSlot → Slots
  put_slot [] slot = some slot ∷ []
  put_slot (none ∷ slots) slot = some slot ∷ slots
  put_slot (some other ∷ slots) slot = some other ∷ put_slot slots slot

  unfoldable pub register_with_weight : FairHub → ℕ → ℕ × FairHub
  register_with_weight hub weight =
      let slot : FairPeerSlot = record {
        rx = m.new per_peer_inbound_capacity;
        weight = max weight default_peer_queue_weight;
        credits = 0;
      } in
      (free_slot hub.slots, record hub { slots = put_slot hub.slots slot })

  abbrev reweighted : ℕ → Option FairPeerSlot → Option FairPeerSlot
  reweighted weight none = none
  reweighted weight (some slot) =
      some (record slot { weight = max weight default_peer_queue_weight })

  unfoldable pub set_weight : FairHub → ℕ → ℕ → FairHub
  set_weight hub slot_id weight = record hub {
    slots = set hub.slots slot_id (reweighted weight (get_or hub.slots slot_id none));
  }

  -- The drain task's turn: a packet goes on to the next queue, drop-newest.
  unfoldable pub drain_once :
      FairHub → m.Channel → ℕ → FairHub × (m.Channel × (ℕ × Result ChannelClosed (Unit {0})))
  drain_once hub inbound_tx dropped =
      let (packet, hub') = fair_wfq_take_one hub in
      elim packet [
        | none ↦ (hub', (inbound_tx, (dropped, ok tt)))
        | some pkt ↦
            let s = try_send_drop_newest m inbound_tx pkt dropped in
            (hub', (s.channel, (s.dropped, s.outcome)))
      ]

  abbrev enqueued : ℕ → A → Option FairPeerSlot → Option FairPeerSlot
  enqueued dropped packet none = none
  enqueued dropped packet (some slot) =
      some (record slot { rx = (try_send_drop_newest m slot.rx packet dropped).channel })

  abbrev outcome_of : ℕ → A → Option FairPeerSlot → ℕ × Result ChannelClosed (Unit {0})
  outcome_of dropped packet none = (dropped, err channel_closed)
  outcome_of dropped packet (some slot) =
      let s = try_send_drop_newest m slot.rx packet dropped in (s.dropped, s.outcome)

  -- `FairPeerSender::try_enqueue`; a slot that the drain gave up has its receiver dropped.
  unfoldable pub try_enqueue : FairHub → ℕ → A → ℕ → FairHub × (ℕ × Result ChannelClosed (Unit {0}))
  try_enqueue hub slot_id packet dropped =
      let slot = get_or hub.slots slot_id none in
      (
        record hub { slots = set hub.slots slot_id (enqueued dropped packet slot) },
        outcome_of dropped packet slot,
      )
