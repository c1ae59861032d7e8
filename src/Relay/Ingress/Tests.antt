-- ===== src/Relay/Ingress/Tests.antt =====
-- A packet of sevens that comes in behind a drop cell.
use anonymous.Common.Results.{ok}
use anonymous.Common.Sums.{All}
use anonymous.Common.{
  ℕ, ◌+◌, ◌-◌, ◌*◌, ◌/◌, ◌≡◌, refl, inl, inr, false, none, some, List, [], ◌∷◌, ◌++◌, map, length,
  replicate, length-replicate, min, ltb, leb,
}
use anonymous.Cell.{Cell, cell_len, from_u8}
use anonymous.Fragment.{PacketId, new, fragment, sphinx_packet_len}
use anonymous.CoverFlow.{is_discard_cover_fragment}
use anonymous.CoverFlow.Markers.{fragment-Kept}
use anonymous.Link.{seal}
use anonymous.Link.Samples.{toy_aead, tagged}
use anonymous.Relay.Channels.{Mpsc, try_send_drop_newest-open}
use anonymous.Relay.Samples.{list_channel, send_if-open}
use anonymous.Relay.FairQueue.{FairHub, FairPeerSlot, try_enqueue}
use anonymous.Relay.Health.Samples.{percents, kept, stamps}
use anonymous.Relay.Ingress.{Arrival, Session, Ingress, going, run}
use anonymous.Relay.Limits.{Rates, InboundRateLimitState_new, disabled}
use anonymous.Relay.Ingress.Control.{IsSealed}
use anonymous.Relay.Ingress.Delivery.{Carries, run-delivers}

abbrev rates : Rates
rates = record {
  F = ℕ;
  nought = 0;
  of_u32 = λ n. n;
  is_positive = λ r. ltb 0 r;
  le = leb;
  plus = λ a b. a + b;
  minus = λ a b. a - b;
  times = λ a b. a * b;
  least = min;
  seconds = λ n. n / 1000000000;
}

abbrev m : Mpsc (List ℕ)
m = list_channel (List ℕ)

abbrev slot : FairPeerSlot m
slot = record { rx = m.new 16; weight = 1; credits = 0 }

abbrev hub : FairHub m
hub = record { slots = some slot ∷ []; cursor = 0 }

abbrev session : Session toy_aead rates percents stamps kept m
session = record {
  session_key = [];
  matched_peer = none;
  peer_table = [];
  slot_id = 0;
  gossip_epoch_secs = 60;
}

abbrev start : Ingress toy_aead rates percents stamps kept m
start = record {
  reassembler = new;
  rate_limit = InboundRateLimitState_new rates (disabled rates) 0 none 0;
  hub = hub;
  queue_drops = 0;
  peer_health = none;
  health_quorum_log = none;
}

abbrev arrival : Cell → Arrival
arrival cell = record { now = 0; unix_secs = 0; frame = replicate 12 1 ++ tagged cell }

arrival-IsSealed :
    (cell : Cell) → length cell ≡ cell_len → IsSealed toy_aead [] cell (arrival cell).frame
unfolding seal
arrival-IsSealed cell h = record {
  nonce = replicate 12 1;
  nonce_len = length-replicate {A = ℕ} 12 1;
  width = h;
  sealed = refl;
}

carries_all :
    (cells : List Cell)
    → All (λ cell. (is_discard_cover_fragment cell ≡ false) × (length cell ≡ cell_len)) cells
    → Carries toy_aead [] cells (map arrival cells)
unfolding Carries
carries_all [] a = refl
carries_all (cell ∷ cells) ((_, h), a) =
    inr (cell, cells, refl, arrival-IsSealed cell h, carries_all cells a)

abbrev drop : Cell
drop = 4 ∷ replicate 511 0

abbrev packet : List ℕ
packet = replicate sphinx_packet_len 7

abbrev id : PacketId
id = replicate 8 5

carries_packet :
    Carries toy_aead [] (fragment packet id) (arrival drop ∷ map arrival (fragment packet id))
unfolding Carries from_u8
carries_packet = inl (
  drop,
  inl refl,
  arrival-IsSealed drop (length-replicate {A = ℕ} 512 0),
  carries_all (fragment packet id) (
      fragment-Kept packet id (length-replicate {A = ℕ} 8 5)
        (length-replicate {A = ℕ} sphinx_packet_len 7)),
)

queue_open : (try_enqueue m hub 0 packet 0).1.1 ≡ ok tt
unfolding try_enqueue
queue_open =
    try_send_drop_newest-open m (m.new 16) packet 0 (send_if-open (ltb 0 16) (m.new 16) packet)

run-delivers_example :
    let r = try_enqueue m hub 0 packet 0 in
    run toy_aead rates percents stamps kept m session start
      (arrival drop ∷ map arrival (fragment packet id))
    ≡ going (record start { reassembler = new; hub = r.0; queue_drops = r.1.0 })
run-delivers_example =
    run-delivers toy_aead rates percents stamps kept m session id packet start
      (arrival drop ∷ map arrival (fragment packet id)) (length-replicate {A = ℕ} 8 5)
      (length-replicate {A = ℕ} sphinx_packet_len 7) refl refl queue_open carries_packet
