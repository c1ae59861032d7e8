-- ===== src/Relay/FairQueue/Tests.antt =====
-- The fair queue on channels that are lists, with a link that never stops sending.
use anonymous.Common.{ℕ, ◌<◌, ◌≡◌, refl, some, [], ◌∷◌, arith}
use anonymous.Relay.Channels.{Mpsc}
use anonymous.Relay.Samples.{list_channel}
use anonymous.Relay.FairQueue.{
  FairPeerSlot, FairHub, visit, take_loop, fair_wfq_take_one, try_enqueue,
}
use anonymous.Relay.FairQueue.Scans.{Serves}
use anonymous.Relay.FairQueue.Liveness.{hub_at, fair_wfq-Serves}
use anonymous.Relay.FairQueue.Feeding.{try_enqueue-Feeds}

abbrev m : Mpsc ℕ
m = list_channel ℕ

abbrev busy : FairPeerSlot m
busy = record { rx = record { items = 1 ∷ 2 ∷ []; room = 16 }; weight = 8; credits = 0 }

abbrev quiet : FairPeerSlot m
quiet = record { rx = record { items = 9 ∷ []; room = 16 }; weight = 1; credits = 0 }

abbrev hub : FairHub m
hub = record { slots = some busy ∷ some quiet ∷ []; cursor = 0 }

-- Before every scan but the first, the busy link has sent another packet.
abbrev feed : ℕ → FairHub m → FairHub m
feed t h = (try_enqueue m h 0 t 0).0

first_scan : (fair_wfq_take_one m hub).0 ≡ some 1
unfolding fair_wfq_take_one take_loop visit
first_scan = refl

fair_wfq-Serves_example :
    (t : ℕ) × (t < 16)
    × Serves m (hub_at m feed t hub).slots (fair_wfq_take_one m (hub_at m feed t hub)) 1
fair_wfq-Serves_example =
    fair_wfq-Serves m 1 feed hub (λ t h. try_enqueue-Feeds m 1 0 t 0 h) (omega arith)
      ((omega arith, omega arith), ((omega arith, omega arith), tt)) (λ e. cc)
