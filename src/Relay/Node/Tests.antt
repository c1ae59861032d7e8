-- ===== src/Relay/Node/Tests.antt =====
-- The theorems on a relay that receives the same packet twice within a bulk round.
use anonymous.Common.Results.{Result, ok, err}
use anonymous.Common.{
  ℕ, ◌+◌, ◌-◌, ◌%◌, ◌^◌, ◌≡◌, refl, ap, Bool, true, some, List, [], ◌∷◌, length, arith, Bool-cases,
  inl, inr, ltb,
}
use anonymous.Kem.{CryptoError, integrity_failure, replay_rejected}
use anonymous.Kem.Samples.{toy}
use anonymous.Negotiator.{l2_uniform_batched}
use anonymous.Sphinx.{Processed, forward, loop_returned, dropped, SphinxPacket, process}
use anonymous.Sphinx.Regions.{packet_of}
use anonymous.Sphinx.Samples.{
  subtle, percent, cache, cache-Holds, relay, regions, outcome, accepted,
}
use anonymous.CoverFlow.{BulkRoundTracker_new, is_cover_sink_hop, CoverFlow}
use anonymous.CoverFlow.Samples.{rng, five}
use anonymous.Relay.Channels.{Mpsc, fetch_add, try_send_drop_newest-open}
use anonymous.Relay.Config.{default_bulk_cover}
use anonymous.Relay.Samples.{list_channel, send_if-open}
use anonymous.Relay.Node.{
  is_ok, ForwardedPacket, RelayStats_new, RelayNode, RelayState, begin_round, end_round, RelayEvent,
  control, inbound, taken, forward_packet, route, process_one_packet, turn, run, send_cover,
  relay_channel_capacity,
}
use anonymous.Relay.Node.Accounts.{handled, run-Counts}
use anonymous.Relay.Node.Outbound.{IsBalanced, taken_along, run-IsBalanced}
use anonymous.Relay.Node.Forwards.{to_forward}
use anonymous.Relay.Node.Rounds.{process_one_packet_twice, relay_round-constant}

abbrev delay : ℕ → ℕ → ℕ × ℕ
delay mu s = (mu, s)

abbrev out : Mpsc (ForwardedPacket ℕ)
out = list_channel (ForwardedPacket ℕ)

abbrev cover_send : ℕ → CoverFlow → Bool × ℕ
cover_send sent flow = (true, sent + 1)

abbrev node : RelayNode toy ℕ
node = record {
  id = [];
  secret = relay;
  config = record { mu = 2; bulk_cover = default_bulk_cover toy };
}

abbrev State : Type 0
State = RelayState toy subtle percent rng delay out cover_send

abbrev start : State
start = record {
  round = BulkRoundTracker_new;
  replay = cache;
  stats = RelayStats_new;
  rng_state = 4;
  outbound = out.new relay_channel_capacity;
  cover_tx = some 0;
}

abbrev packet : SphinxPacket
packet = packet_of (regions 7)

abbrev ran : List RelayEvent → State → Bool × State
ran = run toy subtle percent rng delay out cover_send node

-- A list is never closed, so the loop never ends.
route_open :
    (result : Result CryptoError Processed) (s : State)
    → is_ok (route toy subtle percent rng delay out cover_send node result s).0 ≡ true
unfolding route forward_packet
route_open (ok (forward next_hop next)) s = elim (Bool-cases (is_cover_sink_hop next_hop)) [
  | inl sink ↦ rw sink refl
  | inr real ↦
      let item : ForwardedPacket ℕ = record {
        next_hop = next_hop;
        packet = next;
        delay_applied = node.config.mu;
      } in
      let never = send_if-open (ltb (length s.outbound.items) s.outbound.room) s.outbound item in
      rw real (ap is_ok (try_send_drop_newest-open out s.outbound item s.stats.queue_dropped never))
]
route_open (ok loop_returned) s = refl
route_open (ok dropped) s = refl
route_open (err integrity_failure) s = refl
route_open (err replay_rejected) s = refl
route_open (err e) s = refl

run_open : (es : List RelayEvent) (s : State) → (ran es s).0 ≡ true
unfolding run turn process_one_packet
run_open [] s = refl
run_open (control command ∷ es) s = run_open es _
run_open (taken ∷ es) s = run_open es _
run_open (inbound next ∷ es) s =
    let r = process toy subtle percent next node.secret s.replay in
    rw (route_open r.0 (record s { replay = r.1 }))
      (run_open es (turn toy subtle percent rng delay out cover_send node (inbound next) s).1)

abbrev events : List RelayEvent
events =
    control (begin_round l2_uniform_batched five)
    ∷ inbound packet
    ∷ taken
    ∷ inbound packet
    ∷ control end_round
    ∷ []

run-Counts_example :
    handled (ran events start).1.stats % 2 ^ 64 ≡ (handled RelayStats_new + 2) % 2 ^ 64
run-Counts_example =
    run-Counts toy subtle percent rng delay out cover_send node events start (run_open events start)

run-IsBalanced_example :
    IsBalanced toy subtle percent rng delay out cover_send node
      (0 + taken_along toy subtle percent rng delay out cover_send node events start)
      (ran events start).1
unfolding RelayStats_new
run-IsBalanced_example =
    run-IsBalanced toy subtle percent rng delay out cover_send node events 0 start
      (run_open events start) (record { within = omega arith; balanced = refl })

process_one_packet_twice_example :
    let s = (process_one_packet toy subtle percent rng delay out cover_send node packet start).1 in
    process_one_packet toy subtle percent rng delay out cover_send node packet s ≡ (
      ok tt,
      record s {
        stats = record s.stats { replay_error_count = fetch_add s.stats.replay_error_count 1 };
      },
    )
process_one_packet_twice_example =
    process_one_packet_twice toy subtle percent rng delay out cover_send node packet start []
      outcome cache-Holds accepted

abbrev opened : State
opened =
    (turn toy subtle percent rng delay out cover_send node
      (control (begin_round l2_uniform_batched five)) start).1

abbrev round_events : List RelayEvent
round_events = inbound packet ∷ taken ∷ inbound packet ∷ []

relay_round-constant_example :
    let t = (ran round_events opened).1 in
    let u = (turn toy subtle percent rng delay out cover_send node (control end_round) t).1 in
    let real = to_forward toy subtle percent rng delay out cover_send node round_events cache in
    (t.stats.forwarded_count % 2 ^ 64 ≡ (0 + real) % 2 ^ 64)
    × (u.stats.cover_flow_count % 2 ^ 64 ≡ (0 + (5 - real)) % 2 ^ 64)
    × ((flows : List CoverFlow) × (length flows ≡ 5 - real)
        × (u.cover_tx
            ≡ send_cover toy subtle percent rng delay out cover_send flows start.cover_tx))
unfolding RelayStats_new
relay_round-constant_example =
    relay_round-constant toy subtle percent rng delay out cover_send node round_events five start
      refl (omega arith) (omega arith) tt (run_open round_events opened)
