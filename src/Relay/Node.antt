-- ===== src/Relay/Node.antt =====
-- crates/aegis-relay/src/node.rs: one mix relay, from the packets it receives to those it forwards.
--
-- The task's state is a record that every handler takes and returns. `tokio::select!` picks one of
-- its two channels at a time, and between two turns the link bridge may take a packet from the other
-- end of the outbound channel, so a run is a list of these events in any order. Counters of u64 wrap. The
-- delay is drawn by the parameter `sample_mixing_delay` and recorded; time itself is left out, and
-- so are the acknowledgements of commands. `tx.send(..).await` on the channel for cover flows is
-- the parameter `cover_send`, which says whether the channel was still open.
mod Tests
pub mod Accounts
pub mod Outbound
pub mod Forwards
pub mod Rounds
use anonymous.Common.Results.{Result, ok, err}
use anonymous.Common.Slices.{slice}
use anonymous.Common.{
  ℕ, ◌+◌, ◌%◌, ◌^◌, Bool, true, false, Option, none, some, List, [], ◌∷◌, if◌then◌else◌,
}
use anonymous.Kem.{Primitives, CryptoError, integrity_failure, replay_rejected, RelayKemSecret}
use anonymous.Negotiator.{SecurityDial, CoverRequirement}
use anonymous.Replay.{CtEq, ReplayCache}
use anonymous.Sphinx.{
  Processed, forward, loop_returned, dropped, SphinxPacket, process, off_delta, delta_len,
}
use anonymous.CoverFlow.{
  is_cover_sink_hop, CoverFlow, BulkRoundTracker, BulkRoundTracker_new, begin, observe_real_flow,
  Rng, CoverEmitResult, close_and_emit,
}
use anonymous.Relay.Channels.{Mpsc, fetch_add, ChannelClosed, Sending, try_send_drop_newest}
use anonymous.Relay.Config.{
  RelayConfig, CoverPolicyError, requirement, cover_flow_config, validate_spawn,
}

-- `Result::is_ok`.
abbrev pub is_ok : {E A : Type 0} → Result E A → Bool
is_ok (ok a) = true
is_ok (err e) = false

-- `Option::is_some`.
abbrev pub is_present : {A : Type 0} → Option A → Bool
is_present none = false
is_present (some a) = true

abbrev pub relay_channel_capacity : ℕ
relay_channel_capacity = 64

-- `RelayId([u8; 32])`.
abbrev pub RelayId : Type 0
RelayId = List ℕ

pub record ForwardedPacket (D : Type 0) : Type 0 where
  pub next_hop : RelayId
  pub packet : SphinxPacket
  pub delay_applied : D

pub record RelayStats : Type 0 where
  pub loop_return_count : ℕ
  pub dropped_count : ℕ
  pub cover_onion_sink_count : ℕ
  pub cover_flow_count : ℕ
  pub cover_cell_count : ℕ
  pub integrity_error_count : ℕ
  pub replay_error_count : ℕ
  pub other_error_count : ℕ
  pub forwarded_count : ℕ
  pub queue_dropped : ℕ

pub RelayStats_new : RelayStats
RelayStats_new = record {
  loop_return_count = 0;
  dropped_count = 0;
  cover_onion_sink_count = 0;
  cover_flow_count = 0;
  cover_cell_count = 0;
  integrity_error_count = 0;
  replay_error_count = 0;
  other_error_count = 0;
  forwarded_count = 0;
  queue_dropped = 0;
}

pub record RelayCoarseStats : Type 0 where
  pub processed_ok : ℕ
  pub processed_fail : ℕ
  pub cover_emitted : ℕ
  pub queue_dropped : ℕ

-- The sums are of u64.
unfoldable pub coarse : RelayStats → RelayCoarseStats
coarse s = record {
  processed_ok =
      (s.forwarded_count + s.loop_return_count + s.dropped_count + s.cover_onion_sink_count)
      % 2 ^ 64;
  processed_fail = (s.integrity_error_count + s.replay_error_count + s.other_error_count) % 2 ^ 64;
  cover_emitted = s.cover_flow_count;
  queue_dropped = s.queue_dropped;
}

pub data BulkRoundCommand : Type 0 where
  begin_round : SecurityDial → CoverRequirement → BulkRoundCommand
  end_round : BulkRoundCommand

pub data RelayEvent : Type 0 where
  control : BulkRoundCommand → RelayEvent
  inbound : SphinxPacket → RelayEvent
  taken : RelayEvent

module _ (p : Primitives) where
  pub record RelayNode (M : Type 0) : Type 0 where
    pub id : RelayId
    pub secret : RelayKemSecret p
    pub config : RelayConfig p M

  module _ (subtle : CtEq) {F : Type 0} (fill_threshold : ℕ → F → ℕ) {S : Type 0} (rng : Rng p S)
      {M D : Type 0} (sample_mixing_delay : M → S → D × S) (out : Mpsc (ForwardedPacket D))
      {C : Type 0} (cover_send : C → CoverFlow → Bool × C) where
    pub record RelayState : Type 0 where
      pub round : BulkRoundTracker
      pub replay : ReplayCache F
      pub stats : RelayStats
      pub rng_state : S
      pub outbound : out.Channel
      pub cover_tx : Option C

    -- The real packet to its next hop, behind the round's count and the mixing delay.
    unfoldable pub forward_packet :
        RelayNode M
        → RelayId
        → SphinxPacket
        → RelayState
        → Result ChannelClosed (Unit {0}) × RelayState
    forward_packet node next_hop packet s =
        let (delay, rng_state) = sample_mixing_delay node.config.mu s.rng_state in
        let item : ForwardedPacket D = record {
          next_hop = next_hop;
          packet = packet;
          delay_applied = delay;
        } in
        let sending = try_send_drop_newest out s.outbound item s.stats.queue_dropped in
        (
          sending.outcome,
          record s {
            round = observe_real_flow s.round;
            rng_state = rng_state;
            outbound = sending.channel;
            stats = record s.stats {
              forwarded_count = fetch_add s.stats.forwarded_count 1;
              queue_dropped = sending.dropped;
            };
          },
        )

    abbrev count : (RelayStats → RelayStats) → RelayState → RelayState
    count f s = record s { stats = f s.stats }

    -- The branches on the result of `sphinx::process`.
    unfoldable pub route :
        RelayNode M
        → Result CryptoError Processed
        → RelayState
        → Result ChannelClosed (Unit {0}) × RelayState
    route node (ok (forward next_hop packet)) s =
        if is_cover_sink_hop next_hop
        then (
          ok tt,
          count (λ t. record t { cover_onion_sink_count = fetch_add t.cover_onion_sink_count 1 }) s,
        )
        else forward_packet node next_hop packet s
    route node (ok loop_returned) s =
        (ok tt, count (λ t. record t { loop_return_count = fetch_add t.loop_return_count 1 }) s)
    route node (ok dropped) s =
        (ok tt, count (λ t. record t { dropped_count = fetch_add t.dropped_count 1 }) s)
    route node (err integrity_failure) s = (
      ok tt,
      count (λ t. record t { integrity_error_count = fetch_add t.integrity_error_count 1 }) s,
    )
    route node (err replay_rejected) s =
        (ok tt, count (λ t. record t { replay_error_count = fetch_add t.replay_error_count 1 }) s)
    route node (err _) s =
        (ok tt, count (λ t. record t { other_error_count = fetch_add t.other_error_count 1 }) s)

    unfoldable pub process_one_packet :
        RelayNode M → SphinxPacket → RelayState → Result ChannelClosed (Unit {0}) × RelayState
    process_one_packet node packet s =
        let (result, replay) = process p subtle fill_threshold packet node.secret s.replay in
        route node result (record s { replay = replay })

    -- The loop over the flows of a round, which a closed channel ends.
    unfoldable pub send_flows : List CoverFlow → C → C
    send_flows [] tx = tx
    send_flows (flow ∷ flows) tx =
        let (is_open, tx') = cover_send tx flow in
        let rest = send_flows flows tx' in if is_open then rest else tx'

    abbrev pub send_cover : List CoverFlow → Option C → Option C
    send_cover flows none = none
    send_cover flows (some tx) = some (send_flows flows tx)

    abbrev pub record_cover : Option (CoverEmitResult p) → RelayState → RelayState
    record_cover none s = s
    record_cover (some r) s = record s {
      stats = record s.stats {
        cover_flow_count = fetch_add s.stats.cover_flow_count r.cover_flow_count;
        cover_cell_count = fetch_add s.stats.cover_cell_count r.cover_cell_count;
      };
      cover_tx = send_cover r.cover_flows s.cover_tx;
    }

    unfoldable pub apply_command : RelayNode M → BulkRoundCommand → RelayState → RelayState
    apply_command node (begin_round dial requirement) s = record s {
      round = begin s.round dial requirement;
    }
    apply_command node end_round s =
        let (round, (result, rng_state)) =
          close_and_emit p rng s.round (cover_flow_config p node.config.bulk_cover) s.rng_state in
        record_cover result (record s { round = round; rng_state = rng_state })

    -- `outbound_rx.recv()` of the link bridge; where nothing is queued, it waits.
    abbrev pub take_outbound : RelayState → RelayState
    take_outbound s = record s { outbound = (out.try_recv s.outbound).1 }

    -- One turn of the loop, or of the bridge: whether it goes on, and the state.
    unfoldable pub turn : RelayNode M → RelayEvent → RelayState → Bool × RelayState
    turn node (control command) s = (true, apply_command node command s)
    turn node (inbound packet) s =
        let (result, s') = process_one_packet node packet s in (is_ok result, s')
    turn node taken s = (true, take_outbound s)

    -- The loop over the events, until a closed outbound channel ends it.
    unfoldable pub run : RelayNode M → List RelayEvent → RelayState → Bool × RelayState
    run node [] s = (true, s)
    run node (event ∷ events) s =
        let (goes_on, s') = turn node event s in
        let rest = run node events s' in if goes_on then rest else (false, s')

    pub spawn :
        RelayNode M
        → ReplayCache F
        → S
        → out.Channel
        → Option C
        → Result CoverPolicyError RelayState
    spawn node replay rng_state outbound cover_tx =
        elim (validate_spawn p node.config.bulk_cover (is_present cover_tx)) [
          | err e ↦ err e
          | ok _ ↦ ok (record {
            round = BulkRoundTracker_new;
            replay = replay;
            stats = RelayStats_new;
            rng_state = rng_state;
            outbound = outbound;
            cover_tx = cover_tx;
          })
        ]

    -- The command that opens the first round of a relay with cover enabled.
    unfoldable pub start_bulk_cover : RelayNode M → RelayState → RelayState
    start_bulk_cover node s =
        if node.config.bulk_cover.enabled
        then apply_command node
            (begin_round node.config.bulk_cover.dial (requirement p node.config.bulk_cover)) s
        else s

    -- What the rotation task sends at each of its ticks.
    unfoldable pub rotation : RelayNode M → List RelayEvent
    rotation node =
        control end_round
        ∷ control (begin_round node.config.bulk_cover.dial (requirement p node.config.bulk_cover))
        ∷ []

abbrev pub packet_delta : SphinxPacket → List ℕ
packet_delta packet = slice packet off_delta delta_len
