-- ===== src/Relay/Ingress.antt =====
-- crates/aegis-relay/src/net.rs: an inbound connection after its handshake, frame by frame.
--
-- A connection is the list of the frames that arrive, each with its time. Reading and the timeouts of tokio are left out.
pub mod Control
pub mod Delivery
mod Tests
use anonymous.Common.Results.{Result, ok, err}
use anonymous.Common.Tables.{find, bytes_key}
use anonymous.Common.{
  ℕ, zero, suc, ◌+◌, ◌-◌, ◌≡◌, Bool, true, false, not, ◌&&◌, ◌||◌, Option, none, some, List, [],
  ◌∷◌, get_or, max, if◌then◌else◌,
}
use Prim.Native.String.{String}
use anonymous.Cell.{
  Cell, Command, create, extend, data_cell, drop_cell, loop_to_self, sphinx_fragment,
  peer_health_advert, from_u8,
}
use anonymous.Kem.{CryptoError}
use anonymous.Fragment.{FragmentError, SphinxReassembler, new, push}
use anonymous.CoverFlow.{is_discard_cover_fragment}
use anonymous.Link.{Aead, LinkKey, LinkHandshakeBinding, peer_id, with_kem_commitment, open_frame}
use anonymous.Relay.Node.{RelayId}
use anonymous.Relay.Channels.{Mpsc, fetch_add, ChannelClosed}
use anonymous.Relay.FairQueue.{
  FairHub, try_enqueue, set_weight, default_peer_queue_weight, peer_queue_weight_from_success_rate,
}
use anonymous.Relay.Peers.{PeerTable}
use anonymous.Relay.Limits.{
  Rates, IngressRateLimitConfig, TokenBucket, InboundRateLimitState, InboundRateLimitState_new,
  allow_frame,
}
use anonymous.Relay.Health.{PeerHealthTracker, success_rate}
use anonymous.Relay.Rates.{Floats}
use anonymous.Relay.Health.Advert.{
  Ed25519, PeerHealthAdvert, from_cell, default_max_advert_age_secs,
}
use anonymous.Relay.Health.QuorumLog.{Disk, HealthQuorumLog}
use anonymous.Relay.Health.Gossip.{accept_advert, accept_advert_quorum}

pub data NetError : Type 0 where
  io : String → NetError
  crypto : CryptoError → NetError
  peer_not_found : RelayId → NetError
  fragment_error : FragmentError → NetError
  unidentified_inbound : NetError
  noise_config : String → NetError
  read_timeout_error : ℕ → NetError
  connection_limit : ℕ → NetError

abbrev pub link_handshake_binding : Bool → RelayId → Option (List ℕ) → Option LinkHandshakeBinding
link_handshake_binding identity_binding peer_relay_id kem_public_commitment =
    if not identity_binding then none else elim kem_public_commitment [
      | none ↦ some (peer_id peer_relay_id)
      | some commitment ↦ some (with_kem_commitment (peer_id peer_relay_id) commitment)
    ]

-- A frame and when it was read: by the clock of the bucket, and in seconds of Unix time.
pub record Arrival : Type 0 where
  pub now : ℕ
  pub unix_secs : ℕ
  pub frame : List ℕ

module _ (aead : Aead) (q : Rates) (f : Floats) (ed : Ed25519) (disk : Disk)
    (m : Mpsc (List ℕ)) where
  -- What a connection has for its whole life.
  pub record Session : Type 0 where
    pub session_key : LinkKey
    pub matched_peer : Option RelayId
    pub peer_table : PeerTable
    pub slot_id : ℕ
    pub gossip_epoch_secs : ℕ

  -- What it changes: its own state, the hub, and the health that all connections share.
  pub record Ingress : Type 0 where
    pub reassembler : SphinxReassembler
    pub rate_limit : InboundRateLimitState q
    pub hub : FairHub m
    pub queue_drops : ℕ
    pub peer_health : Option (PeerHealthTracker f)
    pub health_quorum_log : Option (HealthQuorumLog disk)

  pub data Turn : Type 0 where
    going : Ingress → Turn
    ended : Ingress → Result NetError (Unit {0}) → Turn

  unfoldable pub peer_queue_weight_for :
      (f.F → ℕ) → Option RelayId → Option (PeerHealthTracker f) → ℕ
  peer_queue_weight_for scaled none health = default_peer_queue_weight
  peer_queue_weight_for scaled (some id) none = default_peer_queue_weight
  peer_queue_weight_for scaled (some id) (some health) =
      peer_queue_weight_from_success_rate scaled (success_rate f health id)

  abbrev take_report :
      Session → ℕ → RelayId → PeerHealthTracker f → PeerHealthAdvert → Ingress → Ingress
  take_report session now link_peer tracker advert s = elim s.health_quorum_log [
    | some log ↦
        let r =
          accept_advert_quorum f ed disk advert link_peer session.peer_table now
            default_max_advert_age_secs session.gossip_epoch_secs tracker (some log) in
        record s { peer_health = some r.tracker; health_quorum_log = r.log }
    | none ↦
        let (tracker, _) =
          accept_advert f ed advert link_peer session.peer_table now default_max_advert_age_secs
            tracker in
        record s { peer_health = some tracker }
  ]

  -- The branch for `Command::PeerHealthAdvert`; the outcome of a report is not looked at.
  unfoldable pub handle_advert : Session → ℕ → Cell → Ingress → Ingress
  handle_advert session now cell s = elim s.peer_health [
    | none ↦ s
    | some tracker ↦ elim session.matched_peer [
      | none ↦ s
      | some link_peer ↦ elim (from_cell cell) [
        | err _ ↦ s
        | ok advert ↦ take_report session now link_peer tracker advert s
      ]
    ]
  ]

  abbrev enqueue_turn : Ingress → FairHub m × (ℕ × Result ChannelClosed (Unit {0})) → Turn
  enqueue_turn s (hub, (dropped, err _)) =
      ended (record s { hub = hub; queue_drops = dropped }) (ok tt)
  enqueue_turn s (hub, (dropped, ok _)) = going (record s { hub = hub; queue_drops = dropped })

  -- What `push` gave: an error ends the connection, a packet goes to the queue of the link.
  abbrev pub pushed :
      Session → Ingress → SphinxReassembler × Result FragmentError (Option (List ℕ)) → Turn
  pushed session s (r, err e) = ended (record s { reassembler = r }) (err (fragment_error e))
  pushed session s (r, ok none) = going (record s { reassembler = r })
  pushed session s (r, ok (some packet)) =
      enqueue_turn (record s { reassembler = r })
        (try_enqueue m s.hub session.slot_id packet s.queue_drops)

  -- The `match` on the command byte.
  abbrev pub dispatch : Session → ℕ → Cell → Ingress → Option Command → Turn
  dispatch session now cell s (some drop_cell) = going s
  dispatch session now cell s (some loop_to_self) = going s
  dispatch session now cell s (some peer_health_advert) = going (handle_advert session now cell s)
  dispatch session now cell s (some sphinx_fragment) =
      if is_discard_cover_fragment cell then going s else pushed session s (push s.reassembler cell)
  dispatch session now cell s _ = going s

  -- The body of the loop.
  unfoldable pub turn : Session → Ingress → Arrival → Turn
  turn session s a =
      let (allowed, rate_limit) = allow_frame q a.now s.rate_limit in
      let s = record s { rate_limit = rate_limit } in
      if not allowed then going s else elim (open_frame aead session.session_key a.frame) [
        | err e ↦ ended s (err (crypto e))
        | ok cell ↦ dispatch session a.unix_secs cell s (from_u8 (get_or cell 0 0))
      ]

  -- The loop, until it ends or no more frames have come.
  unfoldable pub run : Session → Ingress → List Arrival → Turn
  run session s [] = going s
  run session s (a ∷ frames) = elim (turn session s a) [
    | ended s' result ↦ ended s' result
    | going s' ↦ run session s' frames
  ]

  -- `run_inbound_connection` from the end of the handshake on.
  unfoldable pub run_inbound_connection :
      (f.F → ℕ)
      → Session
      → IngressRateLimitConfig q
      → ℕ
      → Option (TokenBucket q)
      → ℕ
      → FairHub m
      → ℕ
      → Option (PeerHealthTracker f)
      → Option (HealthQuorumLog disk)
      → List Arrival
      → Turn
  run_inbound_connection scaled session config dropped global now hub queue_drops health log
        frames =
      run session
        (record {
          reassembler = new;
          rate_limit = InboundRateLimitState_new q config dropped global now;
          hub =
              set_weight m hub session.slot_id
                (peer_queue_weight_for scaled session.matched_peer health);
          queue_drops = queue_drops;
          peer_health = health;
          health_quorum_log = log;
        })
        frames
