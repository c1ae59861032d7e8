-- ===== src/Relay/Health/Gossip.antt =====
-- crates/aegis-relay/src/health_gossip.rs: which reports of neighbors are accepted.
pub mod Genuine
use anonymous.Common.Results.{Result, ok, err, ◌>>=◌}
use anonymous.Common.Tables.{find, bytes_key}
use anonymous.Common.{
  ℕ, ◌+◌, ◌-◌, ◌≡◌, Bool, true, false, not, Option, none, some, List, leb, bytes_eq, if◌then◌else◌,
}
use anonymous.Relay.Node.{RelayId}
use anonymous.Relay.Peers.{PeerInfo, PeerTable}
use anonymous.Relay.Health.{GossipMergeOutcome, PeerHealthTracker, ingest_gossip_observation}
use anonymous.Relay.Rates.{Floats}
use anonymous.Relay.Labels.{Text, gossip_diversity_key}
use anonymous.Relay.Health.Advert.{
  Ed25519, PeerHealthAdvert, HealthGossipError, verify, malformed_advert, bad_signature,
  unknown_reporter, reporter_mismatch, stale_timestamp, missing_verifying_key, equivocation,
}
use anonymous.Relay.Health.QuorumLog.{
  QuorumLogError, malformed_record, bad_log_signature, not_authority, conflicting_advert, io_error,
  QuorumAppendOutcome, log_buffered, log_waiting_diversity, log_applied, log_quarantined, duplicate,
  Disk, HealthQuorumLog, Appended, append_verified, advert_epoch,
}

unfoldable pub skew_ok : ℕ → ℕ → ℕ → Bool
skew_ok now_secs timestamp_secs max_age_secs =
    if leb timestamp_secs now_secs
    then leb (now_secs - timestamp_secs) max_age_secs
    else leb (timestamp_secs - now_secs) 120

abbrev pub gossip_error_of : QuorumLogError → HealthGossipError
gossip_error_of bad_log_signature = bad_signature
gossip_error_of conflicting_advert = equivocation
gossip_error_of not_authority = unknown_reporter
gossip_error_of malformed_record = malformed_advert
gossip_error_of io_error = malformed_advert

module _ (f : Floats) (ed : Ed25519) where
  abbrev pub verifying_key_of : Option (List ℕ) → Result HealthGossipError ed.VerifyingKey
  verifying_key_of none = err missing_verifying_key
  verifying_key_of (some bytes) = elim (ed.from_bytes bytes) [
    | none ↦ err missing_verifying_key
    | some key ↦ ok key
  ]

  abbrev pub peer_of : Option PeerInfo → Result HealthGossipError PeerInfo
  peer_of none = err unknown_reporter
  peer_of (some peer) = ok peer

  -- The checks that both functions make first, up to the key.
  unfoldable pub known_peer :
      PeerHealthAdvert → RelayId → PeerTable → Result HealthGossipError (PeerInfo × ed.VerifyingKey)
  known_peer advert link_peer peer_table =
      if not (bytes_eq link_peer advert.reporter)
      then err reporter_mismatch
      else peer_of (find link_peer peer_table) >>= λ peer.
          verifying_key_of peer.gossip_verifying_key >>= λ key. ok (peer, key)

  abbrev pub label_of : PeerInfo → PeerHealthAdvert → Text
  label_of peer advert = gossip_diversity_key peer.org_id peer.jurisdiction advert.reporter

  abbrev pub ingest :
      PeerHealthTracker f
      → PeerHealthAdvert
      → Text
      → PeerHealthTracker f × Result HealthGossipError GossipMergeOutcome
  ingest tracker advert diver =
      let (tracker, outcome) =
        ingest_gossip_observation f tracker advert.reporter advert.subject advert.successes
          advert.failures diver in
      (tracker, ok outcome)

  unfoldable pub accept_advert :
      PeerHealthAdvert
      → RelayId
      → PeerTable
      → ℕ
      → ℕ
      → PeerHealthTracker f
      → PeerHealthTracker f × Result HealthGossipError GossipMergeOutcome
  accept_advert advert link_peer peer_table now_secs max_age_secs tracker =
      elim (known_peer advert link_peer peer_table) [
        | err e ↦ (tracker, err e)
        | ok (peer, key) ↦ elim (verify ed advert key) [
          | err e ↦ (tracker, err e)
          | ok _ ↦
              if not (skew_ok now_secs advert.timestamp_secs max_age_secs)
              then (tracker, err stale_timestamp)
              else ingest tracker advert (label_of peer advert)
        ]
      ]

  module _ (disk : Disk) where
    pub record Accepted : Type 0 where
      pub log : Option (HealthQuorumLog disk)
      pub tracker : PeerHealthTracker f
      pub result : Result HealthGossipError GossipMergeOutcome

    abbrev pub merge_outcome_of : ℕ → QuorumAppendOutcome → GossipMergeOutcome
    merge_outcome_of k (log_buffered have need) = GossipMergeOutcome.buffered have need
    merge_outcome_of k (log_waiting_diversity have orgs need) =
        GossipMergeOutcome.waiting_diversity have orgs need
    merge_outcome_of k (log_applied reporters orgs) = GossipMergeOutcome.applied reporters orgs
    merge_outcome_of k (log_quarantined reporters orgs) =
        GossipMergeOutcome.quarantined reporters orgs
    merge_outcome_of k duplicate = GossipMergeOutcome.buffered k k

    abbrev pub accepted_of : Appended disk f → Accepted
    accepted_of r = record {
      log = some r.log;
      tracker = r.tracker;
      result = elim r.result [
        | err e ↦ err (gossip_error_of e)
        | ok outcome ↦ ok (merge_outcome_of r.log.majority_k outcome)
      ];
    }

    -- With a log the signature is checked by `append_verified`.
    abbrev pub take_advert :
        PeerHealthAdvert
        → ℕ
        → PeerHealthTracker f
        → PeerInfo
        → ed.VerifyingKey
        → Option (HealthQuorumLog disk)
        → Accepted
    take_advert advert epoch_secs tracker peer key none = elim (verify ed advert key) [
      | err e ↦ record { log = none; tracker = tracker; result = err e }
      | ok _ ↦
          let (tracker, result) = ingest tracker advert (label_of peer advert) in
          record { log = none; tracker = tracker; result = result }
    ]
    take_advert advert epoch_secs tracker peer key (some log) = accepted_of (
        append_verified disk f ed log tracker (advert_epoch advert.timestamp_secs epoch_secs) advert
          key (label_of peer advert))

    unfoldable pub accept_advert_quorum :
        PeerHealthAdvert
        → RelayId
        → PeerTable
        → ℕ
        → ℕ
        → ℕ
        → PeerHealthTracker f
        → Option (HealthQuorumLog disk)
        → Accepted
    accept_advert_quorum advert link_peer peer_table now_secs max_age_secs epoch_secs tracker
          quorum_log =
        elim (known_peer advert link_peer peer_table) [
          | err e ↦ record { log = quorum_log; tracker = tracker; result = err e }
          | ok (peer, key) ↦
              if not (skew_ok now_secs advert.timestamp_secs max_age_secs)
              then record { log = quorum_log; tracker = tracker; result = err stale_timestamp }
              else take_advert advert epoch_secs tracker peer key quorum_log
        ]
