-- ===== src/Relay/Health/QuorumLog.antt =====
-- crates/aegis-relay/src/health_quorum_log.rs: the log of signed reports, which merges a subject's
-- reports of an epoch when enough authorities have sent one.
--
-- The file behind the log is the parameter `Disk`; a write gives back whether it failed, and the
-- file. The signed checkpoint of an epoch is left out.
pub mod Replay
pub mod Append
pub mod Extends
pub mod Once
pub mod Quorum
use anonymous.Common.Results.{Result, ok, err, ◌>>=◌}
use anonymous.Common.Slices.{slice}
use anonymous.Common.Tables.{find, put, erase, member, include, bytes_key, pair_key, nat_key, Key}
use anonymous.Common.{
  ℕ, zero, suc, ◌+◌, ◌/◌, ◌≡◌, Bool, true, false, not, ◌&&◌, Option, none, some, List, [], ◌∷◌,
  ◌++◌, map, length, max, ltb, leb, ◌==◌, if◌then◌else◌,
}
use anonymous.Sphinx.{le_bytes}
use anonymous.Relay.Health.{
  Report, Reports, observations_of, diversity_of, reports_or_new, GossipMergeOutcome,
  PeerHealthTracker, apply_quorum_median,
}
use anonymous.Relay.Rates.{Floats, median_outcome_counts}
use anonymous.Relay.Labels.{PeerId, Text, gossip_diversity_key, trim}
use anonymous.Relay.Health.Advert.{
  advert_sig_len, HealthGossipError, Ed25519, PeerHealthAdvert, verify, from_le_bytes,
}

abbrev pub quorum_log_record_len : ℕ
quorum_log_record_len = 8 + 32 + 32 + 8 + 8 + 64

pub data QuorumLogError : Type 0 where
  malformed_record bad_log_signature not_authority conflicting_advert io_error : QuorumLogError

pub record HealthQuorumLogEntry : Type 0 where
  pub epoch : ℕ
  pub advert : PeerHealthAdvert

unfoldable pub record_bytes : HealthQuorumLogEntry → List ℕ
record_bytes entry =
    le_bytes 8 entry.epoch
    ++ (entry.advert.reporter
        ++ (entry.advert.subject
            ++ (le_bytes 8 entry.advert.successes
                ++ (le_bytes 8 entry.advert.failures ++ entry.advert.signature))))

unfoldable pub from_record_bytes : List ℕ → Result QuorumLogError HealthQuorumLogEntry
from_record_bytes buf =
    if not (length buf == quorum_log_record_len)
    then err malformed_record
    else let advert : PeerHealthAdvert = record {
      reporter = slice buf 8 32;
      subject = slice buf 40 32;
      successes = from_le_bytes (slice buf 72 8);
      failures = from_le_bytes (slice buf 80 8);
      timestamp_secs = 0;
      signature = slice buf 88 advert_sig_len;
    } in
      ok (record { epoch = from_le_bytes (slice buf 0 8); advert = advert })

pub data QuorumAppendOutcome : Type 0 where
  log_buffered : ℕ → ℕ → QuorumAppendOutcome
  log_waiting_diversity : ℕ → ℕ → ℕ → QuorumAppendOutcome
  log_applied : ℕ → ℕ → QuorumAppendOutcome
  log_quarantined : ℕ → ℕ → QuorumAppendOutcome
  duplicate : QuorumAppendOutcome

-- Epoch and subject; epoch, reporter and subject.
abbrev pub PendingKey : Type 0
PendingKey = ℕ × List ℕ

abbrev pub SeenKey : Type 0
SeenKey = ℕ × (List ℕ × List ℕ)

-- `create_dir_all`, `open`, `write_all` and `flush`: whether one failed, and the file after it.
pub record Disk : Type 1 where
  pub File : Type 0
  pub append : File → List ℕ → Bool × File

abbrev pub advert_epoch : ℕ → ℕ → ℕ
advert_epoch timestamp_secs epoch_secs = timestamp_secs / max epoch_secs 1

-- The key of a reporter without a label is its id.
abbrev pub diversity_or_id : Text → PeerId → Text
diversity_or_id key reporter = elim (trim key) [
  | [] ↦ gossip_diversity_key none none reporter
  | c ∷ text ↦ c ∷ text
]

module _ (disk : Disk) where
  pub record HealthQuorumLog : Type 0 where
    pub file : Option disk.File
    pub majority_k : ℕ
    pub authority_set : List PeerId
    pub seen : List (SeenKey × (ℕ × ℕ))
    pub pending : List (PendingKey × Reports)
    pub applied : List PendingKey
    pub applied_medians : List (PendingKey × (ℕ × ℕ))
    pub entries : List HealthQuorumLogEntry

  abbrev pub HealthQuorumLog_new : ℕ → List PeerId → HealthQuorumLog
  HealthQuorumLog_new majority_k authority_set = record {
    file = none;
    majority_k = max majority_k 1;
    authority_set = authority_set;
    seen = [];
    pending = [];
    applied = [];
    applied_medians = [];
    entries = [];
  }

  abbrev pub with_persist_path : HealthQuorumLog → disk.File → HealthQuorumLog
  with_persist_path log file = record log { file = some file }

  unfoldable pub epoch_subject_applied : HealthQuorumLog → ℕ → PeerId → Bool
  epoch_subject_applied log epoch subject = member (epoch, subject) log.applied

  -- Whether the reporter counts.
  unfoldable pub is_authority : HealthQuorumLog → PeerId → Bool
  is_authority log reporter =
      if length log.authority_set == 0 then true else member reporter log.authority_set

  abbrev file_of :
      HealthQuorumLog → Bool × disk.File → HealthQuorumLog × Result QuorumLogError (Unit {0})
  file_of log (failed, file) =
      (record log { file = some file }, if failed then err io_error else ok tt)

  unfoldable pub persist_entry :
      HealthQuorumLog → HealthQuorumLogEntry → HealthQuorumLog × Result QuorumLogError (Unit {0})
  persist_entry log entry = elim log.file [
    | none ↦ (log, ok tt)
    | some file ↦ file_of log (disk.append file (record_bytes entry))
  ]

  module _ (f : Floats) where
    abbrev pub median_put :
        PendingKey → Option (ℕ × ℕ) → List (PendingKey × (ℕ × ℕ)) → List (PendingKey × (ℕ × ℕ))
    median_put key none medians = medians
    median_put key (some counts) medians = put key counts medians

    -- The log and the tracker after an append, and its result.
    pub record Appended : Type 0 where
      pub log : HealthQuorumLog
      pub tracker : PeerHealthTracker f
      pub result : Result QuorumLogError QuorumAppendOutcome

    abbrev pub refused : HealthQuorumLog → PeerHealthTracker f → QuorumLogError → Appended
    refused log tracker e = record { log = log; tracker = tracker; result = err e }

    abbrev pub closed_log : HealthQuorumLog → PendingKey → HealthQuorumLog
    closed_log log key = record log {
      pending = erase key log.pending;
      applied = include key log.applied;
    }

    -- The `match` on the tracker's answer.
    abbrev pub settle :
        HealthQuorumLog
        → PendingKey
        → List (ℕ × ℕ)
        → PeerHealthTracker f × GossipMergeOutcome
        → Appended
    settle log key observations (tracker, GossipMergeOutcome.waiting_diversity have orgs need) =
        record { log = log; tracker = tracker; result = ok (log_waiting_diversity have orgs need) }
    settle log key observations (tracker, GossipMergeOutcome.quarantined reporters orgs) = record {
      log = closed_log log key;
      tracker = tracker;
      result = ok (log_quarantined reporters orgs);
    }
    settle log key observations (tracker, GossipMergeOutcome.applied reporters orgs) = record {
      log =
          closed_log
            (record log {
              applied_medians =
                  median_put key (median_outcome_counts f observations) log.applied_medians;
            })
            key;
      tracker = tracker;
      result = ok (log_applied reporters orgs);
    }
    settle log key observations (tracker, GossipMergeOutcome.buffered have need) = record {
      log = log;
      tracker = tracker;
      result = ok (log_buffered have need);
    }

    -- The report joins those that are pending, and the merge is tried.
    unfoldable pub collect :
        HealthQuorumLog → PeerHealthTracker f → PendingKey → PeerId → Report → Appended
    collect log tracker key reporter report =
        let by_reporter = put reporter report (reports_or_new (find key log.pending)) in
        let log = record log { pending = put key by_reporter log.pending } in
        let have = length by_reporter in
        if ltb have log.majority_k
        then record { log = log; tracker = tracker; result = ok (log_buffered have log.majority_k) }
        else settle log key (observations_of by_reporter) (
            apply_quorum_median f tracker key.1 (observations_of by_reporter)
              (diversity_of by_reporter))

    -- What follows once the entry was written.
    unfoldable pub merge_new :
        HealthQuorumLog → PeerHealthTracker f → ℕ → PeerHealthAdvert → Text → Appended
    merge_new log tracker epoch advert diversity_key =
        let key : PendingKey = (epoch, advert.subject) in
        if member key log.applied
        then record { log = log; tracker = tracker; result = ok duplicate }
        else collect log tracker key advert.reporter (record {
          successes = advert.successes;
          failures = advert.failures;
          diversity = diversity_or_id diversity_key advert.reporter;
        })

    -- A report of its key that is the first: noted, written, merged.
    unfoldable pub append_new :
        HealthQuorumLog → PeerHealthTracker f → ℕ → PeerHealthAdvert → Text → Appended
    append_new log tracker epoch advert diversity_key =
        let entry : HealthQuorumLogEntry = record { epoch = epoch; advert = advert } in
        let key : SeenKey = (epoch, (advert.reporter, advert.subject)) in
        let noted = record log {
          seen = put key (advert.successes, advert.failures) log.seen;
          entries = log.entries ++ (entry ∷ []);
        } in
        let (written, outcome) = persist_entry noted entry in
        elim outcome [
          | err e ↦ record { log = written; tracker = tracker; result = err e }
          | ok _ ↦ merge_new written tracker epoch advert diversity_key
        ]

    module _ (ed : Ed25519) where
      unfoldable pub append_verified :
          HealthQuorumLog
          → PeerHealthTracker f
          → ℕ
          → PeerHealthAdvert
          → ed.VerifyingKey
          → Text
          → Appended
      append_verified log tracker epoch advert verifying_key diversity_key =
          elim (verify ed advert verifying_key) [
            | err _ ↦ refused log tracker bad_log_signature
            | ok _ ↦
                if not (is_authority log advert.reporter)
                then refused log tracker not_authority
                else elim (find (epoch, (advert.reporter, advert.subject)) log.seen) [
                  | some prev ↦
                      if not (pair_key.same prev (advert.successes, advert.failures))
                      then refused log tracker conflicting_advert
                      else record { log = log; tracker = tracker; result = ok duplicate }
                  | none ↦ append_new log tracker epoch advert diversity_key
                ]
          ]
