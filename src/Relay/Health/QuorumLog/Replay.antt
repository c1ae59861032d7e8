-- ===== src/Relay/Health/QuorumLog/Replay.antt =====
-- crates/aegis-relay/src/health_quorum_log.rs: what a log makes of the records of its file.
use anonymous.Common.Results.{Result, ok, err, ◌>>=◌}
use anonymous.Common.Tables.{find, put, erase, member, include, bytes_key, pair_key, nat_key}
use anonymous.Common.{ℕ, not, none, some, List, [], ◌∷◌, ◌++◌, length, leb, if◌then◌else◌}
use anonymous.Relay.Labels.{gossip_diversity_key}
use anonymous.Relay.Rates.{Floats, median_outcome_counts}
use anonymous.Relay.Health.{Report, Reports, observations_of, reports_or_new}
use anonymous.Relay.Health.QuorumLog.{
  QuorumLogError, conflicting_advert, HealthQuorumLogEntry, from_record_bytes, PendingKey, SeenKey,
  Disk, HealthQuorumLog, is_authority, median_put,
}

module _ (disk : Disk) where
  -- What `replay_entry` does once the entry is known to agree with those before it.
  abbrev recall : HealthQuorumLog disk → HealthQuorumLogEntry → HealthQuorumLog disk
  recall log entry =
      let key : PendingKey = (entry.epoch, entry.advert.subject) in
      let report : Report = record {
        successes = entry.advert.successes;
        failures = entry.advert.failures;
        diversity = gossip_diversity_key none none entry.advert.reporter;
      } in
      let log = record log { entries = log.entries ++ (entry ∷ []) } in
      if member key log.applied
      then log
      else if not (is_authority disk log entry.advert.reporter)
      then log
      else record log {
        pending =
            put key (put entry.advert.reporter report (reports_or_new (find key log.pending)))
              log.pending;
      }

  unfoldable pub replay_entry :
      HealthQuorumLog disk → HealthQuorumLogEntry → Result QuorumLogError (HealthQuorumLog disk)
  replay_entry log entry =
      let key : SeenKey = (entry.epoch, (entry.advert.reporter, entry.advert.subject)) in
      let payload : ℕ × ℕ = (entry.advert.successes, entry.advert.failures) in
      elim (find key log.seen) [
        | none ↦ ok (recall (record log { seen = put key payload log.seen }) entry)
        | some prev ↦
            if pair_key.same prev payload then ok (recall log entry) else err conflicting_advert
      ]

  -- The `while` of `replay_from_disk`, on the whole records of the file.
  unfoldable pub replay_all :
      HealthQuorumLog disk → List (List ℕ) → Result QuorumLogError (HealthQuorumLog disk)
  replay_all log [] = ok log
  replay_all log (buf ∷ records) =
      from_record_bytes buf >>= λ entry. replay_entry log entry >>= λ log. replay_all log records

  module _ (f : Floats) where
    -- The loop of `finalize_replayed_quorums` over the entries that were pending before it.
    unfoldable pub finalize :
        List (PendingKey × Reports) → HealthQuorumLog disk → HealthQuorumLog disk
    finalize [] log = log
    finalize ((key, reports) ∷ entries) log =
        let done = finalize entries (record log {
          applied_medians =
              median_put disk f key (median_outcome_counts f (observations_of reports))
                log.applied_medians;
          applied = include key log.applied;
          pending = erase key log.pending;
        }) in
        let kept = finalize entries log in
        if leb log.majority_k (length reports) then done else kept

    unfoldable pub replay_from_disk :
        HealthQuorumLog disk → List (List ℕ) → Result QuorumLogError (HealthQuorumLog disk)
    replay_from_disk log records = replay_all log records >>= λ log. ok (finalize log.pending log)
