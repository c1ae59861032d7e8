-- ===== src/Relay/Health/Tests.antt =====
-- The theorems on reports of three authorities, and two runs of the log on a disk.
use anonymous.Common.Results.{ok, err, ◌>>=◌}
use anonymous.Common.Tables.{find, put, erase, member, include, bytes_key, distinct_count}
use anonymous.Common.{
  ℕ, ◌+◌, ◌*◌, ◌<◌, ◌≡◌, ◌≢◌, refl, ap, ◌⊎◌, true, some, List, [], ◌∷◌, length, replicate,
  length-replicate, min, arith, bytes_eq, map,
}
use anonymous.Common.Slices.{slice}
use anonymous.Sphinx.{le_bytes}
use anonymous.Relay.Peers.{PeerTable, PeerInfo_new, with_gossip_verifying_key}
use anonymous.Relay.Health.{
  with_gossip_majority_k, apply_quorum_median, finish_median_merge, apply_gossip_outcomes,
  eclipse_heuristic_quarantine,
}
use anonymous.Relay.Rates.{
  rates_of, median_outcome_counts, insert_rate, sort_rates, totals_of, median_of,
}
use anonymous.Relay.Labels.{trim, trim_start, trim_end, gossip_diversity_key, hex32}
use anonymous.Relay.Health.Median.{agreeing, within, count, median_outcome_counts-within}
use anonymous.Relay.Health.Advert.{
  PeerHealthAdvert, HealthGossipError, sign, verify, signable_bytes, to_cell, from_cell,
  from_le_bytes,
}
use anonymous.Relay.Health.Advert.Codec.{verify-from_cell-to_cell-sign}
use anonymous.Relay.Health.QuorumLog.{
  HealthQuorumLog_new, with_persist_path, is_authority, persist_entry, log_buffered, duplicate,
  conflicting_advert, io_error, refused, Appended, collect, merge_new, append_new, append_verified,
  record_bytes, from_record_bytes,
}
use anonymous.Relay.Health.QuorumLog.Replay.{replay_all, replay_from_disk, replay_entry, finalize}
use anonymous.Relay.Health.QuorumLog.Append.{
  Arrival, seen_key, pending_key, payload, arrive, arrivals, Log, Tracker,
}
use anonymous.Relay.Health.QuorumLog.Once.{IsMerge, conflicting_report, merged_once}
use anonymous.Relay.Health.QuorumLog.Quorum.{Quorum, merge-Quorum}
use anonymous.Relay.Health.Gossip.{accept_advert_quorum}
use anonymous.Relay.Health.Gossip.Genuine.{Genuine, accept_advert_quorum-Genuine}
use anonymous.Relay.Health.Samples.{percents, percents-RateLaws, kept, broken, stamps}

-- Two honest reports of ten percent and one of a liar.
abbrev obs : List (ℕ × ℕ)
obs = (90, 10) ∷ (0, 100) ∷ (88, 12) ∷ []

most_agree : length (rates_of percents obs) < 2 * agreeing percents 5 15 (rates_of percents obs)
unfolding rates_of agreeing within count
most_agree = omega arith

median_outcome_counts-within_example :
    (ok_ fail : ℕ) × (rate : ℕ) × (median_outcome_counts percents obs ≡ some (ok_, fail))
    × (percents.le 5 rate ≡ true)
    × (percents.le rate 15 ≡ true)
    × (fail ≡ min (percents.portion rate (ok_ + fail)) (ok_ + fail))
median_outcome_counts-within_example =
    median_outcome_counts-within percents percents-RateLaws 5 15 obs most_agree

verify-from_cell-to_cell-sign_example :
    let a = sign stamps 7 (replicate 32 1) (replicate 32 2) 90 10 1000 in
    (from_cell (to_cell a) ≡ ok a) × (verify stamps a 7 ≡ ok tt)
verify-from_cell-to_cell-sign_example =
    verify-from_cell-to_cell-sign stamps 7 (replicate 32 1) (replicate 32 2) 90 10 1000
      (length-replicate {A = ℕ} 32 1) (length-replicate {A = ℕ} 32 2) (omega arith) (omega arith)
      (omega arith)

abbrev report : ℕ → ℕ → ℕ → Arrival kept percents stamps
report reporter successes failures = record {
  epoch = 5;
  advert = sign stamps reporter (reporter ∷ []) (9 ∷ []) successes failures 300;
  verifying_key = reporter;
  diversity_key = reporter ∷ [];
}

abbrev log : Log kept percents stamps
log = HealthQuorumLog_new kept 2 ((1 ∷ []) ∷ (2 ∷ []) ∷ (3 ∷ []) ∷ [])

abbrev tracker : Tracker kept percents stamps
tracker = with_gossip_majority_k percents 2

first_buffered :
    (arrive kept percents stamps log tracker (report 1 90 10)).result ≡ ok (log_buffered 1 2)
unfolding append_verified sign verify signable_bytes is_authority append_new persist_entry merge_new
    collect find put member bytes_eq le_bytes
first_buffered = refl

same_key :
    seen_key kept percents stamps (report 1 0 100) ≡ seen_key kept percents stamps (report 1 90 10)
unfolding sign
same_key = refl

other_payload :
    payload kept percents stamps (report 1 0 100) ≢ payload kept percents stamps (report 1 90 10)
unfolding sign
other_payload e = let first : ◌≡◌ {A = ℕ} 0 90 = ap (λ p. p.0) e in absurd (omega arith)

valid : verify stamps (report 1 0 100).advert (report 1 0 100).verifying_key ≡ ok tt
unfolding sign verify bytes_eq
valid = refl

conflicting_report_example :
    let r = arrive kept percents stamps log tracker (report 1 90 10) in
    let (log', tracker') = arrivals kept percents stamps (report 2 88 12 ∷ []) r.log r.tracker in
    arrive kept percents stamps log' tracker' (report 1 0 100)
    ≡ refused kept percents log' tracker' conflicting_advert
conflicting_report_example =
    conflicting_report kept percents stamps log tracker (report 1 90 10) (report 1 0 100)
      (report 2 88 12 ∷ []) (log_buffered 1 2) first_buffered same_key other_payload valid

abbrev one : Log kept percents stamps
one = (arrive kept percents stamps log tracker (report 1 90 10)).log

second_merges :
    IsMerge kept percents stamps (arrive kept percents stamps one tracker (report 2 88 12)).result
unfolding append_verified sign verify signable_bytes is_authority append_new persist_entry merge_new
    collect find put member bytes_eq le_bytes apply_quorum_median finish_median_merge
    median_outcome_counts rates_of totals_of insert_rate sort_rates median_of distinct_count trim
    trim_start trim_end
second_merges = tt

same_subject :
    pending_key kept percents stamps (report 3 0 100)
    ≡ pending_key kept percents stamps (report 2 88 12)
unfolding sign
same_subject = refl

merged_once_example :
    let r = arrive kept percents stamps one tracker (report 2 88 12) in
    let (log', tracker') = arrivals kept percents stamps [] r.log r.tracker in
    let r' = arrive kept percents stamps log' tracker' (report 3 0 100) in
    (r'.tracker ≡ tracker')
    × (r'.log.applied_medians ≡ log'.applied_medians)
    × (¬ IsMerge kept percents stamps r'.result)
merged_once_example =
    merged_once kept percents stamps one tracker (report 2 88 12) (report 3 0 100) [] second_merges
      same_subject

merge-Quorum_example :
    let (log', tracker') = arrivals kept percents stamps (report 1 90 10 ∷ []) log tracker in
    let r = arrive kept percents stamps log' tracker' (report 2 88 12) in
    (r.tracker ≡ tracker')
    ⊎ Quorum kept percents stamps
        (report 2 88 12 ∷ report 1 90 10 ∷ [])
        r.log
        tracker'
        r.tracker
        (pending_key kept percents stamps (report 2 88 12))
merge-Quorum_example =
    merge-Quorum kept percents stamps (report 1 90 10 ∷ []) log tracker (report 2 88 12) refl

abbrev table : PeerTable
table = (1 ∷ [], with_gossip_verifying_key (PeerInfo_new [] []) (1 ∷ [])) ∷ []

abbrev said : PeerHealthAdvert
said = sign stamps 1 (1 ∷ []) (9 ∷ []) 90 10 300

accept_advert_quorum-Genuine_example :
    let r =
      accept_advert_quorum percents stamps kept said
        (1 ∷ [])
        table
        400
        3600
        60
        tracker
        (some log) in
    Genuine percents stamps said (1 ∷ []) table 400 3600
    ⊎ ((e : HealthGossipError) × (r.result ≡ err e) × (r.tracker ≡ tracker) × (r.log ≡ some log))
accept_advert_quorum-Genuine_example =
    accept_advert_quorum-Genuine percents stamps kept said (1 ∷ []) table 400 3600 60 tracker
      (some log)

-- A report whose write failed is answered as known when it comes again, and is not pending.
abbrev lost : Arrival broken percents stamps
lost = record {
  epoch = 5;
  advert = sign stamps 1 (1 ∷ []) (9 ∷ []) 90 10 300;
  verifying_key = 1;
  diversity_key = 1 ∷ [];
}

abbrev unwritten : Appended broken percents
unwritten =
    arrive broken percents stamps (with_persist_path broken (HealthQuorumLog_new broken 2 []) [])
      tracker lost

lost_report :
    (unwritten.result ≡ err io_error)
    × (unwritten.log.pending ≡ [])
    × ((arrive broken percents stamps unwritten.log tracker lost).result ≡ ok duplicate)
unfolding append_verified sign verify signable_bytes is_authority append_new persist_entry merge_new
    collect find put member bytes_eq le_bytes record_bytes
lost_report = (refl, refl, refl)

-- Three records, of which the first two made the quorum before the log was closed.
abbrev wide : ℕ → ℕ → ℕ → Arrival kept percents stamps
wide reporter successes failures = record {
  epoch = 5;
  advert = sign stamps reporter (replicate 32 reporter) (replicate 32 9) successes failures 300;
  verifying_key = reporter;
  diversity_key = reporter ∷ [];
}

abbrev live : Log kept percents stamps
live =
    (arrivals kept percents stamps (wide 1 90 10 ∷ wide 2 88 12 ∷ wide 3 0 100 ∷ [])
      (HealthQuorumLog_new kept 2 []) tracker).0

reloaded_median :
    (live.applied_medians ≡ ((5, replicate 32 9), (89, 11)) ∷ [])
    × (replay_from_disk kept percents
            (HealthQuorumLog_new kept 2 [])
            (map record_bytes live.entries)
          >>= (λ l. ok l.applied_medians)
        ≡ ok (((5, replicate 32 9), (88, 12)) ∷ []))
unfolding append_verified sign verify signable_bytes is_authority append_new persist_entry merge_new
    collect find put erase include member bytes_eq le_bytes record_bytes apply_quorum_median
    finish_median_merge median_outcome_counts rates_of totals_of insert_rate sort_rates median_of
    distinct_count trim trim_start trim_end replay_from_disk replay_all replay_entry
    from_record_bytes finalize from_le_bytes slice arrivals gossip_diversity_key hex32
    apply_gossip_outcomes eclipse_heuristic_quarantine
reloaded_median = (refl, refl)
