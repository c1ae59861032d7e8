-- ===== src/Relay/Health.antt =====
-- crates/aegis-relay/src/peer_health.rs: the outcomes of each peer's link, and the merge of what
-- the neighbors report.
--
-- The mutexes hold for one operation each, so an operation takes the tracker and gives it back.
-- `drain_into_policy`, which feeds the z-scores of the trust crate, is left out.
pub mod Median
pub mod Advert
pub mod QuorumLog
pub mod Gossip
pub mod Samples
mod Tests
use anonymous.Common.Tables.{find, put, distinct_count, bytes_key}
use anonymous.Relay.Labels.{PeerId, Text, normalize_diversity_key}
use anonymous.Relay.Rates.{Floats, saturating_add, saturating_mul, median_outcome_counts}
use anonymous.Common.{
  ℕ, zero, suc, ◌+◌, ◌-◌, ◌*◌, ◌/◌, ◌%◌, ◌^◌, Bool, true, false, ◌&&◌, ◌||◌, not, Option, none,
  some, List, [], ◌∷◌, ◌++◌, map, length, get_or, ltb, leb, ◌==◌, if◌then◌else◌, min, max,
}

abbrev pub default_gossip_majority_k : ℕ
default_gossip_majority_k = 4

abbrev pub default_gossip_min_orgs : ℕ
default_gossip_min_orgs = 2

abbrev pub default_eclipse_detect : Bool
default_eclipse_detect = true

abbrev pub default_eclipse_local_min_samples : ℕ
default_eclipse_local_min_samples = 8

abbrev pub gossip_weight_num : ℕ
gossip_weight_num = 1

abbrev pub gossip_weight_den : ℕ
gossip_weight_den = 2

-- What one reporter said of a subject: successes, failures, diversity key.
pub record Report : Type 0 where
  pub successes : ℕ
  pub failures : ℕ
  pub diversity : Text

abbrev pub Reports : Type 0
Reports = List (PeerId × Report)

abbrev pub observations_of : Reports → List (ℕ × ℕ)
observations_of = map (λ e. (e.1.successes, e.1.failures))

abbrev pub diversity_of : Reports → List Text
diversity_of = map (λ e. e.1.diversity)

abbrev pub reports_or_new : Option Reports → Reports
reports_or_new none = []
reports_or_new (some reports) = reports

abbrev pub window_or_new : Option (ℕ × ℕ) → ℕ × ℕ
window_or_new none = (0, 0)
window_or_new (some window) = window

pub data GossipMergeOutcome : Type 0 where
  buffered : ℕ → ℕ → GossipMergeOutcome
  waiting_diversity : ℕ → ℕ → ℕ → GossipMergeOutcome
  applied : ℕ → ℕ → GossipMergeOutcome
  quarantined : ℕ → ℕ → GossipMergeOutcome

module _ (f : Floats) where
  pub record GossipMergePolicy : Type 0 where
    pub majority_k : ℕ
    pub min_orgs : ℕ
    pub eclipse_detect : Bool
    pub eclipse_median_gap : f.F
    pub eclipse_local_min_samples : ℕ
    pub eclipse_honest_baseline : f.F

  abbrev pub stacked : GossipMergePolicy
  stacked = record {
    majority_k = default_gossip_majority_k;
    min_orgs = default_gossip_min_orgs;
    eclipse_detect = default_eclipse_detect;
    eclipse_median_gap = f.default_gap;
    eclipse_local_min_samples = default_eclipse_local_min_samples;
    eclipse_honest_baseline = f.default_baseline;
  }

  abbrev pub legacy_majority : ℕ → GossipMergePolicy
  legacy_majority majority_k = record {
    majority_k = max majority_k 1;
    min_orgs = 1;
    eclipse_detect = false;
    eclipse_median_gap = f.default_gap;
    eclipse_local_min_samples = default_eclipse_local_min_samples;
    eclipse_honest_baseline = f.default_baseline;
  }

  abbrev pub sanitize : GossipMergePolicy → GossipMergePolicy
  sanitize p = record p {
    majority_k = max p.majority_k 1;
    min_orgs = max p.min_orgs 1;
    eclipse_median_gap =
        if not (f.is_finite p.eclipse_median_gap) || f.lt p.eclipse_median_gap f.nought
        then f.default_gap
        else p.eclipse_median_gap;
    eclipse_honest_baseline = f.clamp_unit (
        if f.is_finite p.eclipse_honest_baseline
        then p.eclipse_honest_baseline
        else f.default_baseline);
  }

  pub record PeerHealthTracker : Type 0 where
    pub inner : List (PeerId × (ℕ × ℕ))
    pub gossip_pending : List (PeerId × Reports)
    pub policy : GossipMergePolicy

  abbrev pub with_policy : GossipMergePolicy → PeerHealthTracker
  with_policy policy = record { inner = []; gossip_pending = []; policy = sanitize policy }

  abbrev pub with_gossip_majority_k : ℕ → PeerHealthTracker
  with_gossip_majority_k majority_k = with_policy (legacy_majority majority_k)

  abbrev pub PeerHealthTracker_new : PeerHealthTracker
  PeerHealthTracker_new = with_policy stacked

  unfoldable pub record_success : PeerHealthTracker → PeerId → PeerHealthTracker
  record_success t peer =
      let entry = window_or_new (find peer t.inner) in
      record t { inner = put peer (saturating_add entry.0 1, entry.1) t.inner }

  unfoldable pub record_failure : PeerHealthTracker → PeerId → PeerHealthTracker
  record_failure t peer =
      let entry = window_or_new (find peer t.inner) in
      record t { inner = put peer (entry.0, saturating_add entry.1 1) t.inner }

  unfoldable pub apply_gossip_outcomes :
      PeerHealthTracker → PeerId → ℕ → ℕ → ℕ → ℕ → PeerHealthTracker
  apply_gossip_outcomes t peer successes failures weight_num weight_den =
      if weight_den == 0
      then t
      else let ok_ = saturating_mul successes weight_num / weight_den in
        let fail = saturating_mul failures weight_num / weight_den in
        if (ok_ == 0) && (fail == 0)
        then t
        else let entry = window_or_new (find peer t.inner) in
          record t {
            inner = put peer (saturating_add entry.0 ok_, saturating_add entry.1 fail) t.inner;
          }

  -- The local rate, if its window has enough samples, else the policy's.
  abbrev pub baseline_of : GossipMergePolicy → Option (ℕ × ℕ) → f.F
  baseline_of p none = p.eclipse_honest_baseline
  baseline_of p (some (ok_, fail)) =
      let samples = saturating_add ok_ fail in
      if not (samples == 0) && leb p.eclipse_local_min_samples samples
      then f.ratio fail samples
      else p.eclipse_honest_baseline

  unfoldable pub eclipse_heuristic_quarantine : PeerHealthTracker → PeerId → f.F → Bool
  eclipse_heuristic_quarantine t subject median_rate =
      f.le (f.plus (baseline_of t.policy (find subject t.inner)) t.policy.eclipse_median_gap)
        median_rate

  unfoldable pub finish_median_merge :
      PeerHealthTracker → PeerId → List (ℕ × ℕ) → ℕ → ℕ → PeerHealthTracker × GossipMergeOutcome
  finish_median_merge t subject observations reporters distinct_orgs =
      elim (median_outcome_counts f observations) [
        | none ↦ (t, applied reporters distinct_orgs)
        | some (ok_, fail) ↦
            let total = max (saturating_add ok_ fail) 1 in
            if t.policy.eclipse_detect
              && eclipse_heuristic_quarantine t subject (f.ratio fail total)
            then (t, quarantined reporters distinct_orgs)
            else (
              apply_gossip_outcomes t subject ok_ fail gossip_weight_num gossip_weight_den,
              applied reporters distinct_orgs,
            )
      ]

  unfoldable pub apply_quorum_median :
      PeerHealthTracker → PeerId → List (ℕ × ℕ) → List Text → PeerHealthTracker × GossipMergeOutcome
  apply_quorum_median t subject observations diversity_keys =
      let reporters = length observations in
      let distinct_orgs = distinct_count diversity_keys in
      if ltb distinct_orgs t.policy.min_orgs
      then (t, waiting_diversity reporters distinct_orgs t.policy.min_orgs)
      else finish_median_merge t subject observations reporters distinct_orgs

  -- `by_reporter.clear()` leaves the subject's entry, empty.
  unfoldable pub ingest_gossip_observation :
      PeerHealthTracker → PeerId → PeerId → ℕ → ℕ → Text → PeerHealthTracker × GossipMergeOutcome
  ingest_gossip_observation t reporter subject successes failures diversity_key =
      let report : Report = record {
        successes = successes;
        failures = failures;
        diversity = normalize_diversity_key diversity_key reporter;
      } in
      let by_reporter = put reporter report (reports_or_new (find subject t.gossip_pending)) in
      let have = length by_reporter in
      let distinct_orgs = distinct_count (diversity_of by_reporter) in
      let kept = record t { gossip_pending = put subject by_reporter t.gossip_pending } in
      if ltb have t.policy.majority_k
      then (kept, buffered have t.policy.majority_k)
      else if ltb distinct_orgs t.policy.min_orgs
      then (kept, waiting_diversity have distinct_orgs t.policy.min_orgs)
      else finish_median_merge (record t { gossip_pending = put subject [] t.gossip_pending })
          subject (observations_of by_reporter) have distinct_orgs

  unfoldable pub pending_gossip_reporters : PeerHealthTracker → PeerId → ℕ
  pending_gossip_reporters t subject = length (reports_or_new (find subject t.gossip_pending))

  abbrev pub rate_of_window : Option (ℕ × ℕ) → Option f.F
  rate_of_window none = none
  rate_of_window (some (ok_, fail)) =
      let total = saturating_add ok_ fail in if total == 0 then none else some (f.ratio fail total)

  unfoldable pub failure_rate : PeerHealthTracker → PeerId → Option f.F
  failure_rate t peer = rate_of_window (find peer t.inner)

  unfoldable pub success_rate : PeerHealthTracker → PeerId → Option f.F
  success_rate t peer = elim (failure_rate t peer) [
    | none ↦ none
    | some fail ↦ some (f.one_minus fail)
  ]
