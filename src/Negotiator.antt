-- ===== src/Negotiator.antt =====
-- crates/aegis-negotiator/src/{dial,cover,scheduler,ceiling}.rs: the bulk-transfer negotiator.
--
-- `f64` ceilings are the parameter type `F`, read by two functions: whether a ceiling is positive
-- and finite, and its floor as a u64. `real as u32` keeps its wrap-around. Hash maps are
-- association lists.
pub mod Dials
pub mod Ceilings
pub mod Rounds
mod Tests
use anonymous.Common.Results.{Result, ok, err}
use anonymous.Common.Maps.{lookup, insert}
use anonymous.Common.{
  ℕ, zero, suc, ◌+◌, ◌-◌, ◌/◌, ◌%◌, ◌^◌, Bool, true, false, not, ◌&&◌, Option, none, some, List, [],
  ◌∷◌, ◌++◌, length, replicate, ltb, leb, ◌==◌, if◌then◌else◌,
}

abbrev pub l2_baseline_concurrency : ℕ
l2_baseline_concurrency = 40

pub data SecurityDial : Type 0 where
  l0_raw l1_bucketed l2_uniform_batched : SecurityDial

pub data ThreatLevel : Type 0 where
  relationship_exposure_ok partial_hiding_required full_hiding_required : ThreatLevel

pub dial_cost : SecurityDial → ℕ
dial_cost l0_raw = 0
dial_cost l1_bucketed = 1
dial_cost l2_uniform_batched = 2

unfoldable pub dial_hides_relationship : SecurityDial → Bool
dial_hides_relationship l2_uniform_batched = true
dial_hides_relationship _ = false

unfoldable pub dial_requires_relay_cover : SecurityDial → Bool
dial_requires_relay_cover l2_uniform_batched = true
dial_requires_relay_cover _ = false

pub select_dial : ThreatLevel → ℕ → SecurityDial
select_dial relationship_exposure_ok concurrency = l0_raw
select_dial partial_hiding_required concurrency = l1_bucketed
select_dial full_hiding_required concurrency = l2_uniform_batched

pub record CoverRequirement : Type 0 where
  pub target_flow_count : ℕ

-- `target.saturating_sub(real_participants as u32)`.
unfoldable pub required_cover_flow_count : ℕ → ℕ → ℕ
required_cover_flow_count real_participants target = target - real_participants % 2 ^ 32

unfoldable pub cover_flows_needed : CoverRequirement → ℕ → ℕ
cover_flows_needed r real_participants =
    required_cover_flow_count real_participants r.target_flow_count

unfoldable pub dial_needs_cover_plan : SecurityDial → ℕ → ℕ → Bool
dial_needs_cover_plan l2_uniform_batched real_participants target =
    ltb 0 (required_cover_flow_count real_participants target)
dial_needs_cover_plan _ real_participants target = false

-- A commitment, `[u8; 32]`.
abbrev pub Commitment : Type 0
Commitment = List ℕ

pub record BatchScheduler : Type 0 where
  pub rounds : List (ℕ × List Commitment)

pub BatchScheduler_new : BatchScheduler
BatchScheduler_new = record { rounds = [] }

abbrev pub entries_of : Option (List Commitment) → List Commitment
entries_of none = []
entries_of (some commitments) = commitments

pub round_participants : BatchScheduler → ℕ → List Commitment
round_participants s round = entries_of (lookup round s.rounds)

pub round_size : BatchScheduler → ℕ → ℕ
round_size s round = length (entries_of (lookup round s.rounds))

-- `self.rounds.entry(round).or_default().push(participant_commitment)`.
pub opt_in : BatchScheduler → Commitment → ℕ → BatchScheduler
opt_in s commitment round = record {
  rounds = insert round (entries_of (lookup round s.rounds) ++ (commitment ∷ [])) s.rounds;
}

pub data OverflowPolicy : Type 0 where
  fragments accepts_exposure : OverflowPolicy

pub data BulkPlan : Type 0 where
  single : ℕ → BulkPlan
  fragment : List ℕ → ℕ → BulkPlan
  accept_exposure : ℕ → ℕ → BulkPlan

pub data NegotiatorError (F : Type 0) : Type 0 where
  invalid_ceiling : F → NegotiatorError F
  exceeds_ceiling_requires_fragment : ℕ → ℕ → NegotiatorError F

pub fragment_sizes : ℕ → ℕ → List ℕ
fragment_sizes file_size_bytes chunk_max_bytes =
    let full = file_size_bytes / chunk_max_bytes in
    let rem = file_size_bytes % chunk_max_bytes in
    if file_size_bytes == 0
    then 0 ∷ []
    else replicate full chunk_max_bytes ++ (if ltb 0 rem then rem ∷ [] else [])

abbrev pub above_ceiling :
    {F : Type 0} → ℕ → ℕ → OverflowPolicy → Result (NegotiatorError F) BulkPlan
above_ceiling file_size_bytes ceiling fragments =
    ok (fragment (fragment_sizes file_size_bytes ceiling) ceiling)
above_ceiling file_size_bytes ceiling accepts_exposure =
    ok (accept_exposure file_size_bytes ceiling)

module _ {F : Type 0} (positive_finite : F → Bool) (floor_u64 : F → ℕ) where
  pub enforce_ceiling : ℕ → F → OverflowPolicy → Result (NegotiatorError F) BulkPlan
  enforce_ceiling file_size_bytes f_max_bytes policy =
      let ceiling = floor_u64 f_max_bytes in
      if not (positive_finite f_max_bytes)
      then err (invalid_ceiling f_max_bytes)
      else if ceiling == 0
      then err (invalid_ceiling f_max_bytes)
      else if leb file_size_bytes ceiling
      then ok (single file_size_bytes)
      else above_ceiling file_size_bytes ceiling policy
