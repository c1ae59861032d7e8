-- ===== src/Negotiator/Dials.antt =====
-- The dial and the number of cover flows.
use anonymous.Common.{ℕ, ◌+◌, ◌^◌, ◌≤◌, ◌<◌, ◌≡◌, refl, true, max, arith}
use anonymous.Negotiator.{
  SecurityDial, l0_raw, l1_bucketed, l2_uniform_batched, ThreatLevel, relationship_exposure_ok,
  partial_hiding_required, full_hiding_required, dial_cost, dial_hides_relationship, select_dial,
  required_cover_flow_count,
}

-- Which dials meet a stated threat: partial hiding needs at least buckets, full hiding a dial that
-- hides the relationship.
abbrev pub Meets : ThreatLevel → SecurityDial → Type 0
Meets relationship_exposure_ok d = Unit {0}
Meets partial_hiding_required d = 0 < dial_cost d
Meets full_hiding_required d = dial_hides_relationship d ≡ true

-- The dial that is picked meets the threat, and no dial that meets it is cheaper.
pub select_dial-Meets :
    (t : ThreatLevel) (d : SecurityDial) (concurrency : ℕ)
    → Meets t d
    → Meets t (select_dial t concurrency) × (dial_cost (select_dial t concurrency) ≤ dial_cost d)
unfolding select_dial dial_cost dial_hides_relationship
select_dial-Meets relationship_exposure_ok d c m = (tt, omega arith)
select_dial-Meets partial_hiding_required d c m = (omega arith, omega (arith, m))
select_dial-Meets full_hiding_required l2_uniform_batched c m = (refl, omega arith)
select_dial-Meets full_hiding_required l0_raw c m = absurd (ground (arith, m))
select_dial-Meets full_hiding_required l1_bucketed c m = absurd (ground (arith, m))

-- Below 2^32 real participants the cover flows fill the round up to the target, and no further.
pub required_cover_flow_count_lem :
    (real target : ℕ)
    → real < 2 ^ 32
    → real + required_cover_flow_count real target ≡ max real target
unfolding required_cover_flow_count
required_cover_flow_count_lem real target small = omega arith
