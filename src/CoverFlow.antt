-- ===== src/CoverFlow.antt =====
-- crates/aegis-relay/src/cover_flow.rs: the cover flows that a relay adds to a bulk round.
--
-- The random generator is the parameter `Rng`: a state, the bytes it fills, and the draws of a key
-- pair and of one `build`. `u32` additions saturate as written, `as u32` wraps. Not modelled: the
-- parsing of a mode's name, and the `Debug` texts, which print nothing of the state but counts.
pub mod Markers
pub mod Plans
pub mod Rounds
pub mod Sink
pub mod Samples
mod Tests
use anonymous.Cell.{Cell, Command, to_u8, from_u8, zeroed, sphinx_fragment, cell_len}
use anonymous.Common.Slices.{slice, splice}
use anonymous.Common.Sums.{sum}
use anonymous.Common.Results.{Result, ok, err}
use anonymous.Fragment.{
  PacketId, fragment, fragment_payload_len, last_fragment_data_len, sphinx_fragment_count,
  write_byte, off_command, off_frag_idx, off_packet_id, off_reserved, off_payload,
  is_sphinx_fragment,
}
use anonymous.Kem.{Primitives, CryptoError, RelayKemSecret, RelayKemPublic, public_of}
use anonymous.Negotiator.{
  SecurityDial, l0_raw, l2_uniform_batched, CoverRequirement, required_cover_flow_count,
  cover_flows_needed, dial_needs_cover_plan,
}
use anonymous.Sphinx.{delta_len, SphinxPacket}
use anonymous.Sphinx.Build.{PathHop, Draws, build}
use anonymous.Common.{
  ℕ, zero, suc, ◌+◌, ◌-◌, ◌*◌, ◌%◌, ◌^◌, ◌≡◌, Bool, true, false, not, ◌&&◌, ◌||◌, Option, none,
  some, List, [], ◌∷◌, ◌++◌, map, length, get_or, min, replicate, ltb, ◌==◌, if◌then◌else◌,
  bytes_eq,
}

abbrev pub cover_fragment_reserved : List ℕ
cover_fragment_reserved = 0xC0 ∷ 0x01 ∷ []

abbrev pub cover_onion_scaffold_reserved : List ℕ
cover_onion_scaffold_reserved = 0xC0 ∷ 0x02 ∷ []

abbrev pub cover_sink_hop_id : List ℕ
cover_sink_hop_id = 0xA3 ∷ 0xC0 ∷ 0x53 ∷ 0x4B ∷ (replicate 27 0 ++ (0x53 ∷ []))

pub cover_onion_payload_prefix : List ℕ
cover_onion_payload_prefix =
    b'a' ∷ b'e' ∷ b'g' ∷ b'i' ∷ b's' ∷ b'-' ∷ b'c' ∷ b'o' ∷ b'v' ∷ b'e' ∷ b'r' ∷ b'-' ∷ b'o' ∷ b'n'
    ∷ b'i' ∷ b'o' ∷ b'n' ∷ b'-' ∷ b's' ∷ b'i' ∷ b'n' ∷ b'k' ∷ b'-' ∷ b'v' ∷ b'1' ∷ []

pub data CoverMultihopDefense : Type 0 where
  baseline_local_discard matched_local_discard cover_onions cover_onions_scaffold :
      CoverMultihopDefense

pub record CoverEmitPlan : Type 0 where
  pub local_discard_flows : ℕ
  pub onion_scaffold_flows : ℕ
  pub onion_peelable_flows : ℕ

-- `a.saturating_add(b)` on u32.
abbrev pub saturating_add : ℕ → ℕ → ℕ
saturating_add a b = min (a + b) (2 ^ 32 - 1)

unfoldable pub total_flows : CoverEmitPlan → ℕ
total_flows plan =
    saturating_add (saturating_add plan.local_discard_flows plan.onion_scaffold_flows)
      plan.onion_peelable_flows

unfoldable pub is_empty : CoverEmitPlan → Bool
is_empty plan = total_flows plan == 0

abbrev pub is_l2 : SecurityDial → Bool
is_l2 l2_uniform_batched = true
is_l2 _ = false

abbrev plan_for : CoverMultihopDefense → ℕ → ℕ → ℕ → ℕ → CoverEmitPlan
plan_for baseline_local_discard real target matched onions = record {
  local_discard_flows = required_cover_flow_count real target;
  onion_scaffold_flows = 0;
  onion_peelable_flows = 0;
}
plan_for matched_local_discard real target matched onions = record {
  local_discard_flows = matched;
  onion_scaffold_flows = 0;
  onion_peelable_flows = 0;
}
plan_for cover_onions real target matched onions = record {
  local_discard_flows = required_cover_flow_count real target;
  onion_scaffold_flows = 0;
  onion_peelable_flows = onions;
}
plan_for cover_onions_scaffold real target matched onions = record {
  local_discard_flows = required_cover_flow_count real target;
  onion_scaffold_flows = onions;
  onion_peelable_flows = 0;
}

pub plan_cover_emit : CoverMultihopDefense → SecurityDial → ℕ → ℕ → ℕ → ℕ → CoverEmitPlan
plan_cover_emit defense dial real_participants target matched_cover_flows cover_onion_flows =
    if not (is_l2 dial)
    then record { local_discard_flows = 0; onion_scaffold_flows = 0; onion_peelable_flows = 0 }
    else plan_for defense real_participants target matched_cover_flows cover_onion_flows

unfoldable pub is_cover_sink_hop : List ℕ → Bool
is_cover_sink_hop next_hop = bytes_eq next_hop cover_sink_hop_id

-- `Command::from_u8(b) == Some(Command::SphinxFragment)`.
abbrev pub is_fragment_byte : ℕ → Bool
is_fragment_byte b = elim (from_u8 b) [ none ↦ false | some cmd ↦ is_sphinx_fragment cmd ]

abbrev pub is_marked : List ℕ → Cell → Bool
is_marked marker b =
    if not (is_fragment_byte (get_or b off_command 0))
    then false
    else bytes_eq (slice b off_reserved (length marker)) marker

unfoldable pub is_relay_cover_fragment : Cell → Bool
is_relay_cover_fragment cell = is_marked cover_fragment_reserved cell

unfoldable pub is_cover_onion_scaffold_fragment : Cell → Bool
is_cover_onion_scaffold_fragment cell = is_marked cover_onion_scaffold_reserved cell

pub is_discard_cover_fragment : Cell → Bool
is_discard_cover_fragment cell =
    is_relay_cover_fragment cell || is_cover_onion_scaffold_fragment cell

-- One synthetic flow: its cells.
abbrev pub CoverFlow : Type 0
CoverFlow = List Cell

pub record BulkRoundTracker : Type 0 where
  pub active : Bool
  pub dial : SecurityDial
  pub requirement : CoverRequirement
  pub real_flow_count : ℕ

pub BulkRoundTracker_new : BulkRoundTracker
BulkRoundTracker_new = record {
  active = false;
  dial = l0_raw;
  requirement = record { target_flow_count = 0 };
  real_flow_count = 0;
}

unfoldable pub begin : BulkRoundTracker → SecurityDial → CoverRequirement → BulkRoundTracker
begin t dial requirement = record {
  active = true;
  dial = dial;
  requirement = requirement;
  real_flow_count = 0;
}

unfoldable pub observe_real_flow : BulkRoundTracker → BulkRoundTracker
observe_real_flow t = if t.active then record t { real_flow_count = t.real_flow_count + 1 } else t

-- The tracker that `close_and_emit` leaves.
unfoldable pub closed : BulkRoundTracker → BulkRoundTracker
closed t = record t { active = false; real_flow_count = 0 }

module _ (p : Primitives) where
  pub record CoverOnionTerminal : Type 0 where
    pub id : List ℕ
    pub pk : RelayKemPublic p

  pub record CoverFlowConfig : Type 0 where
    pub cells_per_flow : ℕ
    pub multihop_defense : CoverMultihopDefense
    pub matched_cover_flows : ℕ
    pub cover_onion_flows : ℕ
    pub cover_onion_terminal : Option CoverOnionTerminal

  pub record CoverEmitResult : Type 0 where
    pub cover_flows : List CoverFlow
    pub cover_flow_count : ℕ
    pub cover_cell_count : ℕ
    pub plan : CoverEmitPlan
    pub multihop_defense : CoverMultihopDefense

  -- `CryptoRngCore`: what it hands out in a state, and the state after it.
  pub record Rng (S : Type 0) : Type 0 where
    pub fill_bytes : S → ℕ → List ℕ × S
    pub relay_keys : S → RelayKemSecret p × S
    pub build_draws : S → Draws p × S
    pub length-fill_bytes : (s : S) (n : ℕ) → length (fill_bytes s n).0 ≡ n

  module _ {S : Type 0} (rng : Rng S) where
    -- Bytes that the slot `index` takes.
    abbrev pub cover_copy_len : ℕ → ℕ
    cover_copy_len index =
        if index == sphinx_fragment_count - 1 then last_fragment_data_len else fragment_payload_len

    pub encode_cover_fragment_cell : S → PacketId → ℕ → List ℕ → Cell × S
    encode_cover_fragment_cell s packet_id index reserved =
        let buf = write_byte zeroed off_command (to_u8 sphinx_fragment) in
        let buf = write_byte buf off_frag_idx index in
        let buf = splice buf off_packet_id packet_id in
        let buf = splice buf off_reserved reserved in
        let (bytes, s) = rng.fill_bytes s (cover_copy_len index) in
        (splice buf off_payload bytes, s)

    -- `(0..cells_per_flow).map(..)`, from the cell `i` on.
    pub cover_cells : ℕ → ℕ → S → PacketId → List ℕ → List Cell × S
    cover_cells zero i s packet_id reserved = ([], s)
    cover_cells (suc n) i s packet_id reserved =
        let (cell, s) = encode_cover_fragment_cell s packet_id (i % 256) reserved in
        let (cells, s) = cover_cells n (i + 1) s packet_id reserved in (cell ∷ cells, s)

    pub generate_one_flow : CoverFlowConfig → S → List ℕ → CoverFlow × S
    generate_one_flow config s reserved =
        let (packet_id, s) = rng.fill_bytes s 8 in
        cover_cells config.cells_per_flow 0 s packet_id reserved

    pub flows : ℕ → CoverFlowConfig → S → List ℕ → List CoverFlow × S
    flows zero config s reserved = ([], s)
    flows (suc n) config s reserved =
        let (flow, s) = generate_one_flow config s reserved in
        let (rest, s) = flows n config s reserved in (flow ∷ rest, s)

    pub build_peel_to_sink_cover_flow : CoverOnionTerminal → S → Result CryptoError CoverFlow × S
    build_peel_to_sink_cover_flow terminal s =
        let (sink_sec, s) = rng.relay_keys s in
        let path : List (PathHop p) =
          record { id = terminal.id; pk = terminal.pk }
          ∷ record { id = cover_sink_hop_id; pk = public_of p sink_sec }
          ∷ [] in
        let (_, s) = rng.fill_bytes s (delta_len - length cover_onion_payload_prefix) in
        let (draws, s) = rng.build_draws s in
        let (packet_id, s') = rng.fill_bytes s 8 in
        elim (build p draws path cover_onion_payload_prefix) [
          | err e ↦ (err e, s)
          | ok packet ↦ (ok (fragment packet packet_id), s')
        ]

    -- The loop over peelable flows, which the first error ends.
    pub peelable_flows : ℕ → CoverOnionTerminal → S → List CoverFlow × S
    peelable_flows zero terminal s = ([], s)
    peelable_flows (suc n) terminal s =
        let (built, s) = build_peel_to_sink_cover_flow terminal s in
        let (rest, s') = peelable_flows n terminal s in
        elim built [ err e ↦ ([], s) | ok flow ↦ (flow ∷ rest, s') ]

    abbrev pub peelable_of : ℕ → Option CoverOnionTerminal → S → List CoverFlow × S
    peelable_of n none s = ([], s)
    peelable_of n (some terminal) s = peelable_flows n terminal s

    pub generate_plan :
        CoverRequirement
        → CoverFlowConfig
        → SecurityDial
        → ℕ
        → S
        → (CoverEmitPlan × List CoverFlow) × S
    generate_plan requirement config dial real_participants s =
        let plan =
          plan_cover_emit config.multihop_defense dial real_participants
            requirement.target_flow_count config.matched_cover_flows config.cover_onion_flows in
        let (discards, s) = flows plan.local_discard_flows config s cover_fragment_reserved in
        let (scaffolds, s) =
          flows plan.onion_scaffold_flows config s cover_onion_scaffold_reserved in
        let (peelable, s) = peelable_of plan.onion_peelable_flows config.cover_onion_terminal s in
        (
          (
            record plan { onion_peelable_flows = length peelable },
            discards ++ (scaffolds ++ peelable),
          ),
          s,
        )

    -- The legacy gate of the baseline, and that of the other modes.
    unfoldable pub should_emit : CoverMultihopDefense → SecurityDial → ℕ → ℕ → CoverEmitPlan → Bool
    should_emit baseline_local_discard dial real target plan =
        dial_needs_cover_plan dial real target
    should_emit _ dial real target plan = is_l2 dial && not (is_empty plan)

    pub emit : BulkRoundTracker → CoverFlowConfig → S → Option CoverEmitResult × S
    emit t config s =
        let ((plan, cover_flows), s) =
          generate_plan t.requirement config t.dial t.real_flow_count s in
        if is_empty plan && (length cover_flows == 0) then (none, s) else (
          some (record {
            cover_flows = cover_flows;
            cover_flow_count = length cover_flows % 2 ^ 32;
            cover_cell_count = sum (map (λ flow. length flow) cover_flows) % 2 ^ 64;
            plan = plan;
            multihop_defense = config.multihop_defense;
          }),
          s,
        )

    pub close_and_emit :
        BulkRoundTracker → CoverFlowConfig → S → BulkRoundTracker × (Option CoverEmitResult × S)
    close_and_emit t config s =
        let target = t.requirement.target_flow_count in
        let plan =
          plan_cover_emit config.multihop_defense t.dial t.real_flow_count target
            config.matched_cover_flows config.cover_onion_flows in
        if not t.active
        then (t, (none, s))
        else if not (should_emit config.multihop_defense t.dial t.real_flow_count target plan)
        then (closed t, (none, s))
        else (closed t, emit t config s)
