-- ===== src/Relay/Config.antt =====
-- crates/aegis-relay/src/config.rs: the policy of bulk cover rounds and its check at start-up.
--
-- `mu`, an f64 that only the sampling of delays reads, is of the parameter type `M`.
use anonymous.Common.Results.{Result, ok, err}
use anonymous.Common.{ℕ, Bool, true, false, not, Option, none, some, if◌then◌else◌}
use anonymous.Fragment.{sphinx_fragment_count}
use anonymous.Kem.{Primitives}
use anonymous.Negotiator.{
  SecurityDial, l2_uniform_batched, dial_requires_relay_cover, CoverRequirement,
  l2_baseline_concurrency,
}
use anonymous.CoverFlow.{
  CoverMultihopDefense, baseline_local_discard, CoverOnionTerminal, CoverFlowConfig,
}

abbrev pub default_cover_round_secs : ℕ
default_cover_round_secs = 30

pub data CoverPolicyError : Type 0 where
  cover_channel_required cover_disabled_while_required : CoverPolicyError
  dial_does_not_require_cover : SecurityDial → CoverPolicyError

module _ (p : Primitives) where
  pub record BulkCoverConfig : Type 0 where
    pub enabled : Bool
    pub require : Bool
    pub dial : SecurityDial
    pub target_flow_count : ℕ
    pub round_secs : ℕ
    pub multihop_defense : CoverMultihopDefense
    pub matched_cover_flows : ℕ
    pub cover_onion_flows : ℕ
    pub cover_onion_terminal : Option (CoverOnionTerminal p)

  -- `BulkCoverConfig::default()`.
  abbrev pub default_bulk_cover : BulkCoverConfig
  default_bulk_cover = record {
    enabled = false;
    require = false;
    dial = l2_uniform_batched;
    target_flow_count = l2_baseline_concurrency;
    round_secs = default_cover_round_secs;
    multihop_defense = baseline_local_discard;
    matched_cover_flows = 1;
    cover_onion_flows = 1;
    cover_onion_terminal = none;
  }

  unfoldable pub production : BulkCoverConfig
  production = record default_bulk_cover { enabled = true; require = true }

  abbrev pub requirement : BulkCoverConfig → CoverRequirement
  requirement c = record { target_flow_count = c.target_flow_count }

  abbrev pub cover_flow_config : BulkCoverConfig → CoverFlowConfig p
  cover_flow_config c = record {
    cells_per_flow = sphinx_fragment_count;
    multihop_defense = c.multihop_defense;
    matched_cover_flows = c.matched_cover_flows;
    cover_onion_flows = c.cover_onion_flows;
    cover_onion_terminal = c.cover_onion_terminal;
  }

  abbrev pub with_cover_onion_terminal : BulkCoverConfig → CoverOnionTerminal p → BulkCoverConfig
  with_cover_onion_terminal c terminal = record c { cover_onion_terminal = some terminal }

  unfoldable pub validate_spawn : BulkCoverConfig → Bool → Result CoverPolicyError (Unit {0})
  validate_spawn c cover_channel_present =
      if not c.require
      then ok tt
      else if not c.enabled
      then err cover_disabled_while_required
      else if not cover_channel_present
      then err cover_channel_required
      else if not (dial_requires_relay_cover c.dial)
      then err (dial_does_not_require_cover c.dial)
      else ok tt

  pub record RelayConfig (M : Type 0) : Type 0 where
    pub mu : M
    pub bulk_cover : BulkCoverConfig
