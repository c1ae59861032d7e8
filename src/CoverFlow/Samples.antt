-- ===== src/CoverFlow/Samples.antt =====
-- A generator that repeats one byte, and a configuration, on which the theorems about cover flows
-- are tried.
use anonymous.Common.{ℕ, none, replicate, length-replicate}
use anonymous.Kem.Samples.{toy}
use anonymous.Negotiator.{CoverRequirement}
use anonymous.Sphinx.{beta_len}
use anonymous.Sphinx.Build.{Draws}
use anonymous.Sphinx.Build.Delivery.{Relay}
use anonymous.CoverFlow.{baseline_local_discard, CoverFlowConfig, Rng}

abbrev pub draws : Draws toy
draws = record {
  ephemeral = λ i. i;
  coins = λ i. i;
  beta_fill = replicate beta_len 9;
  delta_fill = replicate 231 9;
}

-- The state is the byte.
abbrev pub rng : Rng toy ℕ
rng = record {
  fill_bytes = λ s n. (replicate n s, s);
  relay_keys = λ s. (record { x25519 = s; mlkem = s }, s);
  build_draws = λ s. (draws, s);
  length-fill_bytes = λ s n. length-replicate {A = ℕ} n s;
}

abbrev pub config : CoverFlowConfig toy
config = record {
  cells_per_flow = 18;
  multihop_defense = baseline_local_discard;
  matched_cover_flows = 1;
  cover_onion_flows = 1;
  cover_onion_terminal = none;
}

abbrev pub five : CoverRequirement
five = record { target_flow_count = 5 }

abbrev pub terminal : Relay toy
terminal = record { id = replicate 32 1; keys = record { x25519 = 3; mlkem = 5 } }
