-- ===== src/Sphinx/Samples.antt =====
-- A concrete packet, relay and cache on which the theorems about packets are tried.
use anonymous.Common.Results.{ok, ◌>>=◌}
use anonymous.Common.{
  ℕ, ◌*◌, ◌/◌, ◌≡◌, refl, ◌∙◌, true, false, [], arith, replicate, length-replicate, bytes_eq,
  bytes_eq_iff,
}
use anonymous.Kem.{RelayKemSecret, decapsulate}
use anonymous.Kem.Samples.{toy, decapsulate-toy}
use anonymous.Replay.{CtEq, ReplayCache, check_and_insert}
use anonymous.Replay.Window.{Holds, window_insert_empty}
use anonymous.Replay.Refinement.{threshold, check_and_insert-Holds}
use anonymous.Sphinx.{
  Processed, forward, alpha_len, beta_len, gamma_len, delta_len, extract_kem_header, verify_mac,
  process_with, process, compute_mac, replay_tag,
}
use anonymous.Sphinx.Regions.{
  Regions, IsSized, packet_of, read_from_whole, alpha_of_packet, gamma_of_packet,
}
use anonymous.Sphinx.Peel.{peeled, next_hop_of, peel-peeled}

abbrev pub subtle : CtEq
subtle = record { ct_eq = bytes_eq; ct_eq_iff = bytes_eq_iff }

abbrev pub percent : ℕ → ℕ → ℕ
percent capacity ratio = capacity * ratio / 100

abbrev pub relay : RelayKemSecret toy
relay = record { x25519 = 3; mlkem = 5 }

abbrev pub cache : ReplayCache ℕ
cache = record {
  seen = [];
  order = [];
  by_generation = [];
  active_generations = [];
  capacity = 3;
  generation = 0;
  max_generations = 4;
  auto_advance_fill_ratio = 85;
}

pub cache-Holds : Holds cache []
cache-Holds = ground arith

-- A packet whose MAC field is `gamma` throughout.
abbrev pub regions : ℕ → Regions
regions gamma = record {
  alpha = replicate alpha_len 1;
  beta = replicate beta_len 2;
  gamma = replicate gamma_len gamma;
  delta = replicate delta_len 3;
}

pub regions-IsSized : (gamma : ℕ) → IsSized (regions gamma)
regions-IsSized gamma = record {
  alpha_sized = length-replicate {A = ℕ} alpha_len 1;
  beta_sized = length-replicate {A = ℕ} beta_len 2;
  gamma_sized = length-replicate {A = ℕ} gamma_len gamma;
  delta_sized = length-replicate {A = ℕ} delta_len 3;
}

pub secret_of_packet :
    (gamma : ℕ)
    → (extract_kem_header (packet_of (regions gamma)) >>= decapsulate toy relay)
      ≡ ok (replicate 32 7)
unfolding extract_kem_header
secret_of_packet gamma =
    let (h, parsed, same, px, pc) =
      read_from_whole (replicate alpha_len 1) (length-replicate {A = ℕ} alpha_len 1) in
    rw (alpha_of_packet (regions gamma) (regions-IsSized gamma))
      (rw parsed (decapsulate-toy relay h))

pub mac_of_packet :
    (gamma : ℕ)
    → verify_mac toy subtle (replicate 32 7) (packet_of (regions gamma))
      ≡ bytes_eq (replicate 32 7) (replicate 32 gamma)
unfolding verify_mac compute_mac
mac_of_packet gamma = rw (gamma_of_packet (regions gamma) (regions-IsSized gamma)) refl

pub forged : verify_mac toy subtle (replicate 32 7) (packet_of (regions 0)) ≡ false
unfolding bytes_eq
forged = mac_of_packet 0

pub genuine : verify_mac toy subtle (replicate 32 7) (packet_of (regions 7)) ≡ true
unfolding bytes_eq
genuine = mac_of_packet 7

abbrev pub outcome : Processed
outcome =
    forward (next_hop_of toy (replicate 32 7) (regions 7).beta)
      (packet_of (peeled toy (replicate 32 7) (regions 7)))

pub fresh : (check_and_insert subtle percent cache (replay_tag toy (replicate 32 7))).1 ≡ true
fresh =
    let tag = replay_tag toy (replicate 32 7) in
    (check_and_insert-Holds subtle percent cache [] tag cache-Holds).1
    ∙ window_insert_empty 3 (threshold subtle percent cache) tag

pub accepted : (process toy subtle percent (packet_of (regions 7)) relay cache).0 ≡ ok outcome
unfolding process process_with
accepted =
    rw (secret_of_packet 7, process)
      (rw (genuine, process_with)
        (rw fresh (peel-peeled toy (replicate 32 7) (regions 7) (regions-IsSized 7))))
