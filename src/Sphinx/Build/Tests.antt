-- ===== src/Sphinx/Build/Tests.antt =====
-- A packet built for two relays, and the theorems about it.
use anonymous.Common.Results.{ok}
use anonymous.Common.{
  ℕ, ◌*◌, ◌/◌, ◌≡◌, refl, List, [], ◌∷◌, arith, drop, map, replicate, length-replicate, bytes_eq,
  bytes_eq_iff,
}
use anonymous.Kem.{KemHeader}
use anonymous.Kem.Samples.{toy}
use anonymous.Replay.{CtEq, ReplayCache}
use anonymous.Replay.Window.{Holds}
use anonymous.Sphinx.{SphinxPacket, routing_slot_len, beta_len}
use anonymous.Sphinx.Build.{Routing, Draws, build, build_beta}
use anonymous.Sphinx.Build.Onion.{onion, build_beta-onion}
use anonymous.Sphinx.Build.Delivery.{Relay, hop_of, Delivers}
use anonymous.Sphinx.Build.EndToEnd.{build-Delivers}
use anonymous.Sphinx.Build.Guards.{build_total}
use anonymous.Sphinx.Build.Outcome.{Outcome, build-Outcome}

abbrev subtle : CtEq
subtle = record { ct_eq = bytes_eq; ct_eq_iff = bytes_eq_iff }

abbrev percent : ℕ → ℕ → ℕ
percent capacity ratio = capacity * ratio / 100

abbrev cache : ReplayCache ℕ
cache = record {
  seen = [];
  order = [];
  by_generation = [];
  active_generations = [];
  capacity = 3;
  generation = 0;
  max_generations = 4;
  auto_advance_fill_ratio = 85;
}

cache-Holds : Holds cache []
cache-Holds = ground arith

abbrev relay : ℕ → Relay toy
relay n = record { id = replicate 32 n; keys = record { x25519 = n; mlkem = n } }

abbrev relays : List (Relay toy)
relays = relay 1 ∷ relay 2 ∷ []

abbrev draws : Draws toy
draws = record {
  ephemeral = λ i. i;
  coins = λ i. i;
  beta_fill = replicate beta_len 9;
  delta_fill = replicate 253 9;
}

abbrev payload : List ℕ
payload = 104 ∷ 105 ∷ 33 ∷ []

abbrev header : KemHeader
header = record { x25519_point = replicate 32 1; mlkem_ct = replicate 1088 1 }

made : (packet : SphinxPacket) × (build toy draws (map (hop_of toy) relays) payload ≡ ok packet)
made =
    build_total toy draws (map (hop_of toy) relays) payload (λ pk coins h. ground (arith, h))
      (omega arith) (omega arith) (omega arith)

build-Outcome_example :
    Outcome toy subtle percent cache relays payload
      (build toy draws (map (hop_of toy) relays) payload)
build-Outcome_example =
    build-Outcome toy subtle percent cache draws relays payload (λ pk coins h. ground (arith, h))
      cache-Holds (length-replicate {A = ℕ} 32 1, (length-replicate {A = ℕ} 32 2, tt))
      (length-replicate {A = ℕ} beta_len 9) (omega (arith, length-replicate {A = ℕ} 253 9))

build-Delivers_example : Delivers toy subtle percent cache relays payload made.0
build-Delivers_example =
    build-Delivers toy subtle percent cache draws relays payload made.0 cache-Holds
      (length-replicate {A = ℕ} 32 1, (length-replicate {A = ℕ} 32 2, tt))
      (length-replicate {A = ℕ} beta_len 9) (omega (arith, length-replicate {A = ℕ} 253 9)) made.1

abbrev entry : Routing
entry = record { id = replicate 32 2; header = header }

build_beta-onion_example :
    build_beta toy 1 (entry ∷ []) (replicate 32 7 ∷ replicate 32 7 ∷ []) (replicate beta_len 9)
    ≡ onion toy
        (replicate 32 7 ∷ replicate 32 7 ∷ [])
        (entry ∷ [])
        (drop routing_slot_len (replicate beta_len 9))
build_beta-onion_example =
    build_beta-onion toy (replicate 32 7 ∷ replicate 32 7 ∷ []) (entry ∷ []) (replicate beta_len 9)
      refl
      (
        record {
          id_sized = length-replicate {A = ℕ} 32 2;
          point_sized = length-replicate {A = ℕ} 32 1;
          ct_sized = length-replicate {A = ℕ} 1088 1;
        },
        tt,
      )
      (length-replicate {A = ℕ} beta_len 9) (omega arith)
