-- ===== src/Kem/Tests.antt =====
-- The theorems on keys and headers at concrete inputs.
use anonymous.Common.Results.{ok}
use anonymous.Common.{◌≡◌, refl, replicate}
use anonymous.Kem.{KemHeader, RelayKemSecret, public_of, hybrid_kdf, decapsulate, encapsulate}
use anonymous.Kem.Samples.{toy}
use anonymous.Kem.Agreement.{decapsulate-encapsulate}

abbrev relay : RelayKemSecret toy
relay = record { x25519 = 3; mlkem = 5 }

abbrev header : KemHeader
header = record { x25519_point = replicate 32 11; mlkem_ct = replicate 1088 13 }

sealed_to_relay : encapsulate toy (public_of toy relay) 11 13 ≡ ok (header, replicate 32 7)
unfolding encapsulate public_of hybrid_kdf
sealed_to_relay = refl

decapsulate-encapsulate_example : decapsulate toy relay header ≡ ok (replicate 32 7)
decapsulate-encapsulate_example =
    decapsulate-encapsulate toy relay 11 13 header (replicate 32 7) sealed_to_relay
