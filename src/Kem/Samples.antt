-- ===== src/Kem/Samples.antt =====
-- Toy primitives on which the theorems about keys and packets are tried.
use anonymous.Common.{
  ℕ, ◌+◌, ◌≡◌, refl, sym, ap, ◌∙◌, Option, some, none, List, [], arith, length, get_or, replicate,
  length-replicate,
}
use anonymous.Common.Results.{ok}
use anonymous.Kem.{Primitives, KemHeader, RelayKemSecret, decapsulate, hybrid_kdf}

abbrev exchange : ℕ → List ℕ → List ℕ
exchange a point = replicate 32 (a + get_or point 0 0)

abbrev sealed : ℕ → ℕ → Option (List ℕ × List ℕ)
sealed key coins = some (replicate 1088 coins, replicate 32 (key + coins))

abbrev opened : ℕ → List ℕ → Option (List ℕ)
opened key ct = some (replicate 32 (key + get_or ct 0 0))

pub sealed_ct :
    (key coins : ℕ) (ct ss : List ℕ)
    → sealed key coins ≡ some (ct, ss)
    → (replicate 1088 coins ≡ ct) × (replicate 32 (key + coins) ≡ ss)
sealed_ct key coins ct ss h =
    let parts : Option (List ℕ × List ℕ) → List ℕ × List ℕ =
      λ o. elim o [ none ↦ ([], []) | some r ↦ r ] in
    (ap (λ o. (parts o).0) h, ap (λ o. (parts o).1) h)

abbrev pub toy : Primitives
toy = record {
  X25519Secret = ℕ;
  MlKemSecret = ℕ;
  MlKemPublic = ℕ;
  Coins = ℕ;
  x25519_public = λ s. replicate 32 s;
  diffie_hellman = exchange;
  mlkem_public = λ s. s;
  mlkem_bytes = λ key. replicate 1184 key;
  mlkem_encapsulate = sealed;
  mlkem_decapsulate = opened;
  sha3_256 = λ m. replicate 32 7;
  length-x25519_public = λ s. length-replicate {A = ℕ} 32 s;
  length-mlkem_ct = λ key c ct ss h.
      (ap length (sym (sealed_ct key c ct ss h).0) ∙ length-replicate {A = ℕ} 1088 c);
  length-sha3_256 = λ m. length-replicate {A = ℕ} 32 7;
  diffie_hellman_comm = λ a b. ap (replicate 32) (omega arith);
  mlkem_decapsulate_encapsulate =
      λ s c ct ss h. (let e = sealed_ct s c ct ss h in ap (opened s) (sym e.0) ∙ ap some e.1);
}

pub decapsulate-toy :
    (s : RelayKemSecret toy) (header : KemHeader) → decapsulate toy s header ≡ ok (replicate 32 7)
unfolding decapsulate hybrid_kdf
decapsulate-toy s header = refl
