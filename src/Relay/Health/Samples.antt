-- ===== src/Relay/Health/Samples.antt =====
-- Percentages for rates, a file that keeps what is written, and signatures without secrecy.
use anonymous.Common.{
  ℕ, ◌+◌, ◌-◌, ◌*◌, ◌/◌, ◌≡◌, true, false, some, List, ◌++◌, get_or, replicate, length-replicate,
  ltb, leb, min, max, bytes_eq, bytes_eq_refl, arith, inl, inr, Bool-cases, ◌⊎◌,
}
use anonymous.Relay.Rates.{Floats}
use anonymous.Relay.Health.Median.{RateLaws}
use anonymous.Relay.Health.Advert.{Ed25519}
use anonymous.Relay.Health.QuorumLog.{Disk}

abbrev pub percents : Floats
percents = record {
  F = ℕ;
  ratio = λ a b. a * 100 / b;
  le = leb;
  lt = ltb;
  plus = λ a b. a + b;
  midpoint = λ a b. (a + b) / 2;
  one_minus = λ a. 100 - a;
  average = λ t n. max (t / n) 1;
  portion = λ r n. r * n / 100;
  is_finite = λ r. true;
  clamp_unit = λ r. min r 100;
  nought = 0;
  default_gap = 45;
  default_baseline = 10;
}

leb_total : (a b : ℕ) → (leb a b ≡ true) ⊎ (leb b a ≡ true)
leb_total a b = elim (Bool-cases (leb a b)) [ inl e ↦ inl e | inr e ↦ inr (ground (arith, e)) ]

pub percents-RateLaws : RateLaws percents
percents-RateLaws = record {
  total = leb_total;
  trans = λ a b c h k. ground (arith, h, k);
  midpoint_ge = λ lo a b h k. ground (arith, h, k);
  midpoint_le = λ hi a b h k. ground (arith, h, k);
  average_pos = λ t n. omega arith;
}

abbrev pub kept : Disk
kept = record { File = List ℕ; append = λ file record_. (false, file ++ record_) }

abbrev pub broken : Disk
broken = record { File = List ℕ; append = λ file record_. (true, file) }

abbrev pub stamps : Ed25519
stamps = record {
  SigningKey = ℕ;
  VerifyingKey = ℕ;
  verifying_key = λ key. key;
  from_bytes = λ bytes. some (get_or bytes 0 0);
  sign_bytes = λ key msg. replicate 64 key;
  verify_bytes = λ key msg sig. bytes_eq sig (replicate 64 key);
  length-sign_bytes = λ key msg. length-replicate {A = ℕ} 64 key;
  verify_bytes-sign_bytes = λ key msg. bytes_eq_refl (replicate 64 key);
}
