-- ===== src/Relay/Health/Advert.antt =====
-- crates/aegis-relay/src/health_gossip.rs: the signed report of a neighbor, and the cell it is
-- sent in.
--
-- Ed25519 is the parameter `Ed25519` with its documented behaviour.
pub mod Codec
use anonymous.Common.Results.{Result, ok, err}
use anonymous.Common.Slices.{slice, splice}
use anonymous.Common.{
  ℕ, zero, suc, ◌+◌, ◌*◌, ◌-◌, ◌≡◌, Bool, true, false, not, Option, none, some, List, [], ◌∷◌, ◌++◌,
  length, get_or, ltb, leb, if◌then◌else◌,
}
use anonymous.Cell.{Cell, Command, peer_health_advert, to_u8, from_u8, zeroed}
use anonymous.Fragment.{write_byte}
use anonymous.Sphinx.{le_bytes}
use anonymous.Relay.Labels.{PeerId}

abbrev pub advert_body_len : ℕ
advert_body_len = 32 + 32 + 8 + 8 + 8

abbrev pub advert_sig_len : ℕ
advert_sig_len = 64

abbrev pub advert_wire_len : ℕ
advert_wire_len = advert_body_len + advert_sig_len

abbrev pub default_max_advert_age_secs : ℕ
default_max_advert_age_secs = 3600

-- The errors of `append_verified` that a report runs into are here, too.
pub data HealthGossipError : Type 0 where
  malformed_advert bad_signature unknown_reporter : HealthGossipError
  reporter_mismatch stale_timestamp missing_verifying_key equivocation : HealthGossipError

pub record Ed25519 : Type 1 where
  pub SigningKey : Type 0
  pub VerifyingKey : Type 0
  pub verifying_key : SigningKey → VerifyingKey
  pub from_bytes : List ℕ → Option VerifyingKey
  pub sign_bytes : SigningKey → List ℕ → List ℕ
  pub verify_bytes : VerifyingKey → List ℕ → List ℕ → Bool
  pub length-sign_bytes :
      (key : SigningKey) (msg : List ℕ) → length (sign_bytes key msg) ≡ advert_sig_len
  pub verify_bytes-sign_bytes :
      (key : SigningKey) (msg : List ℕ)
      → verify_bytes (verifying_key key) msg (sign_bytes key msg) ≡ true

-- `u64::from_le_bytes`.
unfoldable pub from_le_bytes : List ℕ → ℕ
from_le_bytes [] = 0
from_le_bytes (b ∷ bytes) = b + 256 * from_le_bytes bytes

pub record PeerHealthAdvert : Type 0 where
  pub reporter : PeerId
  pub subject : PeerId
  pub successes : ℕ
  pub failures : ℕ
  pub timestamp_secs : ℕ
  pub signature : List ℕ

unfoldable pub signable_bytes : PeerHealthAdvert → List ℕ
signable_bytes a =
    a.reporter
    ++ (a.subject
        ++ (le_bytes 8 a.successes ++ (le_bytes 8 a.failures ++ le_bytes 8 a.timestamp_secs)))

unfoldable pub to_cell : PeerHealthAdvert → Cell
to_cell a =
    let buf = write_byte zeroed 0 (to_u8 peer_health_advert) in
    let buf = splice buf 1 (signable_bytes a) in splice buf (1 + advert_body_len) a.signature

abbrev is_advert : Option Command → Bool
is_advert (some peer_health_advert) = true
is_advert _ = false

unfoldable pub from_cell : Cell → Result HealthGossipError PeerHealthAdvert
from_cell b =
    if not (is_advert (from_u8 (get_or b 0 0)))
    then err malformed_advert
    else ok (record {
      reporter = slice b 1 32;
      subject = slice b 33 32;
      successes = from_le_bytes (slice b 65 8);
      failures = from_le_bytes (slice b 73 8);
      timestamp_secs = from_le_bytes (slice b 81 8);
      signature = slice b 89 advert_sig_len;
    })

module _ (e : Ed25519) where
  unfoldable pub sign : e.SigningKey → PeerId → PeerId → ℕ → ℕ → ℕ → PeerHealthAdvert
  sign signing_key reporter subject successes failures timestamp_secs =
      let advert : PeerHealthAdvert = record {
        reporter = reporter;
        subject = subject;
        successes = successes;
        failures = failures;
        timestamp_secs = timestamp_secs;
        signature = [];
      } in
      record advert { signature = e.sign_bytes signing_key (signable_bytes advert) }

  unfoldable pub verify : PeerHealthAdvert → e.VerifyingKey → Result HealthGossipError (Unit {0})
  verify a verifying_key =
      if e.verify_bytes verifying_key (signable_bytes a) a.signature
      then ok tt
      else err bad_signature
