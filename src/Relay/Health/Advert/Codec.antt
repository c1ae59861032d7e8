-- ===== src/Relay/Health/Advert/Codec.antt =====
-- A report in its cell.
use anonymous.Common.Results.{ok}
use anonymous.Common.Slices.{
  slice, splice, length-splice, slice-splice_same, slice-splice_below, slice-slice, get_or-slice,
}
use anonymous.Common.{
  ℕ, zero, suc, ◌+◌, ◌/◌, ◌^◌, ◌<◌, ◌≡◌, refl, sym, ap, ◌∙◌, List, [], ◌∷◌, ◌++◌, length, get_or,
  take, drop, take_of_append, drop_of_append, length-append, drop-drop, take_all, arith,
}
use anonymous.Cell.{cell_len, peer_health_advert, to_u8, from_u8, zeroed, length-zeroed}
use anonymous.Fragment.{write_byte}
use anonymous.Sphinx.{le_bytes}
use anonymous.Relay.Labels.{PeerId}
use anonymous.Relay.Health.Advert.{
  advert_body_len, advert_sig_len, Ed25519, PeerHealthAdvert, from_le_bytes, signable_bytes,
  to_cell, from_cell, sign, verify,
}

pub length-le_bytes : (n v : ℕ) → length (le_bytes n v) ≡ n
unfolding le_bytes
length-le_bytes zero v = refl
length-le_bytes (suc n) v = ap suc (length-le_bytes n (v / 256))

pub from_le_bytes-le_bytes : (n v : ℕ) → v < 256 ^ n → from_le_bytes (le_bytes n v) ≡ v
unfolding from_le_bytes le_bytes
from_le_bytes-le_bytes zero v h = omega arith
from_le_bytes-le_bytes (suc n) v h =
    let rest = from_le_bytes-le_bytes n (v / 256) (grind arith) in omega (arith, rest)

pub slice-append_here : (xs ys : List ℕ) (n : ℕ) → length xs ≡ n → slice (xs ++ ys) 0 n ≡ xs
unfolding slice
slice-append_here xs ys n h = take_of_append n xs ys h

pub slice_whole : (xs : List ℕ) (n : ℕ) → length xs ≡ n → slice xs 0 n ≡ xs
unfolding slice
slice_whole xs n h = take_all n xs (omega (arith, h))

pub slice-append_next :
    (xs ys : List ℕ) (m o k n : ℕ) → length xs ≡ m → m + o ≡ k → slice (xs ++ ys) k n ≡ slice ys o n
unfolding slice
slice-append_next xs ys m o k n h e =
    ap (take n) (sym (drop-drop m o k (xs ++ ys) e) ∙ ap (drop o) (drop_of_append m xs ys h))

-- The fields have the widths of their types.
pub record IsWide (a : PeerHealthAdvert) : Type 0 where
  pub reporter : length a.reporter ≡ 32
  pub subject : length a.subject ≡ 32
  pub successes : a.successes < 2 ^ 64
  pub failures : a.failures < 2 ^ 64
  pub timestamp_secs : a.timestamp_secs < 2 ^ 64
  pub signature : length a.signature ≡ advert_sig_len

length-signable_bytes :
    (a : PeerHealthAdvert)
    → length a.reporter ≡ 32
    → length a.subject ≡ 32
    → length (signable_bytes a) ≡ advert_body_len
unfolding signable_bytes
length-signable_bytes a r s =
    let x = le_bytes 8 a.successes in
    let y = le_bytes 8 a.failures in
    let z = le_bytes 8 a.timestamp_secs in
    omega (
      arith,
      length-append a.reporter (a.subject ++ (x ++ (y ++ z))),
      length-append a.subject (x ++ (y ++ z)),
      length-append x (y ++ z),
      length-append y z,
      length-le_bytes 8 a.successes,
      length-le_bytes 8 a.failures,
      length-le_bytes 8 a.timestamp_secs,
      r,
      s,
    )

module _ (a : PeerHealthAdvert) (w : IsWide a) where
  -- The fields stand one behind the other in the signed bytes.
  reporter_at : slice (signable_bytes a) 0 32 ≡ a.reporter
  unfolding signable_bytes
  reporter_at = slice-append_here a.reporter _ 32 w.reporter

  subject_at : slice (signable_bytes a) 32 32 ≡ a.subject
  unfolding signable_bytes
  subject_at =
      slice-append_next a.reporter _ 32 0 32 32 w.reporter refl
      ∙ slice-append_here a.subject _ 32 w.subject

  counts_at :
      (o k : ℕ)
      → 64 + o ≡ k
      → slice (signable_bytes a) k 8
        ≡ slice
            (le_bytes 8 a.successes ++ (le_bytes 8 a.failures ++ le_bytes 8 a.timestamp_secs))
            o
            8
  unfolding signable_bytes
  counts_at o k e =
      slice-append_next a.reporter _ 32 (32 + o) k 8 w.reporter (omega (arith, e))
      ∙ slice-append_next a.subject _ 32 o (32 + o) 8 w.subject refl

  successes_at : slice (signable_bytes a) 64 8 ≡ le_bytes 8 a.successes
  successes_at = counts_at 0 64 refl ∙ slice-append_here _ _ 8 (length-le_bytes 8 a.successes)

  failures_at : slice (signable_bytes a) 72 8 ≡ le_bytes 8 a.failures
  failures_at =
      counts_at 8 72 refl
      ∙ slice-append_next _ _ 8 0 8 8 (length-le_bytes 8 a.successes) refl
      ∙ slice-append_here _ _ 8 (length-le_bytes 8 a.failures)

  timestamp_at : slice (signable_bytes a) 80 8 ≡ le_bytes 8 a.timestamp_secs
  timestamp_at =
      counts_at 16 80 refl
      ∙ slice-append_next _ _ 8 8 16 8 (length-le_bytes 8 a.successes) refl
      ∙ slice-append_next _ _ 8 0 8 8 (length-le_bytes 8 a.failures) refl
      ∙ slice_whole _ 8 (length-le_bytes 8 a.timestamp_secs)

  marked : List ℕ
  marked = write_byte zeroed 0 (to_u8 peer_health_advert)

  signed : List ℕ
  signed = splice marked 1 (signable_bytes a)

  length-marked : length marked ≡ cell_len
  unfolding marked to_u8
  length-marked = length-splice zeroed 0 (7 ∷ []) (omega (arith, length-zeroed)) ∙ length-zeroed

  length-signed : length signed ≡ cell_len
  unfolding signed
  length-signed =
      length-splice marked 1 (signable_bytes a)
        (omega (arith, length-marked, length-signable_bytes a w.reporter w.subject))
      ∙ length-marked

  body_at : slice (to_cell a) 1 advert_body_len ≡ signable_bytes a
  unfolding to_cell signed marked
  body_at =
      slice-splice_below signed 89 1 advert_body_len a.signature (omega (arith, length-signed))
        (omega arith)
      ∙ slice-splice_same marked 1 advert_body_len (signable_bytes a) (omega (arith, length-marked))
          (length-signable_bytes a w.reporter w.subject)

  field_at :
      (o k n : ℕ) → 1 + o ≡ k → o + n < 89 → slice (to_cell a) k n ≡ slice (signable_bytes a) o n
  field_at o k n e h =
      sym (slice-slice (to_cell a) 1 advert_body_len o n k (omega arith) e)
      ∙ ap (λ b. slice b o n) body_at

  signature_at : slice (to_cell a) 89 advert_sig_len ≡ a.signature
  unfolding to_cell signed marked
  signature_at =
      slice-splice_same signed 89 advert_sig_len a.signature (omega (arith, length-signed))
        w.signature

  command_at : get_or (to_cell a) 0 0 ≡ 7
  unfolding to_cell signed marked to_u8
  command_at =
      get_or-slice (to_cell a) 0 0
      ∙ ap (λ b. get_or b 0 0)
          (slice-splice_below signed 89 0 1 a.signature (omega (arith, length-signed)) (omega arith)
            ∙ slice-splice_below marked 1 0 1 (signable_bytes a) (omega (arith, length-marked))
                (omega arith)
            ∙ slice-splice_same zeroed 0 1 (7 ∷ []) (omega (arith, length-zeroed)) refl)

  from_cell-to_cell : from_cell (to_cell a) ≡ ok a
  unfolding from_cell from_u8
  from_cell-to_cell =
      rw
        (
          command_at,
          field_at 0 1 32 refl (omega arith),
          reporter_at,
          field_at 32 33 32 refl (omega arith),
          subject_at,
          field_at 64 65 8 refl (omega arith),
          successes_at,
          from_le_bytes-le_bytes 8 a.successes w.successes,
          field_at 72 73 8 refl (omega arith),
          failures_at,
          from_le_bytes-le_bytes 8 a.failures w.failures,
          field_at 80 81 8 refl (omega arith),
          timestamp_at,
          from_le_bytes-le_bytes 8 a.timestamp_secs w.timestamp_secs,
          signature_at,
        )
        refl

module _ (e : Ed25519) where
  -- A report with ids of 32 bytes and counts and time below 2 ^ 64, signed, put into a cell and
  -- read back, is itself again, and verifies under the signer's verifying key.
  pub verify-from_cell-to_cell-sign :
      (key : e.SigningKey) (reporter subject : PeerId) (successes failures time : ℕ)
      → length reporter ≡ 32
      → length subject ≡ 32
      → successes < 2 ^ 64
      → failures < 2 ^ 64
      → time < 2 ^ 64
      → let a = sign e key reporter subject successes failures time in
        (from_cell (to_cell a) ≡ ok a) × (verify e a (e.verifying_key key) ≡ ok tt)
  unfolding sign verify signable_bytes
  verify-from_cell-to_cell-sign key reporter subject successes failures time r s x y z =
      let a = sign e key reporter subject successes failures time in
      let w : IsWide a = record {
        reporter = r;
        subject = s;
        successes = x;
        failures = y;
        timestamp_secs = z;
        signature = e.length-sign_bytes key _;
      } in
      (from_cell-to_cell a w, rw (e.verify_bytes-sign_bytes key (signable_bytes a)) refl)
