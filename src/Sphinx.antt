-- ===== src/Sphinx.antt =====
-- crates/aegis-crypto/src/sphinx.rs: building, verifying and peeling a Sphinx packet.
--
-- Byte arrays are lists. The cryptographic crates are the parameter `Primitives` of Kem.antt. The
-- random draws of `build` are an argument: for each hop an ephemeral secret and coins, then the
-- bytes that fill `beta` and `delta`. A loop `while pos < end` over hash blocks of 32 bytes takes
-- as many rounds of fuel as there are bytes, which suffices since each block covers at least one.
pub mod Stream
pub mod Regions
pub mod Peel
pub mod Process
pub mod Accept
pub mod Build
pub mod Samples
mod Tests
use Prim.Native.Nat.{bit_xor}
use anonymous.Common.Slices.{slice, splice}
use anonymous.Common.Results.{Result, ok, err, ◌>>=◌}
use anonymous.Kem.{
  Primitives, CryptoError, integrity_failure, replay_rejected, malformed, KemHeader, SharedSecret,
  RelayKemSecret, RelayKemPublic, kem_header_len, write_to, read_from, decapsulate, encapsulate,
}
use anonymous.Replay.{CtEq, ReplayTag, ReplayCache, check_and_insert}
use anonymous.Common.{
  ℕ, zero, suc, ◌+◌, ◌-◌, ◌*◌, ◌/◌, ◌%◌, ◌^◌, Bool, true, false, ◌||◌, Option, none, some, List, [],
  ◌∷◌, ◌++◌, length, get_or, set, take, drop, replicate, ltb, leb, if◌then◌else◌,
}

abbrev pub max_hops : ℕ
max_hops = 6

abbrev pub routing_slot_len : ℕ
routing_slot_len = 32 + kem_header_len + 32

abbrev pub alpha_len : ℕ
alpha_len = kem_header_len

abbrev pub beta_len : ℕ
beta_len = max_hops * routing_slot_len

abbrev pub gamma_len : ℕ
gamma_len = 32

abbrev pub delta_len : ℕ
delta_len = 256

abbrev pub sphinx_packet_len : ℕ
sphinx_packet_len = alpha_len + beta_len + gamma_len + delta_len

abbrev pub off_alpha : ℕ
off_alpha = 0

abbrev pub off_beta : ℕ
off_beta = alpha_len

abbrev pub off_gamma : ℕ
off_gamma = off_beta + beta_len

abbrev pub off_delta : ℕ
off_delta = off_gamma + gamma_len

-- The domain separators.
pub stream_beta : List ℕ
stream_beta =
    b'a' ∷ b'e' ∷ b'g' ∷ b'i' ∷ b's' ∷ b'-' ∷ b'b' ∷ b'e' ∷ b't' ∷ b'a' ∷ b'-' ∷ b's' ∷ b't' ∷ b'r'
    ∷ b'e' ∷ b'a' ∷ b'm' ∷ b'-' ∷ b'v' ∷ b'1' ∷ []

pub stream_delta : List ℕ
stream_delta =
    b'a' ∷ b'e' ∷ b'g' ∷ b'i' ∷ b's' ∷ b'-' ∷ b'd' ∷ b'e' ∷ b'l' ∷ b't' ∷ b'a' ∷ b'-' ∷ b's' ∷ b't'
    ∷ b'r' ∷ b'e' ∷ b'a' ∷ b'm' ∷ b'-' ∷ b'v' ∷ b'1' ∷ []

pub mac_domain : List ℕ
mac_domain =
    b'a' ∷ b'e' ∷ b'g' ∷ b'i' ∷ b's' ∷ b'-' ∷ b'g' ∷ b'a' ∷ b'm' ∷ b'm' ∷ b'a' ∷ b'-' ∷ b'm' ∷ b'a'
    ∷ b'c' ∷ b'-' ∷ b'v' ∷ b'1' ∷ []

pub replay_domain : List ℕ
replay_domain =
    b'a' ∷ b'e' ∷ b'g' ∷ b'i' ∷ b's' ∷ b'-' ∷ b'r' ∷ b'e' ∷ b'p' ∷ b'l' ∷ b'a' ∷ b'y' ∷ b'-' ∷ b't'
    ∷ b'a' ∷ b'g' ∷ b'-' ∷ b'v' ∷ b'1' ∷ []

pub pad_domain : List ℕ
pad_domain =
    b'a' ∷ b'e' ∷ b'g' ∷ b'i' ∷ b's' ∷ b'-' ∷ b'b' ∷ b'e' ∷ b't' ∷ b'a' ∷ b'-' ∷ b'p' ∷ b'e' ∷ b'e'
    ∷ b'l' ∷ b'-' ∷ b'p' ∷ b'a' ∷ b'd' ∷ b'-' ∷ b'v' ∷ b'1' ∷ []

abbrev pub SphinxPacket : Type 0
SphinxPacket = List ℕ

pub data Processed : Type 0 where
  forward : List ℕ → SphinxPacket → Processed
  loop_returned dropped : Processed

-- `counter.to_le_bytes()` of a u64.
unfoldable pub le_bytes : ℕ → ℕ → List ℕ
le_bytes zero v = []
le_bytes (suc n) v = (v % 256) ∷ le_bytes n (v / 256)

-- `for byte in block { if pos >= end { break; } buf[pos] ^= byte; pos += 1; }`.
pub xor_block : List ℕ → ℕ → List ℕ → ℕ → List ℕ × ℕ
xor_block [] end buf pos = (buf, pos)
xor_block (byte ∷ block) end buf pos =
    let rest = xor_block block end (set buf pos (bit_xor (get_or buf pos 0) byte)) (pos + 1) in
    if leb end pos then (buf, pos) else rest

-- The same loop in `peel_pad`, which writes the block itself.
pub copy_block : List ℕ → ℕ → List ℕ → ℕ → List ℕ × ℕ
copy_block [] len out pos = (out, pos)
copy_block (byte ∷ block) len out pos =
    let rest = copy_block block len (set out pos byte) (pos + 1) in
    if leb len pos then (out, pos) else rest

pub extract_kem_header : SphinxPacket → Result CryptoError KemHeader
extract_kem_header packet = read_from (slice packet off_alpha alpha_len)

module _ (p : Primitives) where
  abbrev pub hash_block : List ℕ → SharedSecret → ℕ → List ℕ
  hash_block domain secret counter = p.sha3_256 (domain ++ (secret ++ le_bytes 8 counter))

  pub stream_loop : ℕ → List ℕ → SharedSecret → ℕ → ℕ → ℕ → List ℕ → List ℕ
  stream_loop zero domain secret counter pos end buf = buf
  stream_loop (suc fuel) domain secret counter pos end buf =
      let (buf', pos') = xor_block (hash_block domain secret counter) end buf pos in
      let rest = stream_loop fuel domain secret (counter + 1) pos' end buf' in
      if ltb pos end then rest else buf

  pub stream_xor_range : List ℕ → ℕ → ℕ → SharedSecret → List ℕ → List ℕ
  stream_xor_range buf start end secret domain =
      stream_loop (end - start) domain secret 0 start end buf

  pub pad_loop : ℕ → SharedSecret → ℕ → ℕ → ℕ → List ℕ → List ℕ
  pad_loop zero secret counter pos len out = out
  pad_loop (suc fuel) secret counter pos len out =
      let (out', pos') = copy_block (hash_block pad_domain secret counter) len out pos in
      let rest = pad_loop fuel secret (counter + 1) pos' len out' in
      if ltb pos len then rest else out

  pub peel_pad : SharedSecret → ℕ → List ℕ
  peel_pad secret len = pad_loop len secret 0 0 len (replicate len 0)

  pub compute_mac : SharedSecret → List ℕ → List ℕ
  compute_mac secret beta = p.sha3_256 (mac_domain ++ (secret ++ beta))

  pub replay_tag : SharedSecret → ReplayTag
  replay_tag secret = p.sha3_256 (replay_domain ++ secret)

  abbrev pub beta_slice : SphinxPacket → List ℕ
  beta_slice packet = slice packet off_beta beta_len

  pub peel : SphinxPacket → SharedSecret → Result CryptoError Processed
  peel packet secret = do
    let out = stream_xor_range packet off_beta (off_beta + routing_slot_len) secret stream_beta
    let next_hop = slice out off_beta 32
    next_header ← read_from (slice out (off_beta + 32) kem_header_len)
    let next_gamma = slice out (off_beta + 32 + kem_header_len) gamma_len
    let out =
        splice out off_beta (slice out (off_beta + routing_slot_len) (beta_len - routing_slot_len))
    let pad = peel_pad secret routing_slot_len
    let out = splice out (off_beta + beta_len - routing_slot_len) pad
    let out = write_to next_header out off_alpha
    let out = splice out off_gamma next_gamma
    let out = stream_xor_range out off_delta (off_delta + delta_len) secret stream_delta
    ok (forward next_hop out)

  module _ (subtle : CtEq) where
    pub verify_mac : SharedSecret → SphinxPacket → Bool
    verify_mac secret packet =
        subtle.ct_eq (compute_mac secret (beta_slice packet)) (slice packet off_gamma gamma_len)

    module _ {F : Type 0} (fill_threshold : ℕ → F → ℕ) where
      -- Once the secret is known: integrity, then replay, then the peel.
      pub process_with :
          SphinxPacket → SharedSecret → ReplayCache F → Result CryptoError Processed × ReplayCache F
      process_with packet secret replay =
          if verify_mac secret packet
          then (let (replay', fresh) =
                check_and_insert subtle fill_threshold replay (replay_tag secret) in
              if fresh then (peel packet secret, replay') else (err replay_rejected, replay'))
          else (err integrity_failure, replay)

      pub process :
          SphinxPacket
          → RelayKemSecret p
          → ReplayCache F
          → Result CryptoError Processed × ReplayCache F
      process packet relay_secret replay =
          elim (extract_kem_header packet >>= decapsulate p relay_secret) [
            | err e ↦ (err e, replay)
            | ok secret ↦ process_with packet secret replay
          ]
