-- ===== src/Sphinx/Regions.antt =====
-- A packet as its four regions, and the peel of one layer in those terms.
use anonymous.Common.Slices.{slice, length-slice, slice-append_right, slice-append_left, slice_all}
use anonymous.Common.Results.{ok}
use anonymous.Common.{
  ℕ, zero, suc, ◌+◌, ◌≡◌, refl, sym, ap, ◌∙◌, List, [], ◌∷◌, ◌++◌, arith, length, set, take, drop,
  replicate, ltb, length-replicate, length-drop, length-append, drop-drop, take_all,
  take-append-drop, Bool-cases, inl, inr,
}
use anonymous.Kem.{Primitives, KemHeader, SharedSecret, read_from, kem_header_len}
use anonymous.Sphinx.{
  Processed, forward, sphinx_packet_len, off_alpha, off_beta, off_gamma, routing_slot_len,
  alpha_len, beta_len, gamma_len, delta_len, copy_block, pad_loop, peel_pad, hash_block,
  stream_beta, stream_delta, peel, stream_xor_range,
}

length-set : (xs : List ℕ) (i v : ℕ) → length (set xs i v) ≡ length xs
length-set [] i v = refl
length-set (x ∷ xs) zero v = refl
length-set (x ∷ xs) (suc i) v = ap suc (length-set xs i v)

length-copy_block :
    (block : List ℕ) (len : ℕ) (out : List ℕ) (pos : ℕ)
    → length (copy_block block len out pos).0 ≡ length out
unfolding copy_block
length-copy_block [] len out pos = refl
length-copy_block (byte ∷ block) len out pos =
    ground
      (arith, length-copy_block block len (set out pos byte) (pos + 1), length-set out pos byte)

module _ (p : Primitives) where
  length-pad_loop :
      (fuel : ℕ) (secret : SharedSecret) (counter pos len : ℕ) (out : List ℕ)
      → length (pad_loop p fuel secret counter pos len out) ≡ length out
  unfolding pad_loop
  length-pad_loop zero secret counter pos len out = refl
  length-pad_loop (suc fuel) secret counter pos len out = elim (Bool-cases (ltb pos len)) [
    | inl more ↦
        let r = copy_block (hash_block p anonymous.Sphinx.pad_domain secret counter) len out pos in
        rw more (
          length-pad_loop fuel secret (counter + 1) r.1 len r.0
          ∙ length-copy_block (hash_block p anonymous.Sphinx.pad_domain secret counter) len out pos)
    | inr stop ↦ rw stop refl
  ]

  pub length-peel_pad : (secret : SharedSecret) (n : ℕ) → length (peel_pad p secret n) ≡ n
  unfolding peel_pad
  length-peel_pad secret n =
      length-pad_loop n secret 0 0 n (replicate n 0) ∙ length-replicate {A = ℕ} n 0

pub record Regions : Type 0 where
  pub alpha : List ℕ
  pub beta : List ℕ
  pub gamma : List ℕ
  pub delta : List ℕ

pub record IsSized (r : Regions) : Type 0 where
  pub alpha_sized : length r.alpha ≡ alpha_len
  pub beta_sized : length r.beta ≡ beta_len
  pub gamma_sized : length r.gamma ≡ gamma_len
  pub delta_sized : length r.delta ≡ delta_len

unfoldable pub packet_of : Regions → List ℕ
packet_of r = r.alpha ++ (r.beta ++ (r.gamma ++ r.delta))

-- The header bytes of a parsed header.
abbrev pub header_bytes : KemHeader → List ℕ
header_bytes h = h.x25519_point ++ h.mlkem_ct

-- Parsing 1120 bytes succeeds, and the header's parts are those bytes.
pub read_from_whole :
    (bytes : List ℕ)
    → length bytes ≡ kem_header_len
    → (h : KemHeader) × (read_from bytes ≡ ok h)
      × (header_bytes h ≡ bytes)
      × (length h.x25519_point ≡ 32)
      × (length h.mlkem_ct ≡ 1088)
unfolding read_from slice
read_from_whole bytes e = (
  record { x25519_point = slice bytes 0 32; mlkem_ct = slice bytes 32 1088 },
  ground (arith, e),
  ap (λ l. take 32 bytes ++ l)
        (take_all 1088 (drop 32 bytes) (omega (arith, e, length-drop 32 bytes)))
      ∙ take-append-drop 32 bytes,
  length-slice bytes 0 32 (omega (arith, e)),
  length-slice bytes 32 1088 (omega (arith, e)),
)

-- The regions of a packet of full length.
abbrev pub regions_of : List ℕ → Regions
regions_of packet = record {
  alpha = slice packet 0 alpha_len;
  beta = slice packet alpha_len beta_len;
  gamma = slice packet (alpha_len + beta_len) gamma_len;
  delta = slice packet (alpha_len + beta_len + gamma_len) delta_len;
}

pub regions_of-IsSized :
    (packet : List ℕ) → length packet ≡ sphinx_packet_len → IsSized (regions_of packet)
regions_of-IsSized packet e = record {
  alpha_sized = length-slice packet 0 alpha_len (omega (arith, e));
  beta_sized = length-slice packet alpha_len beta_len (omega (arith, e));
  gamma_sized = length-slice packet (alpha_len + beta_len) gamma_len (omega (arith, e));
  delta_sized = length-slice packet (alpha_len + beta_len + gamma_len) delta_len (omega (arith, e));
}

pub packet_of-regions_of :
    (packet : List ℕ) → length packet ≡ sphinx_packet_len → packet_of (regions_of packet) ≡ packet
unfolding packet_of slice
packet_of-regions_of packet e =
    let d1 = drop alpha_len packet in
    let d2 = drop (alpha_len + beta_len) packet in
    let d3 = drop (alpha_len + beta_len + gamma_len) packet in
    let last : take delta_len d3 ≡ d3 =
      take_all delta_len d3
        (omega (arith, e, length-drop (alpha_len + beta_len + gamma_len) packet)) in
    let join3 : take gamma_len d2 ++ d3 ≡ d2 =
      ap (λ l. take gamma_len d2 ++ l)
        (sym (
          drop-drop (alpha_len + beta_len) gamma_len (alpha_len + beta_len + gamma_len) packet
            refl))
      ∙ take-append-drop gamma_len d2 in
    let join2 : take beta_len d1 ++ d2 ≡ d1 =
      ap (λ l. take beta_len d1 ++ l)
        (sym (drop-drop alpha_len beta_len (alpha_len + beta_len) packet refl))
      ∙ take-append-drop beta_len d1 in
    ap (λ l. take alpha_len packet ++ (take beta_len d1 ++ (take gamma_len d2 ++ l))) last
    ∙ ap (λ l. take alpha_len packet ++ (take beta_len d1 ++ l)) join3
    ∙ ap (λ l. take alpha_len packet ++ l) join2
    ∙ take-append-drop alpha_len packet

pub length-packet_of : (r : Regions) → IsSized r → length (packet_of r) ≡ sphinx_packet_len
unfolding packet_of
length-packet_of r v = omega (
  arith,
  length-append r.alpha (r.beta ++ (r.gamma ++ r.delta)),
  length-append r.beta (r.gamma ++ r.delta),
  length-append r.gamma r.delta,
  v.alpha_sized,
  v.beta_sized,
  v.gamma_sized,
  v.delta_sized,
)

-- The ranges that the MAC covers and is compared with.
pub beta_of_packet : (r : Regions) → IsSized r → slice (packet_of r) off_beta beta_len ≡ r.beta
unfolding packet_of
beta_of_packet r v =
    slice-append_right r.alpha (r.beta ++ (r.gamma ++ r.delta)) off_beta 0 beta_len
      (omega (arith, v.alpha_sized))
    ∙ slice-append_left r.beta (r.gamma ++ r.delta) 0 beta_len (omega (arith, v.beta_sized))
    ∙ slice_all r.beta beta_len v.beta_sized

pub gamma_of_packet : (r : Regions) → IsSized r → slice (packet_of r) off_gamma gamma_len ≡ r.gamma
unfolding packet_of
gamma_of_packet r v =
    slice-append_right r.alpha (r.beta ++ (r.gamma ++ r.delta)) off_gamma beta_len gamma_len
      (omega (arith, v.alpha_sized))
    ∙ slice-append_right r.beta (r.gamma ++ r.delta) beta_len 0 gamma_len
        (omega (arith, v.beta_sized))
    ∙ slice-append_left r.gamma r.delta 0 gamma_len (omega (arith, v.gamma_sized))
    ∙ slice_all r.gamma gamma_len v.gamma_sized

pub alpha_of_packet : (r : Regions) → IsSized r → slice (packet_of r) off_alpha alpha_len ≡ r.alpha
unfolding packet_of
alpha_of_packet r v =
    slice-append_left r.alpha (r.beta ++ (r.gamma ++ r.delta)) 0 alpha_len
      (omega (arith, v.alpha_sized))
    ∙ slice_all r.alpha alpha_len v.alpha_sized
