-- ===== src/Sphinx/Build.antt =====
-- `build` of crates/aegis-crypto/src/sphinx.rs: the client's side.
--
-- A loop over slots `i` is a recursion that carries the index. `headers[i + 1]` and `path[i + 1].id`
-- are read in step, as a list of routing entries.
pub mod Slots
pub mod Embed
pub mod Masked
pub mod Macs
pub mod Onion
pub mod Layers
pub mod Delivery
pub mod EndToEnd
pub mod Guards
pub mod Outcome
mod Tests
use anonymous.Common.Slices.{slice, splice}
use anonymous.Common.Results.{Result, ok, err, ◌>>=◌}
use anonymous.Kem.{
  Primitives, CryptoError, malformed, KemHeader, SharedSecret, RelayKemPublic, kem_header_len,
  write_to, encapsulate,
}
use anonymous.Sphinx.{
  max_hops, routing_slot_len, alpha_len, beta_len, gamma_len, delta_len, sphinx_packet_len,
  off_alpha, off_beta, off_gamma, off_delta, SphinxPacket, stream_beta, stream_delta,
  stream_xor_range, peel_pad, compute_mac,
}
use anonymous.Common.{
  ℕ, zero, suc, ◌+◌, ◌-◌, ◌*◌, Bool, true, false, ◌||◌, List, [], ◌∷◌, length, get_or, set, take,
  replicate, ltb, if◌then◌else◌,
}

-- `path[i + 1].id` and `headers[i + 1]`.
pub record Routing : Type 0 where
  pub id : List ℕ
  pub header : KemHeader

-- Pass 1: the routing entries into the slots from `i` on.
pub write_routing : ℕ → List Routing → List ℕ → List ℕ
write_routing i [] beta = beta
write_routing i (e ∷ entries) beta =
    let off = i * routing_slot_len in
    write_routing (i + 1) entries (write_to e.header (splice beta off e.id) (off + 32))

-- `for j in j..j + n`: the MACs into their slots.
pub embed_gammas : ℕ → ℕ → List (List ℕ) → List ℕ → List ℕ
embed_gammas zero j gammas beta = beta
embed_gammas (suc n) j gammas beta =
    embed_gammas n (j + 1) gammas
      (splice beta (j * routing_slot_len + 32 + kem_header_len) (get_or gammas j []))

module _ (p : Primitives) where
  pub record PathHop : Type 0 where
    pub id : List ℕ
    pub pk : RelayKemPublic p

  -- The random draws of one call.
  pub record Draws : Type 0 where
    pub ephemeral : ℕ → p.X25519Secret
    pub coins : ℕ → p.Coins
    pub beta_fill : List ℕ
    pub delta_fill : List ℕ

  -- The headers and the secrets, hop by hop.
  pub encapsulate_all :
      Draws → ℕ → List PathHop → Result CryptoError (List KemHeader × List SharedSecret)
  encapsulate_all draws i [] = ok ([], [])
  encapsulate_all draws i (hop ∷ path) = do
    (hdr, sec) ← encapsulate p hop.pk (draws.ephemeral i) (draws.coins i)
    (hdrs, secs) ← encapsulate_all draws (i + 1) path
    ok (hdr ∷ hdrs, sec ∷ secs)

  pub encrypt_slots : ℕ → List SharedSecret → List ℕ → List ℕ
  encrypt_slots i [] beta = beta
  encrypt_slots i (secret ∷ secrets) beta =
      let off = i * routing_slot_len in
      encrypt_slots (i + 1) secrets
        (stream_xor_range p beta off (off + routing_slot_len) secret stream_beta)

  pub decrypt_slots : ℕ → List SharedSecret → List ℕ → List ℕ
  decrypt_slots i [] beta = beta
  decrypt_slots i (secret ∷ secrets) beta =
      let off = i * routing_slot_len in
      decrypt_slots (i + 1) secrets
        (stream_xor_range p beta off (off + routing_slot_len) secret stream_beta)

  -- One round of the loop in `mac_after_peels`.
  pub peel_work : SharedSecret → List ℕ → List ℕ
  peel_work secret work =
      let work = stream_xor_range p work 0 routing_slot_len secret stream_beta in
      let work = splice work 0 (slice work routing_slot_len (beta_len - routing_slot_len)) in
      splice work (beta_len - routing_slot_len) (peel_pad p secret routing_slot_len)

  -- The list of secrets is never shorter than `peels + 1`.
  pub mac_after_peels : List ℕ → List SharedSecret → ℕ → List ℕ
  mac_after_peels work [] peels = []
  mac_after_peels work (secret ∷ secrets) zero = compute_mac p secret work
  mac_after_peels work (secret ∷ secrets) (suc peels) =
      mac_after_peels (peel_work secret work) secrets peels

  -- `for i in (0..i).rev()`.
  pub gamma_loop : ℕ → ℕ → List SharedSecret → List (List ℕ) → List ℕ → List (List ℕ) × List ℕ
  gamma_loop zero layers secrets next_gammas beta = (next_gammas, beta)
  gamma_loop (suc i) layers secrets next_gammas beta =
      let beta = embed_gammas (layers - (i + 1)) (i + 1) next_gammas beta in
      let beta = encrypt_slots 0 (take layers secrets) beta in
      let next_gammas = set next_gammas i (mac_after_peels beta secrets (i + 1)) in
      let beta = decrypt_slots 0 (take layers secrets) beta in
      gamma_loop i layers secrets next_gammas beta

  -- `beta` from its random fill.
  pub build_beta : ℕ → List Routing → List SharedSecret → List ℕ → List ℕ
  build_beta layers entries secrets fill =
      let beta = write_routing 0 entries fill in
      let beta = encrypt_slots 0 (take layers secrets) beta in
      let beta = decrypt_slots 0 (take layers secrets) beta in
      let (next_gammas, beta) =
        gamma_loop layers layers secrets (replicate layers (replicate gamma_len 0)) beta in
      let beta = embed_gammas layers 0 next_gammas beta in
      encrypt_slots 0 (take layers secrets) beta

  -- `for sec in &secrets`.
  pub mask_delta : List SharedSecret → List ℕ → List ℕ
  mask_delta [] delta = delta
  mask_delta (secret ∷ secrets) delta =
      mask_delta secrets (stream_xor_range p delta 0 delta_len secret stream_delta)

  pub build_delta : List SharedSecret → List ℕ → List ℕ → List ℕ
  build_delta secrets payload fill =
      let delta = splice (replicate delta_len 0) 0 payload in
      mask_delta secrets (splice delta (length payload) fill)

  pub assemble : KemHeader → List ℕ → List ℕ → List ℕ → SphinxPacket
  assemble header beta gamma delta =
      let packet = write_to header (replicate sphinx_packet_len 0) off_alpha in
      let packet = splice packet off_beta beta in
      let packet = splice packet off_gamma gamma in splice packet off_delta delta

  pub routing_of : List PathHop → List KemHeader → List Routing
  routing_of (hop ∷ path) (hdr ∷ hdrs) = record { id = hop.id; header = hdr } ∷ routing_of path hdrs
  routing_of _ _ = []

  -- What follows the guards; the empty lists do not occur, since a path has two hops.
  pub build_from :
      Draws
      → List PathHop
      → List ℕ
      → List KemHeader × List SharedSecret
      → Result CryptoError SphinxPacket
  build_from draws (hop ∷ path) payload (header ∷ headers, secret ∷ secrets) =
      let beta =
        build_beta (length path) (routing_of path headers) (secret ∷ secrets) draws.beta_fill in
      ok (
        assemble header beta (compute_mac p secret beta)
          (build_delta (secret ∷ secrets) payload draws.delta_fill))
  build_from draws _ payload _ = err (malformed "path length")

  pub build : Draws → List PathHop → List ℕ → Result CryptoError SphinxPacket
  build draws path payload =
      let sealed = (do keys ← encapsulate_all draws 0 path; build_from draws path payload keys) in
      if ltb (length path) 2 || ltb max_hops (length path)
      then err (malformed "path length")
      else if ltb delta_len (length payload)
      then err (malformed "payload too long")
      else sealed
