-- ===== src/Sphinx/Build/Guards.antt =====
-- When `build` succeeds.
use anonymous.Common.Results.{ok}
use anonymous.Common.{ℕ, suc, ◌+◌, ◌≤◌, ◌<◌, ◌≡◌, refl, ap, List, [], ◌∷◌, arith, length}
use anonymous.Kem.{Primitives, KemHeader, SharedSecret}
use anonymous.Kem.Agreement.{NeverRefuses, encapsulate_total}
use anonymous.Sphinx.{max_hops, delta_len, SphinxPacket}
use anonymous.Sphinx.Build.{PathHop, Draws, encapsulate_all, build_from, build}

module _ (p : Primitives) where
  encapsulate_all_total :
      (draws : Draws p) (path : List (PathHop p)) (i : ℕ)
      → NeverRefuses p
      → (hs : List KemHeader) × (ss : List SharedSecret) × (encapsulate_all p draws i path
          ≡ ok (hs, ss))
        × (length hs ≡ length path)
        × (length ss ≡ length path)
  unfolding encapsulate_all
  encapsulate_all_total draws [] i n = ([], [], refl, refl, refl)
  encapsulate_all_total draws (hop ∷ path) i n =
      let ((h, s), e) = encapsulate_total p hop.pk (draws.ephemeral i) (draws.coins i) n in
      let (hs, ss, es, lh, ls) = encapsulate_all_total draws path (i + 1) n in
      (h ∷ hs, s ∷ ss, ground (arith, e, es), ap suc lh, ap suc ls)

  sealed_total :
      (draws : Draws p) (path : List (PathHop p)) (payload : List ℕ) (hs : List KemHeader)
      (ss : List SharedSecret)
      → 1 < length path
      → length hs ≡ length path
      → length ss ≡ length path
      → (packet : SphinxPacket) × (build_from p draws path payload (hs, ss) ≡ ok packet)
  unfolding build_from
  sealed_total draws [] payload hs ss more lh ls = absurd (omega arith)
  sealed_total draws (hop ∷ path) payload [] ss more lh ls = absurd (omega arith)
  sealed_total draws (hop ∷ path) payload (h ∷ hs) [] more lh ls = absurd (omega arith)
  sealed_total draws (hop ∷ path) payload (h ∷ hs) (s ∷ ss) more lh ls = (_, refl)

  -- `build` gives a packet for every path of 2 to 6 hops and every payload of at most 256 bytes,
  -- if no encapsulation is refused.
  pub build_total :
      (draws : Draws p) (path : List (PathHop p)) (payload : List ℕ)
      → NeverRefuses p
      → 1 < length path
      → length path ≤ max_hops
      → length payload ≤ delta_len
      → (packet : SphinxPacket) × (build p draws path payload ≡ ok packet)
  unfolding build
  build_total draws path payload n more few fits =
      let (hs, ss, e, lh, ls) = encapsulate_all_total draws path 0 n in
      let (packet, made) = sealed_total draws path payload hs ss more lh ls in
      (packet, ground (arith, e, made))
