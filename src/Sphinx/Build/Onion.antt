-- ===== src/Sphinx/Build/Onion.antt =====
-- `beta` as built, and the nested onion of the hops.
use anonymous.Common.Slices.{length-slice, drop_all}
use anonymous.Common.{
  ℕ, zero, suc, ◌+◌, ◌-◌, ◌*◌, ◌≤◌, ◌<◌, ◌≡◌, refl, sym, ap, ◌∙◌, List, [], ◌∷◌, arith, length, set,
  take, drop, replicate, length-drop, length-replicate,
}
use anonymous.Kem.{Primitives, SharedSecret, kem_header_len}
use anonymous.Sphinx.{routing_slot_len, beta_len, gamma_len}
use anonymous.Sphinx.Build.{
  Routing, write_routing, embed_gammas, encrypt_slots, decrypt_slots, mac_after_peels, gamma_loop,
  build_beta,
}
use anonymous.Sphinx.Build.Slots.{AllSized, Macs, plain, filler, write_routing_lem}
use anonymous.Sphinx.Build.Embed.{renewed, renewed-Macs, drop-renewed, embed_gammas_lem}
use anonymous.Sphinx.Build.Masked.{masked, encrypt_slots_lem, decrypt_slots_lem}
use anonymous.Sphinx.Build.Macs.{gammas_of, gammas_of-Macs, mac_after_peels_lem}

length-Macs : (es : List Routing) (gs : List (List ℕ)) → Macs es gs → length gs ≡ length es
length-Macs [] [] m = refl
length-Macs [] (g ∷ gs) m = absurd m
length-Macs (e ∷ es) [] m = absurd m
length-Macs (e ∷ es) (g ∷ gs) (lg, m) = ap suc (length-Macs es gs m)

filler-Macs :
    (es : List Routing) (b : List ℕ)
    → length es * routing_slot_len ≤ length b
    → Macs es (filler es b)
filler-Macs [] b h = tt
filler-Macs (e ∷ es) b h = (
  length-slice b (32 + kem_header_len) gamma_len (omega (arith, h)),
  filler-Macs es (drop routing_slot_len b) (omega (arith, h, length-drop routing_slot_len b)),
)

drop-set :
    (gs : List (List ℕ)) (i : ℕ) (g : List ℕ)
    → i < length gs
    → drop i (set gs i g) ≡ g ∷ drop (suc i) gs
drop-set [] i g h = absurd (omega arith)
drop-set (x ∷ gs) zero g h = refl
drop-set (x ∷ gs) (suc i) g h = drop-set gs i g (omega arith)

length-set : (gs : List (List ℕ)) (i : ℕ) (g : List ℕ) → length (set gs i g) ≡ length gs
length-set [] i g = refl
length-set (x ∷ gs) zero g = refl
length-set (x ∷ gs) (suc i) g = ap suc (length-set gs i g)

module _ (p : Primitives) where
  -- `beta` as the hop with the first of the secrets gets it.
  abbrev pub onion : List SharedSecret → List Routing → List ℕ → List ℕ
  onion ss es t = masked p ss es (gammas_of p ss es t) t

  module _ (ss : List SharedSecret) (es : List Routing) (t : List ℕ)
      (one_more : length ss ≡ suc (length es)) (v : AllSized es)
      (full : length es * routing_slot_len + length t ≡ beta_len) where
    abbrev layers : ℕ
    layers = length es

    abbrev gammas : List (List ℕ)
    gammas = gammas_of p ss es t

    gammas-Macs : Macs es gammas
    gammas-Macs = gammas_of-Macs p ss es t one_more

    -- What one round of the loop over the slots writes.
    abbrev new_mac : ℕ → List (List ℕ) → List ℕ
    new_mac i gs = mac_after_peels p (masked p ss es (renewed (suc i) gs gammas) t) ss (suc i)

    gamma_loop_step :
        (i : ℕ) (gs next : List (List ℕ))
        → i < layers
        → Macs es gs
        → drop (suc i) next ≡ drop (suc i) gammas
        → gamma_loop p (suc i) layers ss next (plain es gs t)
          ≡ gamma_loop p i layers ss
              (set next i (new_mac i gs))
              (plain es (renewed (suc i) gs gammas) t)
    unfolding gamma_loop
    gamma_loop_step i gs next below m d =
        let gs1 = renewed (suc i) gs gammas in
        let m1 = renewed-Macs (suc i) es gs gammas m gammas-Macs in
        let cover : length es ≤ length ss = omega (arith, one_more) in
        let index : i + 1 ≡ suc i = omega arith in
        let count : layers - (i + 1) + suc i ≡ layers = omega (arith, below) in
        let body : ℕ → List ℕ → List ℕ → List (List ℕ) × List ℕ =
          λ k w b. gamma_loop p i layers ss (set next i (mac_after_peels p w ss k)) b in
        let enc = encrypt_slots p 0 (take layers ss) in
        let dec = decrypt_slots p 0 (take layers ss) in
        ap
          (λ k.
            body (i + 1) (enc (embed_gammas (layers - (i + 1)) k next (plain es gs t)))
              (dec (enc (embed_gammas (layers - (i + 1)) k next (plain es gs t)))))
          index
        ∙ ap (λ b. body (i + 1) (enc b) (dec (enc b)))
            (embed_gammas_lem (suc i) (layers - (i + 1)) es next gammas gs t count v m gammas-Macs
              d)
        ∙ ap (λ w. body (i + 1) w (dec w)) (encrypt_slots_lem p ss es gs1 t cover v m1)
        ∙ ap (body (i + 1) (masked p ss es gs1 t)) (decrypt_slots_lem p ss es gs1 t cover v m1)
        ∙ ap (λ k. body k (masked p ss es gs1 t) (plain es gs1 t)) index

    -- The loop fills the MACs from the last slot to the first.
    gamma_loop_lem :
        (i : ℕ) (gs next : List (List ℕ))
        → i ≤ layers
        → Macs es gs
        → length next ≡ layers
        → drop i next ≡ drop i gammas
        → (gs' : List (List ℕ)) × Macs es gs'
          × (gamma_loop p i layers ss next (plain es gs t) ≡ (gammas, plain es gs' t))
    unfolding gamma_loop
    gamma_loop_lem zero gs next below m l d = (gs, m, ap (λ x. (x, plain es gs t)) d)
    gamma_loop_lem (suc i) gs next below m l d =
        let gs1 = renewed (suc i) gs gammas in
        let m1 = renewed-Macs (suc i) es gs gammas m gammas-Macs in
        let mac = new_mac i gs in
        let known : drop (suc i) gs1 ≡ drop (suc i) gammas =
          drop-renewed (suc i) es gs gammas m gammas-Macs in
        let filled : drop i (set next i mac) ≡ drop i gammas =
          drop-set next i mac (omega (arith, below, l))
          ∙ ap (λ r. mac ∷ r) d
          ∙ sym (
              mac_after_peels_lem p i ss es gs1 t one_more (omega (arith, below)) v m1 full
                known) in
        let (gs', m', e) =
          gamma_loop_lem i gs1 (set next i mac) (omega (arith, below)) m1
            (length-set next i mac ∙ l) filled in
        (gs', m', gamma_loop_step i gs next (omega (arith, below)) m d ∙ e)

  -- For routing entries of full length that fit into `beta`, one secret more than entries, and a
  -- fill of the length of `beta`: the loops of `build` over the slots give the onion, with the
  -- random bytes behind the routing entries in its innermost layer.
  pub build_beta-onion :
      (ss : List SharedSecret) (es : List Routing) (fill : List ℕ)
      → length ss ≡ suc (length es)
      → AllSized es
      → length fill ≡ beta_len
      → length es * routing_slot_len ≤ beta_len
      → build_beta p (length es) es ss fill ≡ onion ss es (drop (length es * routing_slot_len) fill)
  unfolding build_beta
  build_beta-onion ss es fill one_more v lf room =
      let n = length es in
      let t = drop (n * routing_slot_len) fill in
      let gs = gammas_of p ss es t in
      let zeros : List (List ℕ) = replicate n (replicate gamma_len 0) in
      let cover : n ≤ length ss = omega (arith, one_more) in
      let lt : n * routing_slot_len + length t ≡ beta_len =
        omega (arith, lf, room, length-drop (n * routing_slot_len) fill) in
      let mf = filler-Macs es fill (omega (arith, lf, room)) in
      let mg = gammas_of-Macs p ss es t one_more in
      let lz : length zeros ≡ n = length-replicate {A = List ℕ} n (replicate gamma_len 0) in
      let none_yet : drop n zeros ≡ drop n gs =
        drop_all n zeros (omega (arith, lz))
        ∙ sym (drop_all n gs (omega (arith, length-Macs es gs mg))) in
      let (gs', m', looped) =
        gamma_loop_lem ss es t one_more v lt n (filler es fill) zeros (omega arith) mf lz
          none_yet in
      let start : write_routing 0 es fill ≡ plain es (filler es fill) t =
        write_routing_lem es 0 [] fill refl v (omega (arith, lf, room)) in
      let last : List (List ℕ) × List ℕ → List ℕ =
        λ r. encrypt_slots p 0 (take n ss) (embed_gammas n 0 r.0 r.1) in
      let loop = gamma_loop p n n ss zeros in
      ap (λ b. last (loop (decrypt_slots p 0 (take n ss) (encrypt_slots p 0 (take n ss) b)))) start
      ∙ ap (λ b. last (loop (decrypt_slots p 0 (take n ss) b)))
          (encrypt_slots_lem p ss es (filler es fill) t cover v mf)
      ∙ ap (λ b. last (loop b)) (decrypt_slots_lem p ss es (filler es fill) t cover v mf)
      ∙ ap last looped
      ∙ ap (encrypt_slots p 0 (take n ss))
          (embed_gammas_lem 0 n es gs gs gs' t (omega arith) v m' mg refl)
      ∙ encrypt_slots_lem p ss es gs t cover v mg
