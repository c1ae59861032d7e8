-- ===== src/Sphinx/Build/Embed.antt =====
-- The MACs written into their slots, from a given slot on.
use anonymous.Common.Slices.{splice, splice-append_right, splice-append_left, splice_whole}
use mathlib.Core.List.{append_assoc}
use anonymous.Common.{
  ℕ, zero, suc, ◌+◌, ◌*◌, ◌≡◌, refl, sym, ap, ◌∙◌, List, [], ◌∷◌, ◌++◌, arith, length, get_or, drop,
  length-append,
}
use anonymous.Kem.{kem_header_len}
use anonymous.Sphinx.{routing_slot_len, gamma_len}
use anonymous.Sphinx.Regions.{header_bytes}
use anonymous.Sphinx.Build.{Routing, embed_gammas}
use anonymous.Sphinx.Build.Slots.{IsSizedEntry, AllSized, Macs, slot, length-slot, plain}

embed_one :
    (e : Routing) (pre g new rest : List ℕ) (off : ℕ)
    → IsSizedEntry e
    → length g ≡ gamma_len
    → length new ≡ gamma_len
    → length pre ≡ off
    → splice (pre ++ (slot e g ++ rest)) (off + 32 + kem_header_len) new
      ≡ pre ++ (slot e new ++ rest)
unfolding slot
embed_one e pre g new rest off v hg hn h =
    let hd = header_bytes e.header in
    let lh : length hd ≡ kem_header_len =
      omega
        (arith, length-append e.header.x25519_point e.header.mlkem_ct, v.point_sized, v.ct_sized) in
    splice-append_right pre ((e.id ++ (hd ++ g)) ++ rest) (off + 32 + kem_header_len)
      (32 + kem_header_len) new (omega (arith, h))
    ∙ ap (λ l. pre ++ l)
        (splice-append_left (e.id ++ (hd ++ g)) rest (32 + kem_header_len) new (
            omega (arith, length-append e.id (hd ++ g), length-append hd g, lh, hg, hn, v.id_sized))
          ∙ ap (λ l. l ++ rest)
              (splice-append_right e.id (hd ++ g) (32 + kem_header_len) kem_header_len new
                  (omega (arith, v.id_sized))
                ∙ ap (λ l. e.id ++ l)
                    (splice-append_right hd g kem_header_len 0 new (omega (arith, lh))
                      ∙ ap (λ l. hd ++ l) (splice_whole g new (omega (arith, hg, hn))))))

head_of_drop :
    (gammas : List (List ℕ)) (j : ℕ) (g : List ℕ) (rest : List (List ℕ))
    → drop j gammas ≡ g ∷ rest
    → (get_or gammas j [] ≡ g) × (drop (j + 1) gammas ≡ rest)
head_of_drop [] zero g rest h = absurd (ground (arith, h))
head_of_drop [] (suc j) g rest h = absurd (ground (arith, h))
head_of_drop (x ∷ xs) zero g rest h = ground (arith, h)
head_of_drop (x ∷ xs) (suc j) g rest h =
    let (hd, tl) = head_of_drop xs j g rest h in
    let e : suc j + 1 ≡ suc (j + 1) = omega arith in (hd, ap (λ i. drop i (x ∷ xs)) e ∙ tl)

embed_from :
    (es : List Routing) (n j : ℕ) (gammas news gs : List (List ℕ)) (pre t : List ℕ)
    → length pre ≡ j * routing_slot_len
    → n ≡ length es
    → AllSized es
    → Macs es gs
    → Macs es news
    → drop j gammas ≡ news
    → embed_gammas n j gammas (pre ++ plain es gs t) ≡ pre ++ plain es news t
unfolding embed_gammas
embed_from [] zero j gammas news gs pre t h c v mg mn d = refl
embed_from [] (suc n) j gammas news gs pre t h c v mg mn d = absurd (omega arith)
embed_from (e ∷ es) zero j gammas news gs pre t h c v mg mn d = absurd (omega arith)
embed_from (e ∷ es) (suc n) j gammas [] gs pre t h c v mg mn d = absurd mn
embed_from (e ∷ es) (suc n) j gammas (new ∷ news) [] pre t h c v mg mn d = absurd mg
embed_from (e ∷ es) (suc n) j gammas (new ∷ news) (g ∷ gs) pre t h c (ve, v) (lg, mg) (ln, mn) d =
    let (hd, tl) = head_of_drop gammas j new news d in
    let off = j * routing_slot_len in
    let next : length (pre ++ slot e new) ≡ (j + 1) * routing_slot_len =
      omega (arith, h, length-append pre (slot e new), length-slot e new ve ln) in
    ap
      (λ l.
        embed_gammas n (j + 1) gammas
          (splice (pre ++ (slot e g ++ plain es gs t)) (off + 32 + kem_header_len) l))
      hd
    ∙ ap (embed_gammas n (j + 1) gammas) (
        embed_one e pre g new (plain es gs t) off ve lg ln h
        ∙ sym (append_assoc pre (slot e new) (plain es gs t)))
    ∙ embed_from es n (j + 1) gammas news gs (pre ++ slot e new) t next (omega arith) v mg mn tl
    ∙ append_assoc pre (slot e new) (plain es news t)

-- The MACs of the slots, those from `k` on replaced by those of `full`.
abbrev pub renewed : ℕ → List (List ℕ) → List (List ℕ) → List (List ℕ)
renewed (suc k) (g ∷ gs) (f ∷ full) = g ∷ renewed k gs full
renewed _ _ full = full

pub renewed-Macs :
    (k : ℕ) (es : List Routing) (gs full : List (List ℕ))
    → Macs es gs
    → Macs es full
    → Macs es (renewed k gs full)
renewed-Macs zero es gs full m n = n
renewed-Macs (suc k) es [] full m n = n
renewed-Macs (suc k) es (g ∷ gs) [] m n = n
renewed-Macs (suc k) [] (g ∷ gs) (f ∷ full) m n = absurd m
renewed-Macs (suc k) (e ∷ es) (g ∷ gs) (f ∷ full) (lg, m) (lf, n) =
    (lg, renewed-Macs k es gs full m n)

pub drop-renewed :
    (k : ℕ) (es : List Routing) (gs full : List (List ℕ))
    → Macs es gs
    → Macs es full
    → drop k (renewed k gs full) ≡ drop k full
drop-renewed zero es gs full m n = refl
drop-renewed (suc k) es [] full m n = refl
drop-renewed (suc k) es (g ∷ gs) [] m n = refl
drop-renewed (suc k) [] (g ∷ gs) (f ∷ full) m n = absurd m
drop-renewed (suc k) (e ∷ es) (g ∷ gs) (f ∷ full) (lg, m) (lf, n) = drop-renewed k es gs full m n

embed_past :
    (k : ℕ) (es : List Routing) (n i j : ℕ) (gammas full gs : List (List ℕ)) (pre t : List ℕ)
    → length pre ≡ i * routing_slot_len
    → n + k ≡ length es
    → i + k ≡ j
    → AllSized es
    → Macs es gs
    → Macs es full
    → drop j gammas ≡ drop k full
    → embed_gammas n j gammas (pre ++ plain es gs t) ≡ pre ++ plain es (renewed k gs full) t
embed_past zero es n i j gammas full gs pre t h c e v mg mf d =
    let same : i ≡ j = omega arith in
    embed_from es n j gammas full gs pre t (omega (arith, h, same)) (omega (arith, c)) v mg mf d
embed_past (suc k) [] n i j gammas full gs pre t h c e v mg mf d = absurd (omega arith)
embed_past (suc k) (e' ∷ es) n i j gammas full [] pre t h c e v mg mf d = absurd mg
embed_past (suc k) (e' ∷ es) n i j gammas [] (g ∷ gs) pre t h c e v mg mf d = absurd mf
embed_past (suc k) (e' ∷ es) n i j gammas (f ∷ full) (g ∷ gs) pre t h c e (ve, v) (lg, mg) (lf, mf)
      d =
    let next : length (pre ++ slot e' g) ≡ (i + 1) * routing_slot_len =
      omega (arith, h, length-append pre (slot e' g), length-slot e' g ve lg) in
    ap (embed_gammas n j gammas) (sym (append_assoc pre (slot e' g) (plain es gs t)))
    ∙ embed_past k es n (i + 1) j gammas full gs (pre ++ slot e' g) t next (omega arith)
        (omega arith) v mg mf d
    ∙ append_assoc pre (slot e' g) (plain es (renewed k gs full) t)

-- Slots up to `k` keep their MACs; the others get those of `full`.
pub embed_gammas_lem :
    (k n : ℕ) (es : List Routing) (gammas full gs : List (List ℕ)) (t : List ℕ)
    → n + k ≡ length es
    → AllSized es
    → Macs es gs
    → Macs es full
    → drop k gammas ≡ drop k full
    → embed_gammas n k gammas (plain es gs t) ≡ plain es (renewed k gs full) t
embed_gammas_lem k n es gammas full gs t c v mg mf d =
    embed_past k es n 0 k gammas full gs [] t refl c (omega arith) v mg mf d
