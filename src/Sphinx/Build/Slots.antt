-- ===== src/Sphinx/Build/Slots.antt =====
-- `beta` during the build as a row of routing slots: what each pass makes of it.
use anonymous.Common.Slices.{
  slice, splice, length-slice, splice_front, splice_next, splice-append_right,
}
use mathlib.Core.List.{append_assoc}
use anonymous.Common.{
  ℕ, ◌+◌, ◌*◌, ◌≤◌, ◌≡◌, refl, sym, ap, ◌∙◌, List, [], ◌∷◌, ◌++◌, arith, length, take, drop,
  length-append, length-drop, drop-drop, take-append-drop,
}
use anonymous.Kem.{kem_header_len, write_to}
use anonymous.Sphinx.{routing_slot_len, gamma_len}
use anonymous.Sphinx.Regions.{header_bytes}
use anonymous.Sphinx.Build.{Routing, write_routing}

pub record IsSizedEntry (e : Routing) : Type 0 where
  pub id_sized : length e.id ≡ 32
  pub point_sized : length e.header.x25519_point ≡ 32
  pub ct_sized : length e.header.mlkem_ct ≡ 1088

abbrev pub AllSized : List Routing → Type 0
AllSized [] = Unit {0}
AllSized (e ∷ es) = IsSizedEntry e × AllSized es

-- As many MACs of 32 bytes as there are entries.
abbrev pub Macs : List Routing → List (List ℕ) → Type 0
Macs [] [] = Unit {0}
Macs [] (g ∷ gs) = ⊥
Macs (e ∷ es) [] = ⊥
Macs (e ∷ es) (g ∷ gs) = (length g ≡ gamma_len) × Macs es gs

unfoldable pub slot : Routing → List ℕ → List ℕ
slot e g = e.id ++ (header_bytes e.header ++ g)

pub length-slot :
    (e : Routing) (g : List ℕ)
    → IsSizedEntry e
    → length g ≡ gamma_len
    → length (slot e g) ≡ routing_slot_len
unfolding slot
length-slot e g v h = omega (
  arith,
  length-append e.id (header_bytes e.header ++ g),
  length-append (header_bytes e.header) g,
  length-append e.header.x25519_point e.header.mlkem_ct,
  v.id_sized,
  v.point_sized,
  v.ct_sized,
)

abbrev pub plain : List Routing → List (List ℕ) → List ℕ → List ℕ
plain (e ∷ es) (g ∷ gs) t = slot e g ++ plain es gs t
plain _ _ t = t

-- The bytes that stand in the places of the MACs before any is known.
abbrev pub filler : List Routing → List ℕ → List (List ℕ)
filler [] b = []
filler (e ∷ es) b = slice b (32 + kem_header_len) gamma_len ∷ filler es (drop routing_slot_len b)

-- One entry written at the front of a buffer.
write_entry :
    (e : Routing) (b : List ℕ)
    → IsSizedEntry e
    → write_to e.header (splice b 0 e.id) 32
      ≡ slot e (slice b (32 + kem_header_len) gamma_len) ++ drop routing_slot_len b
unfolding write_to slot slice
write_entry e b v =
    let pt = e.header.x25519_point in
    let ct = e.header.mlkem_ct in
    let d3 = drop (32 + kem_header_len) b in
    let mac = take gamma_len d3 in
    let rest = drop routing_slot_len b in
    let tail : d3 ≡ mac ++ rest =
      sym (take-append-drop gamma_len d3)
      ∙ ap (λ l. mac ++ l) (drop-drop (32 + kem_header_len) gamma_len routing_slot_len b refl) in
    ap (λ l. splice (splice l 32 pt) 64 ct) (splice_front b e.id 32 v.id_sized)
    ∙ ap (λ l. splice l 64 ct)
        (splice_next e.id (drop 32 b) pt 32 32 v.id_sized v.point_sized
          ∙ sym (append_assoc e.id pt (drop 32 (drop 32 b)))
          ∙ ap (λ l. (e.id ++ pt) ++ l) (drop-drop 32 32 64 b refl))
    ∙ splice_next (e.id ++ pt) (drop 64 b) ct 64 1088
        (omega (arith, length-append e.id pt, v.id_sized, v.point_sized)) v.ct_sized
    ∙ ap (λ l. (e.id ++ pt) ++ (ct ++ l)) (drop-drop 64 1088 (32 + kem_header_len) b refl ∙ tail)
    ∙ append_assoc e.id pt (ct ++ (mac ++ rest))
    ∙ ap (λ l. e.id ++ l)
        (sym (append_assoc pt ct (mac ++ rest)) ∙ sym (append_assoc (pt ++ ct) mac rest))
    ∙ sym (append_assoc e.id ((pt ++ ct) ++ mac) rest)

-- Behind `i` slots, written or not.
write_entry_at :
    (e : Routing) (pre b : List ℕ) (off : ℕ)
    → length pre ≡ off
    → write_to e.header (splice (pre ++ b) off e.id) (off + 32)
      ≡ pre ++ write_to e.header (splice b 0 e.id) 32
unfolding write_to
write_entry_at e pre b off h =
    let pt = e.header.x25519_point in
    let ct = e.header.mlkem_ct in
    let first = splice b 0 e.id in
    ap (λ l. splice (splice l (off + 32) pt) (off + 32 + 32) ct)
      (splice-append_right pre b off 0 e.id (omega (arith, h)))
    ∙ ap (λ l. splice l (off + 32 + 32) ct)
        (splice-append_right pre first (off + 32) 32 pt (omega (arith, h)))
    ∙ splice-append_right pre (splice first 32 pt) (off + 32 + 32) 64 ct (omega (arith, h))

-- Pass 1 lays the entries out as slots; the random bytes behind them stay.
pub write_routing_lem :
    (es : List Routing) (i : ℕ) (pre b : List ℕ)
    → length pre ≡ i * routing_slot_len
    → AllSized es
    → length es * routing_slot_len ≤ length b
    → write_routing i es (pre ++ b)
      ≡ pre ++ plain es (filler es b) (drop (length es * routing_slot_len) b)
unfolding write_routing
write_routing_lem [] i pre b h v room = refl
write_routing_lem (e ∷ es) i pre b h (ve, v) room =
    let front = slot e (slice b (32 + kem_header_len) gamma_len) in
    let rest = drop routing_slot_len b in
    let lf =
      length-slot e (slice b (32 + kem_header_len) gamma_len) ve
        (length-slice b (32 + kem_header_len) gamma_len (omega (arith, room))) in
    let next : length (pre ++ front) ≡ (i + 1) * routing_slot_len =
      omega (arith, h, length-append pre front, lf) in
    let left : length es * routing_slot_len ≤ length rest =
      omega (arith, room, length-drop routing_slot_len b) in
    ap (write_routing (i + 1) es) (
      write_entry_at e pre b (i * routing_slot_len) h
      ∙ ap (λ l. pre ++ l) (write_entry e b ve)
      ∙ sym (append_assoc pre front rest))
    ∙ write_routing_lem es (i + 1) (pre ++ front) rest next v left
    ∙ append_assoc pre front (plain es (filler es rest) (drop (length es * routing_slot_len) rest))
    ∙ ap (λ l. pre ++ (front ++ plain es (filler es rest) l))
        (drop-drop routing_slot_len (length es * routing_slot_len)
          (length (e ∷ es) * routing_slot_len) b (omega arith))
