-- ===== src/Sphinx/Build/Masked.antt =====
-- The slots under their streams: `encrypt_slots` masks each slot, `decrypt_slots` unmasks it.
use anonymous.Common.Xor.{
  xor_at, length-xor_at, xor_at_twice, xor_at-append_right, xor_at-append_left,
}
use mathlib.Core.List.{append_assoc}
use anonymous.Common.{
  ℕ, ◌+◌, ◌-◌, ◌*◌, ◌≤◌, ◌≡◌, refl, sym, ap, ◌∙◌, List, [], ◌∷◌, ◌++◌, arith, length, take,
  length-append,
}
use anonymous.Kem.{Primitives, SharedSecret}
use anonymous.Sphinx.{routing_slot_len, stream_beta, stream_xor_range}
use anonymous.Sphinx.Stream.{stream_xor_range_lem}
use anonymous.Sphinx.Peel.{slot_key, length-slot_key}
use anonymous.Sphinx.Build.{Routing, encrypt_slots, decrypt_slots}
use anonymous.Sphinx.Build.Slots.{AllSized, Macs, slot, length-slot, plain}

module _ (p : Primitives) where
  -- Every slot under the stream of its hop.
  abbrev pub masked : List SharedSecret → List Routing → List (List ℕ) → List ℕ → List ℕ
  masked (s ∷ ss) (e ∷ es) (g ∷ gs) t = xor_at 0 (slot_key p s) (slot e g) ++ masked ss es gs t
  masked _ _ _ t = t

  pub length-masked :
      (ss : List SharedSecret) (es : List Routing) (gs : List (List ℕ)) (t : List ℕ)
      → length es ≤ length ss
      → AllSized es
      → Macs es gs
      → length (masked ss es gs t) ≡ length es * routing_slot_len + length t
  length-masked [] [] gs t h v m = omega arith
  length-masked (s ∷ ss) [] gs t h v m = omega arith
  length-masked [] (e ∷ es) gs t h v m = absurd (omega arith)
  length-masked (s ∷ ss) (e ∷ es) [] t h v m = absurd m
  length-masked (s ∷ ss) (e ∷ es) (g ∷ gs) t h (ve, v) (lg, m) = omega (
    arith,
    length-append (xor_at 0 (slot_key p s) (slot e g)) (masked ss es gs t),
    length-xor_at 0 (slot_key p s) (slot e g),
    length-slot e g ve lg,
    length-masked ss es gs t (omega arith) v m,
  )

  -- What stands behind the slots is not touched.
  pub masked-append :
      (ss : List SharedSecret) (es : List Routing) (gs : List (List ℕ)) (t u : List ℕ)
      → masked ss es gs t ++ u ≡ masked ss es gs (t ++ u)
  masked-append [] es gs t u = refl
  masked-append (s ∷ ss) [] gs t u = refl
  masked-append (s ∷ ss) (e ∷ es) [] t u = refl
  masked-append (s ∷ ss) (e ∷ es) (g ∷ gs) t u =
      append_assoc (xor_at 0 (slot_key p s) (slot e g)) (masked ss es gs t) u
      ∙ ap (λ l. xor_at 0 (slot_key p s) (slot e g) ++ l) (masked-append ss es gs t u)

  mask_range :
      (s : SharedSecret) (pre x rest : List ℕ) (off : ℕ)
      → length pre ≡ off
      → length x ≡ routing_slot_len
      → stream_xor_range p (pre ++ (x ++ rest)) off (off + routing_slot_len) s stream_beta
        ≡ (pre ++ xor_at 0 (slot_key p s) x) ++ rest
  unfolding slot_key
  mask_range s pre x rest off h e =
      let width : off + routing_slot_len - off ≡ routing_slot_len = omega arith in
      let key = slot_key p s in
      stream_xor_range_lem p stream_beta s (pre ++ (x ++ rest)) off (off + routing_slot_len)
      ∙ ap
          (λ n.
            xor_at off (anonymous.Sphinx.Stream.key_stream p stream_beta s n) (pre ++ (x ++ rest)))
          width
      ∙ xor_at-append_right pre (x ++ rest) off 0 key (omega (arith, h))
      ∙ ap (λ l. pre ++ l) (xor_at-append_left x rest 0 key (omega (arith, e, length-slot_key p s)))
      ∙ sym (append_assoc pre (xor_at 0 key x) rest)

  encrypt_from :
      (ss : List SharedSecret) (es : List Routing) (gs : List (List ℕ)) (i : ℕ) (pre t : List ℕ)
      → length pre ≡ i * routing_slot_len
      → length es ≤ length ss
      → AllSized es
      → Macs es gs
      → encrypt_slots p i (take (length es) ss) (pre ++ plain es gs t) ≡ pre ++ masked ss es gs t
  unfolding encrypt_slots
  encrypt_from [] [] gs i pre t h c v m = refl
  encrypt_from (s ∷ ss) [] gs i pre t h c v m = refl
  encrypt_from [] (e ∷ es) gs i pre t h c v m = absurd (omega arith)
  encrypt_from (s ∷ ss) (e ∷ es) [] i pre t h c v m = absurd m
  encrypt_from (s ∷ ss) (e ∷ es) (g ∷ gs) i pre t h c (ve, v) (lg, m) =
      let x = xor_at 0 (slot_key p s) (slot e g) in
      let next : length (pre ++ x) ≡ (i + 1) * routing_slot_len = omega (
        arith,
        h,
        length-append pre x,
        length-xor_at 0 (slot_key p s) (slot e g),
        length-slot e g ve lg,
      ) in
      ap (encrypt_slots p (i + 1) (take (length es) ss)) (
        mask_range s pre (slot e g) (plain es gs t) (i * routing_slot_len) h
          (length-slot e g ve lg))
      ∙ encrypt_from ss es gs (i + 1) (pre ++ x) t next (omega arith) v m
      ∙ append_assoc pre x (masked ss es gs t)

  decrypt_from :
      (ss : List SharedSecret) (es : List Routing) (gs : List (List ℕ)) (i : ℕ) (pre t : List ℕ)
      → length pre ≡ i * routing_slot_len
      → length es ≤ length ss
      → AllSized es
      → Macs es gs
      → decrypt_slots p i (take (length es) ss) (pre ++ masked ss es gs t) ≡ pre ++ plain es gs t
  unfolding decrypt_slots
  decrypt_from [] [] gs i pre t h c v m = refl
  decrypt_from (s ∷ ss) [] gs i pre t h c v m = refl
  decrypt_from [] (e ∷ es) gs i pre t h c v m = absurd (omega arith)
  decrypt_from (s ∷ ss) (e ∷ es) [] i pre t h c v m = absurd m
  decrypt_from (s ∷ ss) (e ∷ es) (g ∷ gs) i pre t h c (ve, v) (lg, m) =
      let x = xor_at 0 (slot_key p s) (slot e g) in
      let ls = length-slot e g ve lg in
      let lx : length x ≡ routing_slot_len =
        omega (arith, length-xor_at 0 (slot_key p s) (slot e g), ls) in
      let next : length (pre ++ slot e g) ≡ (i + 1) * routing_slot_len =
        omega (arith, h, length-append pre (slot e g), ls) in
      ap (decrypt_slots p (i + 1) (take (length es) ss)) (
        mask_range s pre x (masked ss es gs t) (i * routing_slot_len) h lx
        ∙ ap (λ l. (pre ++ l) ++ masked ss es gs t) (xor_at_twice 0 (slot_key p s) (slot e g)))
      ∙ decrypt_from ss es gs (i + 1) (pre ++ slot e g) t next (omega arith) v m
      ∙ append_assoc pre (slot e g) (plain es gs t)

  module _ (ss : List SharedSecret) (es : List Routing) (gs : List (List ℕ)) (t : List ℕ)
      (enough : length es ≤ length ss) (v : AllSized es) (m : Macs es gs) where
    pub encrypt_slots_lem :
        encrypt_slots p 0 (take (length es) ss) (plain es gs t) ≡ masked ss es gs t
    encrypt_slots_lem = encrypt_from ss es gs 0 [] t refl enough v m

    pub decrypt_slots_lem :
        decrypt_slots p 0 (take (length es) ss) (masked ss es gs t) ≡ plain es gs t
    decrypt_slots_lem = decrypt_from ss es gs 0 [] t refl enough v m
