-- ===== src/Common/Slices.antt =====
-- Fixed-size byte buffers as lists: `buf[off..off+n]` and `buf[off..].copy_from_slice(src)`.
use mathlib.Core.List.{append_assoc, append-nil}
use anonymous.Common.Lists.{
  length, take, drop, get_or, replicate, length-take, length-drop, length-append, take_of_append,
  drop_of_append, drop-drop, take-append-drop, take_all,
}
use Prim.Native.Nat.{ℕ, zero, suc, ◌+◌, ◌-◌, ◌≤◌}
use mathlib.Core.Path.{◌≡◌, refl, sym, ap, ◌∙◌}
use mathlib.Core.List.{List, [], ◌∷◌, ◌++◌}
use native.Mathlib.Omega.{arith}

module _ {ℓ} {A : Type ℓ} where
  -- `buf[off..off + n]`.
  unfoldable pub slice : List A → ℕ → ℕ → List A
  slice buf off n = take n (drop off buf)

  -- `buf[off..off + src.len()].copy_from_slice(src)`.
  unfoldable pub splice : List A → ℕ → List A → List A
  splice buf off src = take off buf ++ (src ++ drop (off + length src) buf)

  pub length-splice :
      (buf : List A) (off : ℕ) (src : List A)
      → off + length src ≤ length buf
      → length (splice buf off src) ≡ length buf
  unfolding splice
  length-splice buf off src h = omega (
    arith,
    length-append (take off buf) (src ++ drop (off + length src) buf),
    length-append src (drop (off + length src) buf),
    length-take off buf,
    length-drop (off + length src) buf,
  )

  pub length-slice :
      (buf : List A) (off n : ℕ) → off + n ≤ length buf → length (slice buf off n) ≡ n
  unfolding slice
  length-slice buf off n h = omega (arith, length-take n (drop off buf), length-drop off buf)

  drop-append_le : (n : ℕ) (xs ys : List A) → n ≤ length xs → drop n (xs ++ ys) ≡ drop n xs ++ ys
  drop-append_le zero xs ys h = refl
  drop-append_le (suc n) [] ys h = absurd (omega arith)
  drop-append_le (suc n) (x ∷ xs) ys h = drop-append_le n xs ys (omega arith)

  drop-append_ge : (n m : ℕ) (xs ys : List A) → n ≡ length xs + m → drop n (xs ++ ys) ≡ drop m ys
  drop-append_ge n m [] ys h = let e : n ≡ m = omega arith in ap (λ i. drop i ys) e
  drop-append_ge zero m (x ∷ xs) ys h = absurd (omega arith)
  drop-append_ge (suc n) m (x ∷ xs) ys h = drop-append_ge n m xs ys (omega arith)

  take-append_le : (n : ℕ) (xs ys : List A) → n ≤ length xs → take n (xs ++ ys) ≡ take n xs
  take-append_le zero xs ys h = refl
  take-append_le (suc n) [] ys h = absurd (omega arith)
  take-append_le (suc n) (x ∷ xs) ys h = ap (◌∷◌ x) (take-append_le n xs ys (omega arith))

  drop-take : (n m k : ℕ) (xs : List A) → n + k ≡ m → drop n (take m xs) ≡ take k (drop n xs)
  drop-take zero m k xs h = let e : m ≡ k = omega arith in ap (λ i. take i xs) e
  drop-take (suc n) zero k xs h = absurd (omega arith)
  drop-take (suc n) (suc m) zero [] h = refl
  drop-take (suc n) (suc m) (suc k) [] h = refl
  drop-take (suc n) (suc m) k (x ∷ xs) h = drop-take n m k xs (omega arith)

  take-take : (n m : ℕ) (xs : List A) → n ≤ m → take n (take m xs) ≡ take n xs
  take-take zero m xs h = refl
  take-take (suc n) zero xs h = absurd (omega arith)
  take-take (suc n) (suc m) [] h = refl
  take-take (suc n) (suc m) (x ∷ xs) h = ap (◌∷◌ x) (take-take n m xs (omega arith))

  pub take-add : (n m : ℕ) (xs : List A) → take (n + m) xs ≡ take n xs ++ take m (drop n xs)
  take-add zero m xs = let e : zero + m ≡ m = omega arith in ap (λ i. take i xs) e
  take-add (suc n) zero [] = let e : suc n + zero ≡ suc n = omega arith in ap (λ i. take i []) e
  take-add (suc n) (suc m) [] =
      let e : suc n + suc m ≡ suc (n + suc m) = omega arith in ap (λ i. take i []) e
  take-add (suc n) m (x ∷ xs) =
      let e : suc n + m ≡ suc (n + m) = omega arith in
      ap (λ i. take i (x ∷ xs)) e ∙ ap (◌∷◌ x) (take-add n m xs)

  -- What was written is read back.
  pub slice-splice_same :
      (buf : List A) (off n : ℕ) (src : List A)
      → off ≤ length buf
      → length src ≡ n
      → slice (splice buf off src) off n ≡ src
  unfolding slice splice
  slice-splice_same buf off n src h e =
      ap (take n) (
        drop_of_append off (take off buf) (src ++ drop (off + length src) buf)
          (omega (arith, length-take off buf)))
      ∙ take_of_append n src (drop (off + length src) buf) e

  -- A write behind a range leaves it.
  pub slice-splice_below :
      (buf : List A) (off o n : ℕ) (src : List A)
      → off ≤ length buf
      → o + n ≤ off
      → slice (splice buf off src) o n ≡ slice buf o n
  unfolding slice splice
  slice-splice_below buf off o n src h e =
      ap (take n) (
        drop-append_le o (take off buf) (src ++ drop (off + length src) buf)
          (omega (arith, length-take off buf)))
      ∙ take-append_le n (drop o (take off buf)) (src ++ drop (off + length src) buf)
          (omega (arith, length-take off buf, length-drop o (take off buf)))
      ∙ ap (take n) (drop-take o off (off - o) buf (omega arith))
      ∙ take-take n (off - o) (drop o buf) (omega arith)

  -- Nor does a write before it change it.
  pub slice-splice_above :
      (buf : List A) (off o n : ℕ) (src : List A)
      → off + length src ≤ length buf
      → off + length src ≤ o
      → slice (splice buf off src) o n ≡ slice buf o n
  unfolding slice splice
  slice-splice_above buf off o n src h e = ap (take n) (
      drop-append_ge o (o - off) (take off buf) (src ++ drop (off + length src) buf)
        (omega (arith, length-take off buf))
      ∙ drop-append_ge (o - off) (o - off - length src) src (drop (off + length src) buf)
          (omega arith)
      ∙ drop-drop (off + length src) (o - off - length src) o buf (omega arith))

  -- One byte as a slice.
  pub get_or-slice : (buf : List A) (i : ℕ) (d : A) → get_or buf i d ≡ get_or (slice buf i 1) 0 d
  unfolding slice
  get_or-slice [] zero d = refl
  get_or-slice [] (suc i) d = refl
  get_or-slice (x ∷ xs) zero d = refl
  get_or-slice (x ∷ xs) (suc i) d = get_or-slice xs i d

  drop-replicate : (k m n : ℕ) (a : A) → k + m ≡ n → drop k (replicate n a) ≡ replicate m a
  drop-replicate zero m n a h = let e : n ≡ m = omega arith in ap (λ i. replicate i a) e
  drop-replicate (suc k) m zero a h = absurd (omega arith)
  drop-replicate (suc k) m (suc n) a h = drop-replicate k m n a (omega arith)

  take-replicate : (n m : ℕ) (a : A) → n ≤ m → take n (replicate m a) ≡ replicate n a
  take-replicate zero m a h = refl
  take-replicate (suc n) zero a h = absurd (omega arith)
  take-replicate (suc n) (suc m) a h = ap (◌∷◌ a) (take-replicate n m a (omega arith))

  pub slice-replicate :
      (m off n : ℕ) (a : A) → off + n ≤ m → slice (replicate m a) off n ≡ replicate n a
  unfolding slice
  slice-replicate m off n a h =
      ap (take n) (drop-replicate off (m - off) m a (omega arith))
      ∙ take-replicate n (m - off) a (omega arith)

  -- Writing the next part of a source extends the prefix on which buffer and source agree.
  pub take-splice_next :
      (buf src : List A) (off n k : ℕ)
      → take off buf ≡ take off src
      → off ≤ length buf
      → off + n ≤ length src
      → off + n ≡ k
      → take k (splice buf off (slice src off n)) ≡ take k src
  unfolding splice slice
  take-splice_next buf src off n k agree hb hs e =
      let part = take n (drop off src) in
      let rest = drop (off + length part) buf in
      ap (take k) (sym (append_assoc (take off buf) part rest))
      ∙ take_of_append k (take off buf ++ part) rest (
          omega (
            arith,
            length-append (take off buf) part,
            length-take off buf,
            length-take n (drop off src),
            length-drop off src,
          ))
      ∙ ap (λ l. l ++ part) agree
      ∙ sym (take-add off n src)
      ∙ ap (λ i. take i src) e

  pub take-slice : (buf : List A) (off n m : ℕ) → n ≤ m → take n (slice buf off m) ≡ slice buf off n
  unfolding slice
  take-slice buf off n m h = take-take n m (drop off buf) h

  pub slice-slice :
      (buf : List A) (o m o' n k : ℕ)
      → o' + n ≤ m
      → o + o' ≡ k
      → slice (slice buf o m) o' n ≡ slice buf k n
  unfolding slice
  slice-slice buf o m o' n k h e =
      ap (take n) (drop-take o' m (m - o') (drop o buf) (omega arith))
      ∙ take-take n (m - o') (drop o' (drop o buf)) (omega arith)
      ∙ ap (take n) (drop-drop o o' k buf e)

  -- Writing what already stands there changes nothing.
  pub splice_noop :
      (buf : List A) (off n : ℕ) (src : List A)
      → slice buf off n ≡ src
      → off + n ≤ length buf
      → splice buf off src ≡ buf
  unfolding slice splice
  splice_noop buf off n src e h =
      let m : length src ≡ n =
        ap length (sym e) ∙ omega (arith, length-take n (drop off buf), length-drop off buf) in
      ap (λ l. take off buf ++ (src ++ drop (off + l) buf)) m
      ∙ ap (λ l. take off buf ++ (src ++ l)) (sym (drop-drop off n (off + n) buf refl))
      ∙ ap (λ l. take off buf ++ (l ++ drop n (drop off buf))) (sym e)
      ∙ ap (λ l. take off buf ++ l) (take-append-drop n (drop off buf))
      ∙ take-append-drop off buf

  -- A write before `n` is not seen behind `n`.
  pub drop-splice_below :
      (buf : List A) (off n : ℕ) (src : List A)
      → off + length src ≤ length buf
      → off + length src ≤ n
      → drop n (splice buf off src) ≡ drop n buf
  unfolding splice
  drop-splice_below buf off n src h e =
      drop-append_ge n (n - off) (take off buf) (src ++ drop (off + length src) buf)
        (omega (arith, length-take off buf))
      ∙ drop-append_ge (n - off) (n - off - length src) src (drop (off + length src) buf)
          (omega arith)
      ∙ drop-drop (off + length src) (n - off - length src) n buf (omega arith)

  pub slice_all : (buf : List A) (n : ℕ) → length buf ≡ n → slice buf 0 n ≡ buf
  unfolding slice
  slice_all buf n e = take_all n buf (omega (arith, e))

  -- Ranges that lie in the second or in the first of two joined buffers.
  pub slice-append_right :
      (xs ys : List A) (k o n : ℕ) → k ≡ length xs + o → slice (xs ++ ys) k n ≡ slice ys o n
  unfolding slice
  slice-append_right xs ys k o n h = ap (take n) (drop-append_ge k o xs ys h)

  pub slice-append_left :
      (xs ys : List A) (o n : ℕ) → o + n ≤ length xs → slice (xs ++ ys) o n ≡ slice xs o n
  unfolding slice
  slice-append_left xs ys o n h =
      ap (take n) (drop-append_le o xs ys (omega arith))
      ∙ take-append_le n (drop o xs) ys (omega (arith, length-drop o xs))

  take-append_ge :
      (n m : ℕ) (xs ys : List A) → n ≡ length xs + m → take n (xs ++ ys) ≡ xs ++ take m ys
  take-append_ge n m [] ys h = let e : n ≡ m = omega arith in ap (λ i. take i ys) e
  take-append_ge zero m (x ∷ xs) ys h = absurd (omega arith)
  take-append_ge (suc n) m (x ∷ xs) ys h = ap (◌∷◌ x) (take-append_ge n m xs ys (omega arith))

  pub splice-append_right :
      (xs ys : List A) (k o : ℕ) (src : List A)
      → k ≡ length xs + o
      → splice (xs ++ ys) k src ≡ xs ++ splice ys o src
  unfolding splice
  splice-append_right xs ys k o src h =
      ap (λ l. l ++ (src ++ drop (k + length src) (xs ++ ys))) (take-append_ge k o xs ys h)
      ∙ ap (λ l. (xs ++ take o ys) ++ (src ++ l))
          (drop-append_ge (k + length src) (o + length src) xs ys (omega arith))
      ∙ append_assoc xs (take o ys) (src ++ drop (o + length src) ys)

  pub splice-append_left :
      (xs ys : List A) (o : ℕ) (src : List A)
      → o + length src ≤ length xs
      → splice (xs ++ ys) o src ≡ splice xs o src ++ ys
  unfolding splice
  splice-append_left xs ys o src h =
      ap (λ l. l ++ (src ++ drop (o + length src) (xs ++ ys)))
        (take-append_le o xs ys (omega arith))
      ∙ ap (λ l. take o xs ++ (src ++ l)) (drop-append_le (o + length src) xs ys h)
      ∙ ap (λ l. take o xs ++ l) (sym (append_assoc src (drop (o + length src) xs) ys))
      ∙ sym (append_assoc (take o xs) (src ++ drop (o + length src) xs) ys)

  pub drop_all : (n : ℕ) (xs : List A) → length xs ≤ n → drop n xs ≡ []
  drop_all zero [] h = refl
  drop_all zero (x ∷ xs) h = absurd (omega arith)
  drop_all (suc n) [] h = refl
  drop_all (suc n) (x ∷ xs) h = drop_all n xs (omega arith)

  -- Two writes that fill the buffer leave nothing of it.
  pub splice_pair :
      (buf : List A) (n : ℕ) (xs ys : List A)
      → length xs ≡ n
      → n + length ys ≡ length buf
      → splice (splice buf 0 xs) n ys ≡ xs ++ ys
  unfolding splice
  splice_pair buf n xs ys e h =
      let first = xs ++ drop (0 + length xs) buf in
      ap (λ l. l ++ (ys ++ drop (n + length ys) first))
        (take_of_append n xs (drop (0 + length xs) buf) e)
      ∙ ap (λ l. xs ++ (ys ++ l))
          (drop_all (n + length ys) first (
            omega (
              arith,
              length-append xs (drop (0 + length xs) buf),
              length-drop (0 + length xs) buf,
            )))
      ∙ ap (λ l. xs ++ l) (append-nil ys)

  pub splice_whole : (buf src : List A) → length src ≡ length buf → splice buf 0 src ≡ src
  unfolding splice
  splice_whole buf src e =
      ap (λ l. src ++ l) (drop_all (0 + length src) buf (omega (arith, e))) ∙ append-nil src

  pub splice_front :
      (buf src : List A) (n : ℕ) → length src ≡ n → splice buf 0 src ≡ src ++ drop n buf
  unfolding splice
  splice_front buf src n e =
      let same : 0 + length src ≡ n = omega (arith, e) in ap (λ i. src ++ drop i buf) same

  -- A write right behind a prefix.
  pub splice_next :
      (xs buf src : List A) (k n : ℕ)
      → length xs ≡ k
      → length src ≡ n
      → splice (xs ++ buf) k src ≡ xs ++ (src ++ drop n buf)
  splice_next xs buf src k n ex es =
      splice-append_right xs buf k 0 src (omega (arith, ex))
      ∙ ap (λ l. xs ++ l) (splice_front buf src n es)
