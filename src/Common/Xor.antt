-- ===== src/Common/Xor.antt =====
-- Exclusive or on numbers of any width, from the recursion on binary digits that it stands for,
-- and on byte strings.
use Prim.Native.Nat.{
  ℕ, zero, suc, ◌+◌, ◌*◌, ◌/◌, ◌%◌, ◌≤◌, ◌<◌, digits, differ, bit_xor, bit_xor-bitwise,
}
use mathlib.Core.Path.{◌≡◌, refl, ap, ◌∙◌}
use mathlib.Core.List.{List, [], ◌∷◌, ◌++◌}
use native.Mathlib.Omega.{arith}
use anonymous.Common.Lists.{length, drop}

abbrev xor_digits : ℕ → ℕ → ℕ → ℕ
xor_digits n a b = digits (λ y. y) differ n a b

-- The count of digits does not matter once it covers the first number.
xor_digits_count : (n m a b : ℕ) → a ≤ n → a ≤ m → xor_digits n a b ≡ xor_digits m a b
xor_digits_count zero zero a b p q = refl
xor_digits_count zero (suc m) zero b p q = refl
xor_digits_count (suc n) zero zero b p q = refl
xor_digits_count (suc n) (suc m) zero b p q = refl
xor_digits_count (suc n) (suc m) (suc a) b p q =
    let half = xor_digits_count n m (suc a / 2) (b / 2) (omega arith) (omega arith) in
    ap (λ x. x * 2 + differ (suc a % 2) (b % 2)) half
xor_digits_count n m a b p q = absurd (omega arith)

pub bit_xor_zero : (b : ℕ) → bit_xor 0 b ≡ b
bit_xor_zero b = bit_xor-bitwise 0 b

differ_digits : (a b : ℕ) → a < 2 → b < 2 → differ a b ≡ (a + b) % 2
differ_digits zero b p q = omega arith
differ_digits (suc zero) zero p q = refl
differ_digits (suc zero) (suc zero) p q = refl
differ_digits (suc zero) (suc (suc b)) p q = absurd (omega arith)
differ_digits (suc (suc a)) b p q = absurd (omega arith)

-- The lowest digit of the exclusive or, and the rest.
pub bit_xor_step : (a b : ℕ) → bit_xor a b ≡ bit_xor (a / 2) (b / 2) * 2 + (a % 2 + b % 2) % 2
bit_xor_step zero b = omega (arith, bit_xor_zero b, bit_xor_zero (b / 2))
bit_xor_step (suc a) b = omega (
  arith,
  bit_xor-bitwise (suc a) b,
  bit_xor-bitwise (suc a / 2) (b / 2),
  xor_digits_count a (suc a / 2) (suc a / 2) (b / 2) (omega arith) (omega arith),
  differ_digits (suc a % 2) (b % 2) (omega arith) (omega arith),
)

half_parts :
    (a b : ℕ)
    → (bit_xor a b / 2 ≡ bit_xor (a / 2) (b / 2)) × (bit_xor a b % 2 ≡ (a % 2 + b % 2) % 2)
half_parts a b = (omega (arith, bit_xor_step a b), omega (arith, bit_xor_step a b))

-- The order of two masks does not matter.
xor_comm_below : (n a b c : ℕ) → a + b + c ≤ n → bit_xor (bit_xor a b) c ≡ bit_xor (bit_xor a c) b
xor_comm_below zero a b c h =
    let ea : a ≡ 0 = omega arith in
    let eb : b ≡ 0 = omega arith in let ec : c ≡ 0 = omega arith in rw ea (rw eb (rw ec refl))
xor_comm_below (suc n) a b c h = ground (
  arith,
  bit_xor_step (bit_xor a b) c,
  bit_xor_step (bit_xor a c) b,
  half_parts a b,
  half_parts a c,
  xor_comm_below n (a / 2) (b / 2) (c / 2) (omega arith),
)

xor_self_below : (n a b : ℕ) → a + b ≤ n → bit_xor (bit_xor a b) b ≡ a
xor_self_below zero a b h =
    let ea : a ≡ 0 = omega arith in let eb : b ≡ 0 = omega arith in rw ea (rw eb refl)
xor_self_below (suc n) a b h = ground (
  arith,
  bit_xor_step (bit_xor a b) b,
  half_parts a b,
  xor_self_below n (a / 2) (b / 2) (omega arith),
)

pub bit_xor_right_comm : (a b c : ℕ) → bit_xor (bit_xor a b) c ≡ bit_xor (bit_xor a c) b
bit_xor_right_comm a b c = xor_comm_below (a + b + c) a b c (omega arith)

-- A mask applied twice is gone.
pub bit_xor_cancel : (a b : ℕ) → bit_xor (bit_xor a b) b ≡ a
bit_xor_cancel a b = xor_self_below (a + b) a b (omega arith)

-- The bytes from `pos` on, each with its byte of the key stream; the rest stays.
unfoldable pub xor_at : ℕ → List ℕ → List ℕ → List ℕ
xor_at zero [] buf = buf
xor_at zero (k ∷ ks) [] = []
xor_at zero (k ∷ ks) (b ∷ buf) = bit_xor b k ∷ xor_at zero ks buf
xor_at (suc pos) ks [] = []
xor_at (suc pos) ks (b ∷ buf) = b ∷ xor_at pos ks buf

pub xor_at_twice : (pos : ℕ) (ks buf : List ℕ) → xor_at pos ks (xor_at pos ks buf) ≡ buf
unfolding xor_at
xor_at_twice zero [] buf = refl
xor_at_twice zero (k ∷ ks) [] = refl
xor_at_twice zero (k ∷ ks) (b ∷ buf) = ground (arith, bit_xor_cancel b k, xor_at_twice zero ks buf)
xor_at_twice (suc pos) ks [] = refl
xor_at_twice (suc pos) ks (b ∷ buf) = ap (◌∷◌ b) (xor_at_twice pos ks buf)

pub xor_at_comm :
    (pos : ℕ) (ks js buf : List ℕ)
    → xor_at pos ks (xor_at pos js buf) ≡ xor_at pos js (xor_at pos ks buf)
unfolding xor_at
xor_at_comm zero [] js buf = refl
xor_at_comm zero (k ∷ ks) [] buf = refl
xor_at_comm zero (k ∷ ks) (j ∷ js) [] = refl
xor_at_comm zero (k ∷ ks) (j ∷ js) (b ∷ buf) =
    ground (arith, bit_xor_right_comm b j k, xor_at_comm zero ks js buf)
xor_at_comm (suc pos) ks js [] = refl
xor_at_comm (suc pos) ks js (b ∷ buf) = ap (◌∷◌ b) (xor_at_comm pos ks js buf)

pub length-xor_at : (pos : ℕ) (ks buf : List ℕ) → length (xor_at pos ks buf) ≡ length buf
unfolding xor_at
length-xor_at zero [] buf = refl
length-xor_at zero (k ∷ ks) [] = refl
length-xor_at zero (k ∷ ks) (b ∷ buf) = ap suc (length-xor_at zero ks buf)
length-xor_at (suc pos) ks [] = refl
length-xor_at (suc pos) ks (b ∷ buf) = ap suc (length-xor_at pos ks buf)

-- A key stream in two parts.
pub xor_at-append :
    (pos end : ℕ) (ks js buf : List ℕ)
    → pos + length ks ≡ end
    → xor_at end js (xor_at pos ks buf) ≡ xor_at pos (ks ++ js) buf
unfolding xor_at
xor_at-append zero end [] js buf h = let e : end ≡ 0 = omega arith in rw e refl
xor_at-append zero zero (k ∷ ks) js buf h = absurd (omega arith)
xor_at-append zero (suc end) (k ∷ ks) js [] h = refl
xor_at-append zero (suc end) (k ∷ ks) js (b ∷ buf) h =
    ap (◌∷◌ (bit_xor b k)) (xor_at-append zero end ks js buf (omega arith))
xor_at-append (suc pos) zero ks js buf h = absurd (omega arith)
xor_at-append (suc pos) (suc end) ks js [] h = refl
xor_at-append (suc pos) (suc end) ks js (b ∷ buf) h =
    ap (◌∷◌ b) (xor_at-append pos end ks js buf (omega arith))

pub xor_at-append_right :
    (xs ys : List ℕ) (k o : ℕ) (ks : List ℕ)
    → k ≡ length xs + o
    → xor_at k ks (xs ++ ys) ≡ xs ++ xor_at o ks ys
unfolding xor_at
xor_at-append_right [] ys k o ks h = let e : k ≡ o = omega arith in ap (λ i. xor_at i ks ys) e
xor_at-append_right (x ∷ xs) ys zero o ks h = absurd (omega arith)
xor_at-append_right (x ∷ xs) ys (suc k) o ks h =
    ap (◌∷◌ x) (xor_at-append_right xs ys k o ks (omega arith))

xor_at_empty : (pos : ℕ) (buf : List ℕ) → xor_at pos [] buf ≡ buf
unfolding xor_at
xor_at_empty zero buf = refl
xor_at_empty (suc pos) [] = refl
xor_at_empty (suc pos) (b ∷ buf) = ap (◌∷◌ b) (xor_at_empty pos buf)

pub xor_at-append_left :
    (xs ys : List ℕ) (o : ℕ) (ks : List ℕ)
    → o + length ks ≤ length xs
    → xor_at o ks (xs ++ ys) ≡ xor_at o ks xs ++ ys
unfolding xor_at
xor_at-append_left [] ys o [] h = xor_at_empty o ys ∙ ap (λ l. l ++ ys) (xor_at_nil o [])
  where
    xor_at_nil : (o : ℕ) (ks : List ℕ) → [] ≡ xor_at o ks []
    xor_at_nil zero [] = refl
    xor_at_nil zero (k ∷ ks) = refl
    xor_at_nil (suc o) ks = refl
xor_at-append_left [] ys o (k ∷ ks) h = absurd (omega arith)
xor_at-append_left (x ∷ xs) ys zero [] h = refl
xor_at-append_left (x ∷ xs) ys zero (k ∷ ks) h =
    ap (◌∷◌ (bit_xor x k)) (xor_at-append_left xs ys zero ks (omega arith))
xor_at-append_left (x ∷ xs) ys (suc o) ks h =
    ap (◌∷◌ x) (xor_at-append_left xs ys o ks (omega arith))

-- Behind the masked range nothing changes.
pub drop-xor_at :
    (n pos : ℕ) (ks buf : List ℕ) → pos + length ks ≤ n → drop n (xor_at pos ks buf) ≡ drop n buf
unfolding xor_at
drop-xor_at n zero [] buf h = refl
drop-xor_at n zero (k ∷ ks) [] h = refl
drop-xor_at zero zero (k ∷ ks) (b ∷ buf) h = absurd (omega arith)
drop-xor_at (suc n) zero (k ∷ ks) (b ∷ buf) h = drop-xor_at n zero ks buf (omega arith)
drop-xor_at n (suc pos) ks [] h = refl
drop-xor_at zero (suc pos) ks (b ∷ buf) h = absurd (omega arith)
drop-xor_at (suc n) (suc pos) ks (b ∷ buf) h = drop-xor_at n pos ks buf (omega arith)
