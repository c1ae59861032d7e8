-- ===== src/Common/Sums.antt =====
-- Sums of lists of numbers, and a property of every entry.
use anonymous.Common.Lists.{replicate}
use Prim.Native.Nat.{ℕ, zero, suc, ◌+◌, ◌*◌}
use mathlib.Core.Path.{◌≡◌}
use mathlib.Core.List.{List, [], ◌∷◌, ◌++◌}
use native.Mathlib.Omega.{arith}

abbrev pub sum : List ℕ → ℕ
sum [] = 0
sum (x ∷ xs) = x + sum xs

pub sum-append : (xs ys : List ℕ) → sum (xs ++ ys) ≡ sum xs + sum ys
sum-append [] ys = omega arith
sum-append (x ∷ xs) ys = omega (arith, sum-append xs ys)

pub sum-replicate : (n a : ℕ) → sum (replicate n a) ≡ n * a
sum-replicate zero a = omega arith
sum-replicate (suc n) a = ground (arith, sum-replicate n a)

abbrev pub All {ℓ m} : {A : Type ℓ} → (A → Type m) → List A → Type m
All p [] = Unit
All p (x ∷ xs) = p x × All p xs

pub All-append {ℓ m} :
    {A : Type ℓ} (p : A → Type m) (xs ys : List A) → All p xs → All p ys → All p (xs ++ ys)
All-append p [] ys h k = k
All-append p (x ∷ xs) ys (hx, h) k = (hx, All-append p xs ys h k)

pub All-replicate {ℓ m} :
    {A : Type ℓ} (p : A → Type m) (n : ℕ) (a : A) → p a → All p (replicate n a)
All-replicate p zero a h = tt
All-replicate p (suc n) a h = (h, All-replicate p n a h)
