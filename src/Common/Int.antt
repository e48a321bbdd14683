-- ===== src/Common/Int.antt =====
-- Signed integers over the native numbers: `negsuc n` is -(n + 1).
use Prim.Native.Nat.{ℕ, ◌+◌}
use mathlib.Core.Path.{◌≡◌, ap}
use mathlib.Core.Bool.{Bool, true, false}
use mathlib.Core.List.{List, [], ◌∷◌, ◌++◌}
use native.Mathlib.Omega.{arith}
use protobase.Common.Tests.{◌==◌, ==_iff, if◌then◌else◌}

pub data ℤ : Type 0 where
  pos : ℕ → ℤ
  negsuc : ℕ → ℤ

abbrev pub same : ℤ → ℤ → Bool
same (pos m) (pos n) = m == n
same (pos m) (negsuc n) = false
same (negsuc m) (pos n) = false
same (negsuc m) (negsuc n) = m == n

pub same_refl : (m : ℤ) → same m m ≡ true
same_refl (pos n) = ground arith
same_refl (negsuc n) = ground arith

pub same→eq : (m n : ℤ) → same m n ≡ true → m ≡ n
same→eq (pos m) (pos n) h = ap pos ((==_iff m n).0 h)
same→eq (pos m) (negsuc n) h = absurd cc
same→eq (negsuc m) (pos n) h = absurd cc
same→eq (negsuc m) (negsuc n) h = ap negsuc ((==_iff m n).0 h)

-- How often a number is in a list.
abbrev pub times : ℤ → List ℤ → ℕ
times x [] = 0
times x (y ∷ ys) = (if same x y then 1 else 0) + times x ys

pub times-append : (x : ℤ) (xs ys : List ℤ) → times x (xs ++ ys) ≡ times x xs + times x ys
times-append x [] ys = omega arith
times-append x (y ∷ xs) ys = omega (arith, times-append x xs ys)
