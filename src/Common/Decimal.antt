-- ===== src/Common/Decimal.antt =====
-- Numbers as `printf` prints them with `%d` and `%u`: the decimal digits as ASCII codes.
use protobase.Common.Lists.{length, length-append}
use protobase.Common.Tests.{ltb, if◌then◌else◌, lt→ltb, le→ltb_false}
use Prim.Native.Nat.{ℕ, zero, suc, ◌+◌, ◌-◌, ◌*◌, ◌/◌, ◌%◌, ◌^◌, ◌≤◌, ◌<◌}
use mathlib.Core.Path.{◌≡◌, refl, sym, ap, ◌∙◌}
use mathlib.Core.List.{List, [], ◌∷◌, ◌++◌}
use native.Mathlib.Decide.{dec_lt}
use native.Mathlib.Nat.{pow-suc}
use native.Mathlib.Omega.{arith}

-- The digits of `n`, where the fuel is above `n`.
unfoldable pub digits : ℕ → ℕ → List ℕ
digits zero n = []
digits (suc f) n =
    let rest = digits f (n / 10) in if ltb n 10 then (48 + n) ∷ [] else rest ++ (48 + n % 10) ∷ []

unfoldable pub decimal : ℕ → List ℕ
unfolding digits
decimal n = digits (n + 1) n

-- The number that digits stand for, behind the digits of `acc`.
abbrev pub number : ℕ → List ℕ → ℕ
number acc [] = acc
number acc (c ∷ cs) = number (acc * 10 + (c - 48)) cs

number-append :
    (acc c : ℕ) (cs : List ℕ) → number acc (cs ++ c ∷ []) ≡ number acc cs * 10 + (c - 48)
number-append acc c [] = refl
number-append acc c (d ∷ cs) = number-append (acc * 10 + (d - 48)) c cs

number-digits : (f n : ℕ) → n < f → number 0 (digits f n) ≡ n
unfolding digits
number-digits zero n h = absurd (omega arith)
number-digits (suc f) n h = elim (dec_lt n 10) [
  | yes small ↦ rw (lt→ltb n 10 small) (omega arith)
  | no large ↦ rw (le→ltb_false n 10 (omega arith)) (
      number-append 0 (48 + n % 10) (digits f (n / 10))
      ∙ omega (arith, number-digits f (n / 10) (omega arith)))
]

pub number-decimal : (n : ℕ) → number 0 (decimal n) ≡ n
unfolding decimal
number-decimal n = number-digits (n + 1) n (omega arith)

-- Different numbers are printed differently.
pub decimal_inj : (m n : ℕ) → decimal m ≡ decimal n → m ≡ n
decimal_inj m n e = sym (number-decimal m) ∙ ap (number 0) e ∙ number-decimal n

length-digits : (f n k : ℕ) → n < f → n < 10 ^ suc k → length (digits f n) ≤ suc k
unfolding digits
length-digits zero n k h small = absurd (omega arith)
length-digits (suc f) n k h small = elim (dec_lt n 10) [
  | yes one ↦ rw (lt→ltb n 10 one) (omega arith)
  | no more ↦
      rw (le→ltb_false n 10 (omega arith))
        (longer k (omega arith) small (λ j. length-digits f (n / 10) j (omega arith)))
]
  where
    longer :
        (k : ℕ)
        → 10 ≤ n
        → n < 10 ^ suc k
        → ((j : ℕ) → n / 10 < 10 ^ suc j → length (digits f (n / 10)) ≤ suc j)
        → length (digits f (n / 10) ++ (48 + n % 10) ∷ []) ≤ suc k
    longer zero large small less = absurd (omega arith)
    longer (suc k) large small less = omega (
      arith,
      length-append (digits f (n / 10)) ((48 + n % 10) ∷ []),
      less k (omega (arith, pow-suc 10 (suc k))),
    )

-- A number below 2^31 takes ten digits at most.
pub length-decimal : (n : ℕ) → n < 2 ^ 31 → length (decimal n) ≤ 10
unfolding decimal
length-decimal n small = length-digits (n + 1) n 9 (omega arith) (omega arith)
