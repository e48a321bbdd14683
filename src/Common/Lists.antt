-- ===== src/Common/Lists.antt =====
-- Lists measured and indexed by native numbers, and a block write into a list.
use Prim.Native.Nat.{ℕ, zero, suc, ◌+◌, ◌-◌, ◌≤◌, min}
use mathlib.Core.Path.{◌≡◌, refl, ap}
use mathlib.Core.List.{List, [], ◌∷◌, ◌++◌}
use mathlib.Core.Option.{Option, none, some}
use native.Mathlib.Omega.{arith}

module _ {ℓ} {A : Type ℓ} where
  abbrev pub length : List A → ℕ
  length [] = 0
  length (x ∷ xs) = suc (length xs)

  abbrev pub get_elem? : List A → ℕ → Option A
  get_elem? [] i = none
  get_elem? (x ∷ xs) zero = some x
  get_elem? (x ∷ xs) (suc i) = get_elem? xs i

  abbrev pub set : List A → ℕ → A → List A
  set [] i v = []
  set (x ∷ xs) zero v = v ∷ xs
  set (x ∷ xs) (suc i) v = x ∷ set xs i v

  abbrev pub take : ℕ → List A → List A
  take zero xs = []
  take (suc n) [] = []
  take (suc n) (x ∷ xs) = x ∷ take n xs

  abbrev pub drop : ℕ → List A → List A
  drop zero xs = xs
  drop (suc n) [] = []
  drop (suc n) (x ∷ xs) = drop n xs

  abbrev pub replicate : ℕ → A → List A
  replicate zero a = []
  replicate (suc n) a = a ∷ replicate n a

  -- `xs` over the head of `ys`; what would go past the end of `ys` is lost.
  abbrev pub overwrite : List A → List A → List A
  overwrite [] ys = ys
  overwrite (x ∷ xs) [] = []
  overwrite (x ∷ xs) (y ∷ ys) = x ∷ overwrite xs ys

  -- `xs` over `ys` from index `k` on.
  abbrev pub splice : ℕ → List A → List A → List A
  splice zero xs ys = overwrite xs ys
  splice (suc k) xs [] = []
  splice (suc k) xs (y ∷ ys) = y ∷ splice k xs ys

module _ {ℓ} {A : Type ℓ} where
  pub length-append : (xs ys : List A) → length (xs ++ ys) ≡ length xs + length ys
  length-append [] ys = omega arith
  length-append (x ∷ xs) ys = omega (arith, length-append xs ys)

  pub length-set : (xs : List A) (i : ℕ) (v : A) → length (set xs i v) ≡ length xs
  length-set [] i v = refl
  length-set (x ∷ xs) zero v = refl
  length-set (x ∷ xs) (suc i) v = ap suc (length-set xs i v)

  pub length-take : (n : ℕ) (xs : List A) → length (take n xs) ≡ min n (length xs)
  length-take zero xs = omega arith
  length-take (suc n) [] = omega arith
  length-take (suc n) (x ∷ xs) = omega (arith, length-take n xs)

  pub length-drop : (n : ℕ) (xs : List A) → length (drop n xs) ≡ length xs - n
  length-drop zero xs = omega arith
  length-drop (suc n) [] = omega arith
  length-drop (suc n) (x ∷ xs) = omega (arith, length-drop n xs)

  pub length-replicate : (n : ℕ) (a : A) → length (replicate n a) ≡ n
  length-replicate zero a = refl
  length-replicate (suc n) a = ap suc (length-replicate n a)

  pub take_all : (n : ℕ) (xs : List A) → length xs ≤ n → take n xs ≡ xs
  take_all zero [] h = refl
  take_all zero (x ∷ xs) h = absurd (omega arith)
  take_all (suc n) [] h = refl
  take_all (suc n) (x ∷ xs) h = ap (◌∷◌ x) (take_all n xs (omega arith))

  pub drop_all : (n : ℕ) (xs : List A) → length xs ≤ n → drop n xs ≡ []
  drop_all zero [] h = refl
  drop_all zero (x ∷ xs) h = absurd (omega arith)
  drop_all (suc n) [] h = refl
  drop_all (suc n) (x ∷ xs) h = drop_all n xs (omega arith)

  pub take-append-drop : (n : ℕ) (xs : List A) → take n xs ++ drop n xs ≡ xs
  take-append-drop zero xs = refl
  take-append-drop (suc n) [] = refl
  take-append-drop (suc n) (x ∷ xs) = ap (◌∷◌ x) (take-append-drop n xs)

  pub take-take : (m n : ℕ) (xs : List A) → m ≤ n → take m (take n xs) ≡ take m xs
  take-take zero n xs h = refl
  take-take (suc m) zero xs h = absurd (omega arith)
  take-take (suc m) (suc n) [] h = refl
  take-take (suc m) (suc n) (x ∷ xs) h = ap (◌∷◌ x) (take-take m n xs (omega arith))

  pub drop-drop : (m n k : ℕ) (xs : List A) → m + n ≡ k → drop m (drop n xs) ≡ drop k xs
  drop-drop m zero k xs h = ap (λ j. drop j xs) (omega arith)
  drop-drop zero (suc n) zero xs h = absurd (omega arith)
  drop-drop zero (suc n) (suc k) [] h = refl
  drop-drop zero (suc n) (suc k) (x ∷ xs) h = drop-drop zero n k xs (omega arith)
  drop-drop (suc m) (suc n) zero xs h = absurd (omega arith)
  drop-drop (suc m) (suc n) (suc k) [] h = refl
  drop-drop (suc m) (suc n) (suc k) (x ∷ xs) h = drop-drop (suc m) n k xs (omega arith)

  -- The first `n` elements from `m` on, in either order of cutting.
  pub take-drop : (n m k : ℕ) (xs : List A) → m + n ≡ k → take n (drop m xs) ≡ drop m (take k xs)
  take-drop n zero k xs h = ap (λ j. take j xs) (omega arith)
  take-drop n (suc m) zero xs h = absurd (omega arith)
  take-drop zero (suc m) (suc k) [] h = refl
  take-drop (suc n) (suc m) (suc k) [] h = refl
  take-drop n (suc m) (suc k) (x ∷ xs) h = take-drop n m k xs (omega arith)

  pub drop-append : (n : ℕ) (xs ys : List A) → n ≤ length xs → drop n (xs ++ ys) ≡ drop n xs ++ ys
  drop-append zero xs ys h = refl
  drop-append (suc n) [] ys h = absurd (omega arith)
  drop-append (suc n) (x ∷ xs) ys h = drop-append n xs ys (omega arith)

  pub take-append : (n : ℕ) (xs ys : List A) → n ≡ length xs → take n (xs ++ ys) ≡ xs
  take-append zero [] ys h = refl
  take-append zero (x ∷ xs) ys h = absurd (omega arith)
  take-append (suc n) [] ys h = absurd (omega arith)
  take-append (suc n) (x ∷ xs) ys h = ap (◌∷◌ x) (take-append n xs ys (omega arith))

  pub take-append_within : (n : ℕ) (xs ys : List A) → n ≤ length xs → take n (xs ++ ys) ≡ take n xs
  take-append_within zero xs ys h = refl
  take-append_within (suc n) [] ys h = absurd (omega arith)
  take-append_within (suc n) (x ∷ xs) ys h =
      ap (λ t. x ∷ t) (take-append_within n xs ys (omega arith))

  pub drop-append_eq : (n : ℕ) (xs ys : List A) → n ≡ length xs → drop n (xs ++ ys) ≡ ys
  drop-append_eq zero [] ys h = refl
  drop-append_eq zero (x ∷ xs) ys h = absurd (omega arith)
  drop-append_eq (suc n) [] ys h = absurd (omega arith)
  drop-append_eq (suc n) (x ∷ xs) ys h = drop-append_eq n xs ys (omega arith)

module _ {ℓ} {A : Type ℓ} where
  pub length-overwrite : (xs ys : List A) → length (overwrite xs ys) ≡ length ys
  length-overwrite [] ys = refl
  length-overwrite (x ∷ xs) [] = refl
  length-overwrite (x ∷ xs) (y ∷ ys) = ap suc (length-overwrite xs ys)

  pub length-splice : (k : ℕ) (xs ys : List A) → length (splice k xs ys) ≡ length ys
  length-splice zero xs ys = length-overwrite xs ys
  length-splice (suc k) xs [] = refl
  length-splice (suc k) xs (y ∷ ys) = ap suc (length-splice k xs ys)

  take-overwrite :
      (n : ℕ) (xs ys : List A)
      → n ≡ length xs
      → length xs ≤ length ys
      → take n (overwrite xs ys) ≡ xs
  take-overwrite zero [] ys e h = refl
  take-overwrite zero (x ∷ xs) ys e h = absurd (omega arith)
  take-overwrite (suc n) [] ys e h = absurd (omega arith)
  take-overwrite (suc n) (x ∷ xs) [] e h = absurd (omega arith)
  take-overwrite (suc n) (x ∷ xs) (y ∷ ys) e h =
      ap (◌∷◌ x) (take-overwrite n xs ys (omega arith) (omega arith))

  -- What is written stands where it was written.
  pub take-splice :
      (n k : ℕ) (xs ys : List A)
      → n ≡ k + length xs
      → n ≤ length ys
      → take n (splice k xs ys) ≡ take k ys ++ xs
  take-splice n zero xs ys e h = take-overwrite n xs ys (omega arith) (omega arith)
  take-splice zero (suc k) xs ys e h = absurd (omega arith)
  take-splice (suc n) (suc k) xs [] e h = absurd (omega arith)
  take-splice (suc n) (suc k) xs (y ∷ ys) e h =
      ap (◌∷◌ y) (take-splice n k xs ys (omega arith) (omega arith))

  -- What lies before a write is kept.
  pub take-splice_before : (n k : ℕ) (xs ys : List A) → n ≤ k → take n (splice k xs ys) ≡ take n ys
  take-splice_before zero k xs ys h = refl
  take-splice_before (suc n) zero xs ys h = absurd (omega arith)
  take-splice_before (suc n) (suc k) xs [] h = refl
  take-splice_before (suc n) (suc k) xs (y ∷ ys) h =
      ap (◌∷◌ y) (take-splice_before n k xs ys (omega arith))

  -- A write within a cut, and a write behind one.
  pub take-splice_within :
      (n k : ℕ) (xs ys : List A)
      → k + length xs ≤ n
      → take n (splice k xs ys) ≡ splice k xs (take n ys)
  take-splice_within n zero [] ys h = refl
  take-splice_within zero zero (x ∷ xs) ys h = absurd (omega arith)
  take-splice_within (suc n) zero (x ∷ xs) [] h = refl
  take-splice_within (suc n) zero (x ∷ xs) (y ∷ ys) h =
      ap (◌∷◌ x) (take-splice_within n zero xs ys (omega arith))
  take-splice_within zero (suc k) xs ys h = absurd (omega arith)
  take-splice_within (suc n) (suc k) xs [] h = refl
  take-splice_within (suc n) (suc k) xs (y ∷ ys) h =
      ap (◌∷◌ y) (take-splice_within n k xs ys (omega arith))

  pub drop-splice :
      (r k j : ℕ) (xs ys : List A) → j ≡ r + k → drop r (splice j xs ys) ≡ splice k xs (drop r ys)
  drop-splice zero k j xs ys e = ap (λ i. splice i xs ys) (omega arith)
  drop-splice (suc r) k zero xs ys e = absurd (omega arith)
  drop-splice (suc r) zero (suc j) [] [] e = refl
  drop-splice (suc r) zero (suc j) (x ∷ xs) [] e = refl
  drop-splice (suc r) (suc k) (suc j) xs [] e = refl
  drop-splice (suc r) k (suc j) xs (y ∷ ys) e = drop-splice r k j xs ys (omega arith)
