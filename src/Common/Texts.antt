-- ===== src/Common/Texts.antt =====
-- Texts as lists of character codes, and maps with texts as keys.
use protobase.Common.Lists.{length, drop, drop-append_eq}
use protobase.Common.Tests.{◌==◌, ==_iff, if◌then◌else◌, Bool-cases, and_true}
use Prim.Native.Nat.{ℕ}
use Prim.Native.Char.{code}
use Prim.Native.String.{String}
use mathlib.Core.Path.{◌≡◌, refl, sym, ap, ◌∙◌}
use mathlib.Core.Logic.{◌≢◌, inl, inr}
use mathlib.Core.Bool.{Bool, true, false, ◌&&◌}
use mathlib.Core.Option.{Option, none, some}
use mathlib.Core.List.{List, [], ◌∷◌, ◌++◌}
use native.Mathlib.Omega.{arith}

-- The character codes of a literal.
abbrev pub codes : String → List ℕ
codes String.[] = []
codes (String.◌∷◌ c s) = code c ∷ codes s

abbrev pub equal : List ℕ → List ℕ → Bool
equal [] [] = true
equal [] (y ∷ ys) = false
equal (x ∷ xs) [] = false
equal (x ∷ xs) (y ∷ ys) = x == y && equal xs ys

pub equal_refl : (xs : List ℕ) → equal xs xs ≡ true
equal_refl [] = refl
equal_refl (x ∷ xs) = ground (arith, equal_refl xs)

pub equal→eq : (xs ys : List ℕ) → equal xs ys ≡ true → xs ≡ ys
equal→eq [] [] h = refl
equal→eq [] (y ∷ ys) h = cc
equal→eq (x ∷ xs) [] h = cc
equal→eq (x ∷ xs) (y ∷ ys) h =
    let both = and_true (x == y) (equal xs ys) h in
    cc ((==_iff x y).0 both.0, equal→eq xs ys both.1)

pub ne→equal_false : (xs ys : List ℕ) → xs ≢ ys → equal xs ys ≡ false
ne→equal_false xs ys h = elim (Bool-cases (equal xs ys)) [
  | inl e ↦ absurd (h (equal→eq xs ys e))
  | inr e ↦ e
]

-- What follows a common beginning.
pub append_cancel : (xs ys zs : List ℕ) → xs ++ ys ≡ xs ++ zs → ys ≡ zs
append_cancel xs ys zs e =
    sym (drop-append_eq (length xs) xs ys refl)
    ∙ ap (drop (length xs)) e
    ∙ drop-append_eq (length xs) xs zs refl

-- A map as an association list.
module _ {ℓ} {V : Type ℓ} where
  abbrev pub find : List ℕ → List (List ℕ × V) → Option V
  find k [] = none
  find k ((j, v) ∷ m) = if equal j k then some v else find k m

  -- `m[k] = v`.
  abbrev pub put : List ℕ → V → List (List ℕ × V) → List (List ℕ × V)
  put k v [] = (k, v) ∷ []
  put k v ((j, w) ∷ m) = if equal j k then (k, v) ∷ m else (j, w) ∷ put k v m

  abbrev pub erase : List ℕ → List (List ℕ × V) → List (List ℕ × V)
  erase k [] = []
  erase k ((j, w) ∷ m) = if equal j k then erase k m else (j, w) ∷ erase k m

  -- Each key once.
  abbrev pub Unique : List (List ℕ × V) → Type ℓ
  Unique [] = Unit {ℓ}
  Unique ((k, v) ∷ m) = (find k m ≡ none) × Unique m

  skipped :
      (b : Bool) (v : V) (o : Option V)
      → (if b then some v else o) ≡ none
      → (b ≡ false) × (o ≡ none)
  skipped true v o h = cc
  skipped false v o h = (refl, h)

  pub put_absent :
      (k : List ℕ) (v : V) (m : List (List ℕ × V)) → find k m ≡ none → put k v m ≡ m ++ (k, v) ∷ []
  put_absent k v [] h = refl
  put_absent k v ((j, w) ∷ m) h =
      let s = skipped (equal j k) w (find k m) h in rw (s.0, put_absent k v m s.1) refl

  pub erase_absent : (k : List ℕ) (m : List (List ℕ × V)) → find k m ≡ none → erase k m ≡ m
  erase_absent k [] h = refl
  erase_absent k ((j, w) ∷ m) h =
      let s = skipped (equal j k) w (find k m) h in rw (s.0, erase_absent k m s.1) refl

  pub find-append_none :
      (k j : List ℕ) (v : V) (m : List (List ℕ × V))
      → find k m ≡ none
      → j ≢ k
      → find k (m ++ (j, v) ∷ []) ≡ none
  find-append_none k j v [] h differ = rw (ne→equal_false j k differ) refl
  find-append_none k j v ((i, w) ∷ m) h differ =
      let s = skipped (equal i k) w (find k m) h in rw s.0 (find-append_none k j v m s.1 differ)

  pub Unique-append :
      (k : List ℕ) (v : V) (m : List (List ℕ × V))
      → find k m ≡ none
      → Unique m
      → Unique (m ++ (k, v) ∷ [])
  Unique-append k v [] h u = (refl, tt)
  Unique-append k v ((j, w) ∷ m) h u =
      let s = skipped (equal j k) w (find k m) h in
      (
        find-append_none j k v m u.0
            (λ e. true≢false (sym (equal_refl j) ∙ ap (equal j) (sym e) ∙ s.0)),
        Unique-append k v m s.1 u.1,
      )
    where
      true≢false : true ≡ false → ⊥
      true≢false e = cc

  pub find-erase-none :
      (k j : List ℕ) (m : List (List ℕ × V)) → find k m ≡ none → find k (erase j m) ≡ none
  find-erase-none k j [] h = refl
  find-erase-none k j ((i, w) ∷ m) h =
      let s = skipped (equal i k) w (find k m) h in
      elim (Bool-cases (equal i j)) [
        | inl e ↦ rw e (find-erase-none k j m s.1)
        | inr e ↦ rw (e, s.0) (find-erase-none k j m s.1)
      ]

  pub Unique-erase : (k : List ℕ) (m : List (List ℕ × V)) → Unique m → Unique (erase k m)
  Unique-erase k [] u = tt
  Unique-erase k ((j, w) ∷ m) u = elim (Bool-cases (equal j k)) [
    | inl e ↦ rw e (Unique-erase k m u.1)
    | inr e ↦ rw e (find-erase-none j k m u.0, Unique-erase k m u.1)
  ]
