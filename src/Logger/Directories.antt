-- ===== src/Logger/Directories.antt =====
-- src/base/Logger.cpp: the directories of `createDirectoryIfNotExists`.
use protobase.Common.{
  ℕ, ◌≡◌, ◌∙◌, refl, sym, ap, false, List, [], ◌∷◌, ◌++◌, append_assoc, append-nil, ◌==◌,
}
use protobase.Logger.{tokens, paths, create_directory}

-- Names between separators, as a path.
abbrev pub joined : List (List ℕ) → List ℕ
joined [] = []
joined (t ∷ ts) = t ++ b'/' ∷ joined ts

-- A name: not empty and without a separator.
abbrev pub Plain : List ℕ → Type 0
Plain [] = Unit {0}
Plain (c ∷ cs) = ((c == b'/') ≡ false) × Plain cs

abbrev pub IsName : List ℕ → Type 0
IsName [] = ⊥
IsName (c ∷ cs) = Plain (c ∷ cs)

abbrev pub Names : List (List ℕ) → Type 0
Names [] = Unit {0}
Names (t ∷ ts) = IsName t × Names ts

-- A name that is read on from a token, up to the separator.
tokens-name :
    (t c : ℕ) (token cs rest : List ℕ)
    → Plain cs
    → tokens (t ∷ token) (cs ++ b'/' ∷ rest) ≡ ((t ∷ token) ++ cs) ∷ tokens [] rest
unfolding tokens
tokens-name t c token [] rest h = ap (λ x. (t ∷ x) ∷ tokens [] rest) (sym (append-nil token))
tokens-name t c token (d ∷ cs) rest h =
    rw (h.0, tokens)
      (tokens-name t c (token ++ d ∷ []) cs rest h.1
        ∙ ap (λ x. (t ∷ x) ∷ tokens [] rest) (append_assoc token (d ∷ []) cs))

-- Names that are joined are read back.
pub tokens-joined : (ts : List (List ℕ)) → Names ts → tokens [] (joined ts) ≡ ts
unfolding tokens
tokens-joined [] h = refl
tokens-joined ([] ∷ ts) h = absurd h.0
tokens-joined ((c ∷ cs) ∷ ts) h =
    rw (h.0.0, tokens)
      (tokens-name c c [] cs (joined ts) h.0.1 ∙ ap (λ x. (c ∷ cs) ∷ x) (tokens-joined ts h.1))

-- The paths of the first name, of the first two, and so on.
abbrev pub prefixes : List ℕ → List (List ℕ) → List (List ℕ)
prefixes base [] = []
prefixes base (t ∷ ts) = (base ++ joined (t ∷ [])) ∷ prefixes (base ++ joined (t ∷ [])) ts

-- For a path below the root, of names that are not empty and hold no separator, each followed by
-- one, the directories that are made are, in this order, those of the first name, of the first two,
-- and so on up to the path.
create_directory-joined :
    (ts : List (List ℕ)) → Names ts → create_directory (b'/' ∷ joined ts) ≡ prefixes (b'/' ∷ []) ts
unfolding create_directory tokens paths
create_directory-joined ts h = ap (paths (b'/' ∷ [])) (tokens-joined ts h) ∙ same (b'/' ∷ []) ts
  where
    same : (base : List ℕ) (ts : List (List ℕ)) → paths base ts ≡ prefixes base ts
    same base [] = refl
    same base (t ∷ ts) =
        ap (λ b. b ∷ paths b ts) (append_assoc base t (b'/' ∷ []))
        ∙ ap (λ ps. (base ++ joined (t ∷ [])) ∷ ps) (same (base ++ joined (t ∷ [])) ts)
