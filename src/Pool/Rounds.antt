-- ===== src/Pool/Rounds.antt =====
-- src/net/EventLoopThreadPool.cpp: the loops that `getNextLoop` gives, in rounds.
use protobase.Common.{
  ℕ, zero, suc, ◌+◌, ◌-◌, ◌≤◌, ◌<◌, ◌≡◌, Bool, ◌∙◌, refl, sym, ap, Option, none, some, List, [],
  ◌∷◌, ◌++◌, if◌then◌else◌, leb, ◌>>=◌, ◌⊎◌, inl, inr, length, get_elem?, take, drop, arith, le→leb,
  lt→leb_false, take_all, length-drop,
}
use protobase.Common.Int.{ℤ, pos, negsuc}
use protobase.Pool.{Pool, get_next_loop, next_loops, start, set_thread_num}

module _ {ℓ} {A : Type ℓ} where
  drop-get_elem :
      (i : ℕ) (xs : List A)
      → i < length xs
      → (x : A) × (get_elem? xs i ≡ some x) × (drop i xs ≡ x ∷ drop (suc i) xs)
  drop-get_elem i [] h = absurd (omega arith)
  drop-get_elem zero (x ∷ xs) h = (x, refl, refl)
  drop-get_elem (suc i) (x ∷ xs) h = let (y, e, f) = drop-get_elem i xs (omega arith) in (y, e, f)

-- The place after `i`, in a pool of `n` loops.
abbrev after : ℕ → ℕ → ℕ
after n i = if leb n (i + 1) then 0 else i + 1

get_next_loop-some :
    (p : Pool) (x : ℕ)
    → get_elem? p.loops p.next ≡ some x
    → get_next_loop p ≡ some (x, record p { next = after (length p.loops) p.next })
unfolding get_next_loop
get_next_loop-some p x e = of_loops p.loops e
  where
    of_loops :
        (ls : List ℕ)
        → get_elem? ls p.next ≡ some x
        → get_next_loop (record p { loops = ls })
          ≡ some (x, record p { loops = ls; next = after (length ls) p.next })
    of_loops [] e = cc
    of_loops (l ∷ ls) e = rw (e, get_next_loop) refl

get_next_loop_taken :
    (n : ℕ) (p : Pool) (x : ℕ) (xs : List ℕ) (q : Pool)
    → get_elem? p.loops p.next ≡ some x
    → next_loops n (record p { next = after (length p.loops) p.next }) ≡ some (xs, q)
    → next_loops (suc n) p ≡ some (x ∷ xs, q)
unfolding next_loops
get_next_loop_taken n p x xs q e f = rw (get_next_loop-some p x e, next_loops) (rw f refl)

-- Calls that do not pass the end of the loops.
next_loops_within :
    (n i : ℕ) (p : Pool)
    → 0 < n
    → i + n ≤ length p.loops
    → next_loops n (record p { next = i })
      ≡ some (
        take n (drop i p.loops),
        record p { next = if leb (length p.loops) (i + n) then 0 else i + n },
      )
unfolding next_loops
next_loops_within zero i p some_calls h = absurd (omega arith)
next_loops_within (suc zero) i p some_calls h =
    let (x, e, d) = drop-get_elem i p.loops (omega arith) in
    rw d (
      get_next_loop_taken 0 (record p { next = i }) x []
        (record p { next = after (length p.loops) i }) e refl)
next_loops_within (suc (suc n)) i p some_calls h =
    let (x, e, d) = drop-get_elem i p.loops (omega arith) in
    let go : after (length p.loops) i ≡ suc i =
      rw (lt→leb_false (length p.loops) (i + 1) (omega arith)) (omega arith) in
    let place : suc i + suc n ≡ i + suc (suc n) = omega arith in
    let rest = next_loops_within (suc n) (suc i) p (omega arith) (omega arith) in
    rw d (
      get_next_loop_taken (suc n) (record p { next = i }) x (take (suc n) (drop (suc i) p.loops))
        (record p { next = if leb (length p.loops) (i + suc (suc n)) then 0 else i + suc (suc n) })
        e
        (ap (λ j. next_loops (suc n) (record p { next = j })) go
          ∙ rest
          ∙ ap
              (λ j. some (
                take (suc n) (drop (suc i) p.loops),
                record p { next = if leb (length p.loops) j then 0 else j },
              ))
              place))

-- The results of `n` more calls behind those of others.
abbrev then_next : ℕ → List ℕ × Pool → Option (List ℕ × Pool)
unfolding next_loops
then_next n r = next_loops n r.1 >>= λ rs. some (r.0 ++ rs.0, rs.1)

cons_result : ℕ → List ℕ × Pool → Option (List ℕ × Pool)
cons_result x rs = some (x ∷ rs.0, rs.1)

bind-some : (o : Option (List ℕ × Pool)) → (o >>= λ rs. some ([] ++ rs.0, rs.1)) ≡ o
bind-some none = refl
bind-some (some rs) = refl

cons-bind :
    (x : ℕ) (a : List ℕ) (o : Option (List ℕ × Pool))
    → ((o >>= λ rs. some (a ++ rs.0, rs.1)) >>= cons_result x)
      ≡ (o >>= λ rs. some ((x ∷ a) ++ rs.0, rs.1))
unfolding cons_result
cons-bind x a none = refl
cons-bind x a (some rs) = refl

cons-then_next :
    (n x : ℕ) (o : Option (List ℕ × Pool))
    → ((o >>= then_next n) >>= cons_result x) ≡ ((o >>= cons_result x) >>= then_next n)
unfolding then_next cons_result
cons-then_next n x none = refl
cons-then_next n x (some r) = cons-bind x r.0 (next_loops n r.1)

next_loops-suc :
    (n : ℕ) (p : Pool) (o : Option (ℕ × Pool))
    → get_next_loop p ≡ o
    → next_loops (suc n) p ≡ (o >>= λ r. next_loops n r.1 >>= cons_result r.0)
unfolding next_loops cons_result
next_loops-suc n p o e = rw (e, next_loops) refl

-- Calls in two parts.
next_loops-add : (m n : ℕ) (p : Pool) → next_loops (m + n) p ≡ (next_loops m p >>= then_next n)
unfolding next_loops then_next cons_result
next_loops-add zero n p =
    let e : zero + n ≡ n = omega arith in
    ap (λ k. next_loops k p) e ∙ sym (bind-some (next_loops n p))
next_loops-add (suc m) n p =
    let e : suc m + n ≡ suc (m + n) = omega arith in
    ap (λ k. next_loops k p) e ∙ first (get_next_loop p) (λ r. next_loops-add m n r.1)
  where
    first :
        (o : Option (ℕ × Pool))
        → ((r : ℕ × Pool) → next_loops (m + n) r.1 ≡ (next_loops m r.1 >>= then_next n))
        → (o >>= λ r. next_loops (m + n) r.1 >>= cons_result r.0)
          ≡ ((o >>= λ r. next_loops m r.1 >>= cons_result r.0) >>= then_next n)
    first none rest = refl
    first (some r) rest =
        ap (λ o. o >>= cons_result r.0) (rest r) ∙ cons-then_next n r.0 (next_loops m r.1)

next_loops_end :
    (p : Pool)
    → p.next < length p.loops
    → next_loops (length p.loops - p.next) p ≡ some (drop p.next p.loops, record p { next = 0 })
next_loops_end p h =
    let place : p.next + (length p.loops - p.next) ≡ length p.loops = omega arith in
    next_loops_within (length p.loops - p.next) p.next p (omega arith) (omega arith)
    ∙ ap
        (λ xs. some (
          xs,
          record p {
            next =
                if leb (length p.loops) (p.next + (length p.loops - p.next))
                then 0
                else p.next + (length p.loops - p.next);
          },
        ))
        (take_all (length p.loops - p.next) (drop p.next p.loops)
          (omega (arith, length-drop p.next p.loops)))
    ∙ ap
        (λ k.
          some (drop p.next p.loops, record p { next = if leb (length p.loops) k then 0 else k }))
        place
    ∙ ap (λ b. some (drop p.next p.loops, record p { next = if b then 0 else length p.loops }))
        (le→leb (length p.loops) (length p.loops) (omega arith))

next_loops_start :
    (i : ℕ) (p : Pool)
    → i < length p.loops
    → next_loops i (record p { next = 0 }) ≡ some (take i p.loops, record p { next = i })
unfolding next_loops
next_loops_start zero p h = refl
next_loops_start (suc i) p h =
    let place : 0 + suc i ≡ suc i = omega arith in
    next_loops_within (suc i) 0 p (omega arith) (omega arith)
    ∙ ap
        (λ k.
          some (take (suc i) p.loops, record p { next = if leb (length p.loops) k then 0 else k }))
        place
    ∙ ap (λ b. some (take (suc i) p.loops, record p { next = if b then 0 else suc i }))
        (lt→leb_false (length p.loops) (suc i) h)

-- A pool with loops, whose next index is in range, gives in as many calls as it has loops each of
-- them once, in order from the next one on and round to the loop before it, and is then as it was.
pub next_loops-round :
    (p : Pool)
    → p.next < length p.loops
    → next_loops (length p.loops) p ≡ some (drop p.next p.loops ++ take p.next p.loops, p)
unfolding then_next
next_loops-round p h =
    ap (λ k. next_loops k p) whole
    ∙ next_loops-add (length p.loops - p.next) p.next p
    ∙ ap (λ o. o >>= then_next p.next) (next_loops_end p h)
    ∙ ap (λ o. o >>= λ rs. some (drop p.next p.loops ++ rs.0, rs.1)) (next_loops_start p.next p h)
  where
    whole : length p.loops ≡ (length p.loops - p.next) + p.next
    whole = omega arith

-- The next index is one of a loop, where there are any.
abbrev pub InRange : Pool → Type 0
InRange p = (p.loops ≡ []) ⊎ (p.next < length p.loops)

get_next_loop_base :
    (p : Pool) (ls : List ℕ)
    → ls ≡ []
    → get_next_loop (record p { loops = ls }) ≡ some (p.base, record p { loops = ls })
unfolding get_next_loop
get_next_loop_base p [] e = refl
get_next_loop_base p (l ∷ ls) e = cc

pub get_next_loop-InRange :
    (p : Pool) → InRange p → (r : ℕ × Pool) × (get_next_loop p ≡ some r) × InRange r.1
get_next_loop-InRange p (inl e) = ((p.base, p), get_next_loop_base p p.loops e, inl e)
get_next_loop-InRange p (inr h) =
    let (x, e, d) = drop-get_elem p.next p.loops h in
    (
      (x, record p { next = after (length p.loops) p.next }),
      get_next_loop-some p x e,
      inr (ground arith),
    )

pub start-InRange :
    (has_callback : Bool) (fresh : ℕ → ℕ) (n : ℤ) (p : Pool)
    → p.loops ≡ []
    → p.next ≡ 0
    → InRange (start has_callback fresh (set_thread_num n p))
unfolding start set_thread_num
start-InRange has_callback fresh (pos zero) p e z = rw e (inl refl)
start-InRange has_callback fresh (pos (suc n)) p e z = rw (e, z) (inr (omega arith))
start-InRange has_callback fresh (negsuc n) p e z = rw e (inl refl)
