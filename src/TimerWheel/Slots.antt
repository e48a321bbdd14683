-- ===== src/TimerWheel/Slots.antt =====
-- Slots of a wheel, counts of the nodes in them, and wheels whose tasks run once.
use protobase.Common.{
  ℕ, zero, suc, ◌+◌, ◌≤◌, ◌<◌, ◌≡◌, ◌∙◌, refl, ap, List, [], ◌∷◌, ◌++◌, if◌then◌else◌, ◌==◌, arith,
  length, length-append, replicate,
}
use protobase.TimerWheel.{
  Node, user, later, once, every, Slot, Wheel, TimerWheel, emplace, front, rotated, create,
}

abbrev pub slot : Wheel → ℕ → Slot
slot [] i = []
slot (s ∷ w) zero = s
slot (s ∷ w) (suc i) = slot w i

-- How often an id stands in a list.
abbrev pub count : ℕ → List ℕ → ℕ
count id [] = 0
count id (j ∷ js) = (if j == id then 1 else 0) + count id js

-- The nodes of a slot that run the one-time task `id` when they are let go.
abbrev pub fires : ℕ → Slot → ℕ
fires id [] = 0
fires id (user (once j) ∷ s) = (if j == id then 1 else 0) + fires id s
fires id (user (every i j) ∷ s) = fires id s
fires id (later k n ∷ s) = fires id s

-- Those that run it `k` seconds after they are let go.
abbrev pub moves : ℕ → ℕ → Slot → ℕ
moves id k [] = 0
moves id k (later j (user (once i)) ∷ s) =
    (if j == k then (if i == id then 1 else 0) else 0) + moves id k s
moves id k (later j (user (every _ i)) ∷ s) = moves id k s
moves id k (later j (later _ n) ∷ s) = moves id k s
moves id k (user t ∷ s) = moves id k s

-- Slots of the second wheel and of the minute wheel, where every task runs once.
abbrev pub Plain : Slot → Type 0
Plain [] = Unit {0}
Plain (user (once j) ∷ s) = Plain s
Plain (user (every i j) ∷ s) = ⊥
Plain (later k n ∷ s) = ⊥

abbrev pub Waits : Slot → Type 0
Waits [] = Unit {0}
Waits (later j (user (once i)) ∷ s) = (j < 60) × Waits s
Waits (later j (user (every _ i)) ∷ s) = ⊥
Waits (later j (later _ n) ∷ s) = ⊥
Waits (user t ∷ s) = ⊥

abbrev pub All : (Slot → Type 0) → Wheel → Type 0
All P [] = Unit {0}
All P (s ∷ w) = P s × All P w

-- The sizes of the four wheels, and one-time tasks in the two fine ones.
pub record IsOnce (w : TimerWheel) : Type 0 where
  pub seconds_size : length w.seconds ≡ 60
  pub minutes_size : length w.minutes ≡ 60
  pub hours_size : length w.hours ≡ 24
  pub days_size : length w.days ≡ 30
  pub plain : All Plain w.seconds
  pub waits : All Waits w.minutes

pub length-emplace : (i : ℕ) (n : Node) (w : Wheel) → length (emplace i n w) ≡ length w
unfolding emplace
length-emplace i n [] = refl
length-emplace zero n (s ∷ w) = refl
length-emplace (suc i) n (s ∷ w) = ap suc (length-emplace i n w)

pub slot-emplace :
    (i j : ℕ) (n : Node) (w : Wheel)
    → i < length w
    → slot (emplace i n w) j ≡ (if i == j then slot w j ++ n ∷ [] else slot w j)
unfolding emplace
slot-emplace i j n [] h = absurd (omega arith)
slot-emplace zero zero n (s ∷ w) h = refl
slot-emplace zero (suc j) n (s ∷ w) h = ground arith
slot-emplace (suc i) zero n (s ∷ w) h = ground arith
slot-emplace (suc i) (suc j) n (s ∷ w) h = slot-emplace i j n w (omega arith) ∙ ground arith

slot-append : (w : Wheel) (j : ℕ) → slot (w ++ [] ∷ []) j ≡ slot w j
slot-append [] zero = refl
slot-append [] (suc j) = refl
slot-append (s ∷ w) zero = refl
slot-append (s ∷ w) (suc j) = slot-append w j

pub slot-rotated : (w : Wheel) (j : ℕ) → slot (rotated w) j ≡ slot w (suc j)
slot-rotated [] zero = refl
slot-rotated [] (suc j) = refl
slot-rotated (s ∷ w) j = slot-append w j

pub length-rotated : (w : Wheel) → 0 < length w → length (rotated w) ≡ length w
length-rotated [] h = absurd (omega arith)
length-rotated (s ∷ w) h = omega (arith, length-append w ([] ∷ []))

pub front-slot : (w : Wheel) → front w ≡ slot w 0
front-slot [] = refl
front-slot (s ∷ w) = refl

module _ (P : Slot → Type 0) (empty : P []) where
  All-append : (w : Wheel) → All P w → All P (w ++ [] ∷ [])
  All-append [] h = (empty, tt)
  All-append (s ∷ w) h = (h.0, All-append w h.1)

  pub All-rotated : (w : Wheel) → All P w → All P (rotated w)
  All-rotated [] h = (empty, tt)
  All-rotated (s ∷ w) h = All-append w h.1

  pub All-front : (w : Wheel) → All P w → P (front w)
  All-front [] h = empty
  All-front (s ∷ w) h = h.0

  pub All-replicate : (n : ℕ) → All P (replicate n [])
  All-replicate zero = tt
  All-replicate (suc n) = (empty, All-replicate n)

  pub All-emplace :
      (n : Node)
      → ((s : Slot) → P s → P (s ++ n ∷ []))
      → (i : ℕ) (w : Wheel) → All P w
      → All P (emplace i n w)
  unfolding emplace
  All-emplace n step i [] h = tt
  All-emplace n step zero (s ∷ w) h = (step s h.0, h.1)
  All-emplace n step (suc i) (s ∷ w) h = (h.0, All-emplace n step i w h.1)

pub Plain-append : (id : ℕ) (s : Slot) → Plain s → Plain (s ++ user (once id) ∷ [])
Plain-append id [] h = tt
Plain-append id (user (once j) ∷ s) h = Plain-append id s h
Plain-append id (user (every i j) ∷ s) h = h
Plain-append id (later k n ∷ s) h = h

pub Waits-append :
    (j id : ℕ) → j < 60 → (s : Slot) → Waits s → Waits (s ++ later j (user (once id)) ∷ [])
Waits-append j id small [] h = (small, tt)
Waits-append j id small (later i (user (once k)) ∷ s) h = (h.0, Waits-append j id small s h.1)
Waits-append j id small (later i (user (every l k)) ∷ s) h = h
Waits-append j id small (later i (later k n) ∷ s) h = h
Waits-append j id small (user t ∷ s) h = h

pub count-append : (id : ℕ) (xs ys : List ℕ) → count id (xs ++ ys) ≡ count id xs + count id ys
count-append id [] ys = omega arith
count-append id (x ∷ xs) ys = omega (arith, count-append id xs ys)

pub fires-append : (id : ℕ) (s r : Slot) → fires id (s ++ r) ≡ fires id s + fires id r
fires-append id [] r = omega arith
fires-append id (user (once j) ∷ s) r = omega (arith, fires-append id s r)
fires-append id (user (every i j) ∷ s) r = fires-append id s r
fires-append id (later k n ∷ s) r = fires-append id s r

pub moves-append : (id k : ℕ) (s r : Slot) → moves id k (s ++ r) ≡ moves id k s + moves id k r
moves-append id k [] r = omega arith
moves-append id k (later j (user (once i)) ∷ s) r = omega (arith, moves-append id k s r)
moves-append id k (later j (user (every _ i)) ∷ s) r = moves-append id k s r
moves-append id k (later j (later _ n) ∷ s) r = moves-append id k s r
moves-append id k (user t ∷ s) r = moves-append id k s r

-- A minute's node waits less than a minute more.
pub moves_far : (id k : ℕ) (s : Slot) → Waits s → 60 ≤ k → moves id k s ≡ 0
moves_far id k [] h far = refl
moves_far id k (later j (user (once i)) ∷ s) h far = ground (arith, moves_far id k s h.1 far)
moves_far id k (later j (user (every _ i)) ∷ s) h far = absurd h
moves_far id k (later j (later _ n) ∷ s) h far = absurd h
moves_far id k (user t ∷ s) h far = absurd h

pub create-IsOnce : IsOnce create
unfolding create
create-IsOnce = record {
  seconds_size = refl;
  minutes_size = refl;
  hours_size = refl;
  days_size = refl;
  plain = All-replicate Plain tt 60;
  waits = All-replicate Waits tt 60;
}
