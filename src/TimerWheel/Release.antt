-- ===== src/TimerWheel/Release.antt =====
-- What a slot's destructor does where every task runs once. Two steps of fuel are enough: a node
-- of a minute's slot is moved or runs its task.
use protobase.Common.{
  ℕ, zero, suc, ◌+◌, ◌<◌, ◌≡◌, ◌∙◌, refl, sym, ap, some, List, [], ◌∷◌, ◌++◌, arith, length,
  append_assoc, append-nil,
}
use protobase.TimerWheel.{
  user, later, once, every, Slot, TimerWheel, emplace, insert_node, insert_second_node, let_go,
  let_go_all,
}
use protobase.TimerWheel.Slots.{
  slot, count, fires, moves, Plain, Waits, All, length-emplace, slot-emplace, All-emplace,
  Plain-append, count-append, fires-append,
}

-- The ids that a slot of one-time tasks runs.
abbrev pub ids : Slot → List ℕ
ids [] = []
ids (user (once j) ∷ s) = j ∷ ids s
ids (user (every i j) ∷ s) = ids s
ids (later k n ∷ s) = ids s

pub count-ids : (id : ℕ) (s : Slot) → count id (ids s) ≡ fires id s
count-ids id [] = refl
count-ids id (user (once j) ∷ s) = omega (arith, count-ids id s)
count-ids id (user (every i j) ∷ s) = count-ids id s
count-ids id (later k n ∷ s) = count-ids id s

pub let_go_all-Plain :
    (f : ℕ) (s : Slot) (w : TimerWheel)
    → Plain s
    → let_go_all (suc f) s w ≡ some (record w { fired = w.fired ++ ids s })
unfolding let_go_all let_go
let_go_all-Plain f [] w h = ap (λ l. some (record w { fired = l })) (sym (append-nil w.fired))
let_go_all-Plain f (user (once j) ∷ s) w h =
    let_go_all-Plain f s (record w { fired = w.fired ++ j ∷ [] }) h
    ∙ ap (λ l. some (record w { fired = l })) (append_assoc w.fired (j ∷ []) (ids s))
let_go_all-Plain f (user (every i j) ∷ s) w h = absurd h
let_go_all-Plain f (later k n ∷ s) w h = absurd h

-- `w'` is `w` after the nodes of a minute's slot were let go.
pub record Moved (s : Slot) (w w' : TimerWheel) : Type 0 where
  pub seconds_size : length w'.seconds ≡ length w.seconds
  pub plain : All Plain w'.seconds
  pub minutes : w'.minutes ≡ w.minutes
  pub hours : w'.hours ≡ w.hours
  pub days : w'.days ≡ w.days
  pub tick : w'.tick ≡ w.tick
  pub waiting :
      (id k : ℕ) → fires id (slot w'.seconds k) ≡ fires id (slot w.seconds k) + moves id (suc k) s
  pub run : (id : ℕ) → count id w'.fired ≡ count id w.fired + moves id 0 s

-- One node: it runs its task, or goes to the second wheel.
abbrev after_one : ℕ → ℕ → TimerWheel → TimerWheel
after_one zero i w = record w { fired = w.fired ++ i ∷ [] }
after_one (suc j) i w = record w { seconds = emplace j (user (once i)) w.seconds }

let_go_one :
    (f j i : ℕ) (w : TimerWheel)
    → j < 60
    → let_go (suc (suc f)) (later j (user (once i))) w ≡ some (after_one j i w)
unfolding let_go insert_node insert_second_node
let_go_one f zero i w h = refl
let_go_one f (suc j) i w h = ground arith

after_one-Moved :
    (j i : ℕ) (w : TimerWheel)
    → j < 60
    → length w.seconds ≡ 60
    → All Plain w.seconds
    → Moved (later j (user (once i)) ∷ []) w (after_one j i w)
after_one-Moved zero i w h size p = record {
  seconds_size = refl;
  plain = p;
  minutes = refl;
  hours = refl;
  days = refl;
  tick = refl;
  waiting = λ id k. ground arith;
  run = λ id. ground (arith, count-append id w.fired (i ∷ []));
}
after_one-Moved (suc j) i w h size p = record {
  seconds_size = length-emplace j (user (once i)) w.seconds;
  plain = All-emplace Plain tt (user (once i)) (Plain-append i) j w.seconds p;
  minutes = refl;
  hours = refl;
  days = refl;
  tick = refl;
  waiting = λ id k.
      rw (slot-emplace j k (user (once i)) w.seconds (omega arith))
        (ground (arith, fires-append id (slot w.seconds k) (user (once i) ∷ [])));
  run = λ id. ground arith;
}

moves-cons :
    (id k j i : ℕ) (s : Slot)
    → moves id k (later j (user (once i)) ∷ s)
      ≡ moves id k (later j (user (once i)) ∷ []) + moves id k s
moves-cons id k j i s = omega arith

Moved-cons :
    (j i : ℕ) (s : Slot) {w w' w'' : TimerWheel}
    → Moved (later j (user (once i)) ∷ []) w w'
    → Moved s w' w''
    → Moved (later j (user (once i)) ∷ s) w w''
Moved-cons j i s a b = record {
  seconds_size = b.seconds_size ∙ a.seconds_size;
  plain = b.plain;
  minutes = b.minutes ∙ a.minutes;
  hours = b.hours ∙ a.hours;
  days = b.days ∙ a.days;
  tick = b.tick ∙ a.tick;
  waiting = λ id k. omega (arith, a.waiting id k, b.waiting id k, moves-cons id (suc k) j i s);
  run = λ id. omega (arith, a.run id, b.run id, moves-cons id 0 j i s);
}

-- The nodes of a minute's slot all go to the second wheel or run.
pub let_go_all-Moved :
    (f : ℕ) (s : Slot) (w : TimerWheel)
    → Waits s
    → length w.seconds ≡ 60
    → All Plain w.seconds
    → (w' : TimerWheel) × (let_go_all (suc (suc f)) s w ≡ some w') × Moved s w w'
unfolding let_go_all
let_go_all-Moved f [] w h size p = (
  w,
  refl,
  record {
    seconds_size = refl;
    plain = p;
    minutes = refl;
    hours = refl;
    days = refl;
    tick = refl;
    waiting = λ id k. omega arith;
    run = λ id. omega arith;
  },
)
let_go_all-Moved f (later j (user (once i)) ∷ s) w h size p =
    let one = after_one-Moved j i w h.0 size p in
    let (w', e, rest) =
      let_go_all-Moved f s (after_one j i w) h.1 (one.seconds_size ∙ size) one.plain in
    (w', rw (let_go_one f j i w h.0) e, Moved-cons j i s one rest)
let_go_all-Moved f (later j (user (every _ i)) ∷ s) w h size p = absurd h
let_go_all-Moved f (later j (later _ n) ∷ s) w h size p = absurd h
let_go_all-Moved f (user t ∷ s) w h size p = absurd h
