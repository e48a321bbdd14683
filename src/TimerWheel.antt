-- ===== src/TimerWheel.antt =====
-- src/net/TimerWheel.h and src/net/TimerWheel.cpp. A `NodeTask` runs when its last owner lets it go.
-- Modelled are nodes with one owner: those of `runAfter` and `runEvery`, and the nodes that the
-- code makes to move another node to a finer wheel. What a user's task does is its entry in a log
-- of task ids, so tasks do not call the wheel themselves. A slot is an `unordered_set`; its nodes
-- are let go in the order of the list, and the theorems speak of counts only.
pub mod Slots
pub mod Schedule
pub mod Release
pub mod Step
pub mod Faults
use protobase.Common.{
  ℕ, zero, suc, ◌+◌, ◌-◌, ◌*◌, ◌/◌, ◌%◌, ◌^◌, Option, none, some, List, [], ◌∷◌, ◌++◌, Bool,
  if◌then◌else◌, ltb, ◌==◌, ◌>>=◌, replicate, set,
}
use protobase.Common.Int.{ℤ, pos, negsuc}

abbrev pub seconds_per_minute : ℕ
seconds_per_minute = 60

abbrev pub seconds_per_hour : ℕ
seconds_per_hour = 3600

abbrev pub seconds_per_day : ℕ
seconds_per_day = 86400

-- The closures of `runAfter` and `runEvery`, with the id of the user's task. The interval is the
-- `uint32_t` that `insertNode` is given.
pub data Task : Type 0 where
  once : ℕ → Task
  every : ℕ → ℕ → Task

-- A `NodeTask` by what its destructor runs: a task, or `insertNode(second, node)`.
pub data Node : Type 0 where
  user : Task → Node
  later : ℕ → Node → Node

abbrev pub Slot : Type 0
Slot = List Node

abbrev pub Wheel : Type 0
Wheel = List Slot

pub record TimerWheel : Type 0 where
  pub seconds : Wheel
  pub minutes : Wheel
  pub hours : Wheel
  pub days : Wheel
  pub last_time : ℕ
  pub tick : ℕ
  pub fired : List ℕ

unfoldable pub create : TimerWheel
create = record {
  seconds = replicate 60 [];
  minutes = replicate 60 [];
  hours = replicate 24 [];
  days = replicate 30 [];
  last_time = 0;
  tick = 0;
  fired = [];
}

-- `wheel[index].emplace(node)`; an index out of range, which `Slots` rules out, changes nothing.
unfoldable pub emplace : ℕ → Node → Wheel → Wheel
emplace i n [] = []
emplace zero n (s ∷ w) = (s ++ n ∷ []) ∷ w
emplace (suc i) n (s ∷ w) = s ∷ emplace i n w

unfoldable pub insert_second_node : ℕ → Node → TimerWheel → TimerWheel
insert_second_node delay n w = record w { seconds = emplace (delay - 1) n w.seconds }

unfoldable pub insert_minute_node : ℕ → Node → TimerWheel → TimerWheel
insert_minute_node delay n w = record w {
  minutes =
      emplace (delay / seconds_per_minute - 1) (later (delay % seconds_per_minute) n) w.minutes;
}

unfoldable pub insert_hour_node : ℕ → Node → TimerWheel → TimerWheel
insert_hour_node delay n w = record w {
  hours = emplace (delay / seconds_per_hour - 1) (later (delay % seconds_per_hour) n) w.hours;
}

unfoldable pub insert_day_node : ℕ → Node → TimerWheel → TimerWheel
insert_day_node delay n w = record w {
  days = emplace (delay / seconds_per_day - 1) (later (delay % seconds_per_day) n) w.days;
}

-- `insertNode`: the wheel that keeps the node, or `none` where no wheel keeps it.
unfoldable pub insert_node : ℕ → Node → TimerWheel → Option TimerWheel
unfolding insert_second_node insert_minute_node insert_hour_node insert_day_node
insert_node delay n w =
    if delay == 0
    then none
    else (if ltb delay seconds_per_minute
        then some (insert_second_node delay n w)
        else (if ltb delay seconds_per_hour
            then some (insert_minute_node delay n w)
            else (if ltb delay seconds_per_day
                then some (insert_hour_node delay n w)
                else (if ltb 30 (delay / seconds_per_day)
                    then none
                    else some (insert_day_node delay n w)))))

-- `~NodeTask()`. A node that `insertNode` does not keep is let go in its turn, which the fuel
-- bounds: `none` is fuel that ran out.
unfoldable pub let_go : ℕ → Node → TimerWheel → Option TimerWheel
unfolding insert_node
let_go zero n w = none
let_go (suc f) (user (once id)) w = some (record w { fired = w.fired ++ id ∷ [] })
let_go (suc f) (user (every interval id)) w =
    elim (insert_node interval (user (every interval id))
      (record w { fired = w.fired ++ id ∷ [] })) [
        | some w' ↦ some w'
        | none ↦ let_go f (user (every interval id)) (record w { fired = w.fired ++ id ∷ [] })
      ]
let_go (suc f) (later second n) w = elim (insert_node second n w) [
  | some w' ↦ some w'
  | none ↦ let_go f n w
]

-- The destructor of a slot.
unfoldable pub let_go_all : ℕ → Slot → TimerWheel → Option TimerWheel
unfolding let_go
let_go_all f [] w = some w
let_go_all f (n ∷ s) w = let_go f n w >>= let_go_all f s

-- `insertNode` by a caller that holds the only other reference and drops it.
unfoldable pub schedule : ℕ → ℕ → Node → TimerWheel → Option TimerWheel
unfolding insert_node let_go
schedule f delay n w = elim (insert_node delay n w) [ some w' ↦ some w' | none ↦ let_go f n w ]

-- The conversion of `int` to `uint32_t`.
unfoldable pub to_u32 : ℤ → ℕ
to_u32 (pos n) = n % 2 ^ 32
to_u32 (negsuc n) = 2 ^ 32 - 1 - n % 2 ^ 32

unfoldable pub run_after : ℕ → ℤ → ℕ → TimerWheel → Option TimerWheel
unfolding schedule to_u32
run_after f delay id w = schedule f (to_u32 delay) (user (once id)) w

unfoldable pub run_every : ℕ → ℤ → ℕ → TimerWheel → Option TimerWheel
unfolding schedule to_u32
run_every f interval id w = schedule f (to_u32 interval) (user (every (to_u32 interval) id)) w

-- `popUp`, in its two parts: the front slot, and the wheel with it gone and an empty slot behind.
abbrev pub front : Wheel → Slot
front [] = []
front (s ∷ w) = s

abbrev pub rotated : Wheel → Wheel
rotated [] = [] ∷ []
rotated (s ∷ w) = w ++ [] ∷ []

unfoldable pub pop_seconds : ℕ → TimerWheel → Option TimerWheel
unfolding let_go_all
pop_seconds f w = let_go_all f (front w.seconds) (record w { seconds = rotated w.seconds })

unfoldable pub pop_minutes : ℕ → TimerWheel → Option TimerWheel
unfolding let_go_all
pop_minutes f w = let_go_all f (front w.minutes) (record w { minutes = rotated w.minutes })

unfoldable pub pop_hours : ℕ → TimerWheel → Option TimerWheel
unfolding let_go_all
pop_hours f w = let_go_all f (front w.hours) (record w { hours = rotated w.hours })

unfoldable pub pop_days : ℕ → TimerWheel → Option TimerWheel
unfolding let_go_all
pop_days f w = let_go_all f (front w.days) (record w { days = rotated w.days })

-- The chain of tests after the second wheel. The tick is a `uint64_t`.
unfoldable pub pop_coarse : ℕ → ℕ → TimerWheel → Option TimerWheel
unfolding pop_minutes pop_hours pop_days
pop_coarse f tick w =
    if tick % seconds_per_minute == 0
    then pop_minutes f w
    else (if tick % seconds_per_hour == 0
        then pop_hours f w
        else (if tick % seconds_per_day == 0 then pop_days f w else some w))

unfoldable pub on_time : ℕ → ℕ → TimerWheel → Option TimerWheel
unfolding pop_seconds pop_coarse
on_time f now w =
    pop_seconds f (record w { last_time = now; tick = (w.tick + 1) % 2 ^ 64 })
    >>= pop_coarse f ((w.tick + 1) % 2 ^ 64)

-- One call of `onTime` for each of the times.
unfoldable pub on_times : ℕ → List ℕ → TimerWheel → Option TimerWheel
unfolding on_time
on_times f [] w = some w
on_times f (now ∷ rest) w = on_time f now w >>= on_times f rest
