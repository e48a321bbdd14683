-- ===== src/Examples/Timers.antt =====
-- src/net/TimerWheel.cpp on a fresh wheel.
use protobase.Common.{
  ℕ, ◌+◌, ◌≡◌, refl, some, Option, List, [], ◌∷◌, ◌>>=◌, arith, replicate, if◌then◌else◌, ◌==◌, ltb,
}
use protobase.Common.Int.{ℤ, pos}
use protobase.TimerWheel.{TimerWheel, create, emplace, run_after, on_time, on_times}
use protobase.TimerWheel.Slots.{count, create-IsOnce}
use protobase.TimerWheel.Step.{Ticked, on_time-Ticked}
use protobase.TimerWheel.Schedule.{due_tick, timer_runs_once}
use protobase.TimerWheel.Faults.{long_timer_never_runs}

-- What ran after `n` ticks on a wheel with one timer.
abbrev after : ℕ → ℤ → Option (List ℕ)
after n delay =
    run_after 2 delay 7 create >>= λ w. on_times 2 (replicate n 0) w >>= λ u. some u.fired

-- A timer of three seconds runs at the third tick.
three : after 3 (pos 3) ≡ some (7 ∷ [])
unfolding run_after on_times create emplace
three = refl

two_of_three : after 2 (pos 3) ≡ some []
unfolding run_after on_times create emplace
two_of_three = refl

-- One of a minute and two seconds, at tick 62.
minute : after 62 (pos 62) ≡ some (7 ∷ [])
unfolding run_after on_times create emplace
minute = refl

before_minute : after 61 (pos 62) ≡ some []
unfolding run_after on_times create emplace
before_minute = refl

on_time-Ticked_example : (w' : TimerWheel) × (on_time 2 9 create ≡ some w') × Ticked create w'
unfolding create
on_time-Ticked_example = on_time-Ticked 0 9 create-IsOnce (omega arith)

-- A timer of 90 seconds that is set at tick 59 is due at tick 90, after 31 seconds.
early : due_tick 59 90 ≡ 90
unfolding due_tick
early = refl

timer_runs_once_example :
    (w' u u' : TimerWheel) × (run_after 0 (pos 2) 7 create ≡ some w')
    × (on_times 2 (1 ∷ 2 ∷ []) create ≡ some u)
    × (on_times 2 (1 ∷ 2 ∷ []) w' ≡ some u')
    × ((j : ℕ)
        → count j u'.fired
          ≡ count j u.fired + (if 7 == j then (if ltb 2 (due_tick 0 2) then 0 else 1) else 0))
unfolding create
timer_runs_once_example =
    timer_runs_once 0 2 7 (1 ∷ 2 ∷ []) create-IsOnce (omega arith) (omega arith) (omega arith)

long_timer_never_runs_example :
    (w' u u' : TimerWheel) × (run_after 0 (pos 7200) 7 create ≡ some w')
    × (on_times 2 (1 ∷ 2 ∷ []) create ≡ some u)
    × (on_times 2 (1 ∷ 2 ∷ []) w' ≡ some u')
    × ((j : ℕ) → count j u'.fired ≡ count j u.fired)
unfolding create
long_timer_never_runs_example =
    long_timer_never_runs 0 7200 7 (1 ∷ 2 ∷ []) create-IsOnce (omega arith) (omega arith)
      (omega arith)
