-- ===== src/Examples/Loops.antt =====
-- src/net/EventLoop.cpp with two functors.
use protobase.Common.{false, ◌<◌, ◌≡◌, refl, List, [], ◌∷◌, ◌++◌, arith}
use protobase.EventLoop.{created}
use protobase.EventLoop.Moves.{
  Move, NoneEarly, loop_begins, poll_wakes, owner_queues, thread_queues, thread_wakes, wakeup_read,
  functors_taken, functor_queues, functor_done, turn_ends, run, Allowed,
}
use protobase.EventLoop.Wakeups.{queued_in_order, no_lost_wakeup}
use protobase.EventLoop.Turn.{cons≢nil, turn, turned, run-turn}

-- Functor 7 comes from another thread, and queues 8 while it runs.
abbrev moves : List Move
moves =
    thread_queues 7
    ∷ loop_begins
    ∷ thread_wakes
    ∷ poll_wakes
    ∷ wakeup_read
    ∷ functors_taken
    ∷ functor_queues 8
    ∷ functor_done
    ∷ turn_ends
    ∷ []

waits :
    ((run moves created).ran ≡ 7 ∷ [])
    × ((run moves created).pending ≡ 8 ∷ [])
    × ((run moves created).counter ≡ 1)
unfolding run
waits = (refl, refl, refl)

moves-Allowed : Allowed moves created
unfolding run
moves-Allowed = (
  tt,
  (
    refl,
    (
      omega arith,
      (
        (refl, omega arith),
        (
          (refl, refl),
          ((refl, refl), ((refl, cons≢nil 7 []), ((refl, cons≢nil 7 []), ((refl, refl), tt)))),
        ),
      ),
    ),
  ),
)

moves-NoneEarly : NoneEarly moves
moves-NoneEarly = (refl, (refl, (refl, (refl, (refl, (refl, (refl, (refl, (refl, tt)))))))))

-- A functor of the loop's own thread, before `loop()`: it polls with nothing to wake it.
queued_early :
    ((run (owner_queues 7 ∷ loop_begins ∷ []) created).pending ≡ 7 ∷ [])
    × ((run (owner_queues 7 ∷ loop_begins ∷ []) created).counter ≡ 0)
unfolding run
queued_early = (refl, refl)

queued_in_order_example :
    (run moves created).queued
    ≡ (run moves created).ran ++ ((run moves created).remaining ++ (run moves created).pending)
queued_in_order_example = queued_in_order moves moves-Allowed

no_lost_wakeup_example : 0 < (run moves created).counter
unfolding run
no_lost_wakeup_example =
    no_lost_wakeup moves moves-Allowed moves-NoneEarly refl (cons≢nil 8 []) refl

run-turn_example :
    Allowed (turn (run moves created)) (run moves created)
    × (run (turn (run moves created)) (run moves created)
        ≡ turned
            (record (run moves created) { pending = []; counter = 0; woken = false })
            (run moves created).pending)
unfolding run
run-turn_example = run-turn moves moves-Allowed moves-NoneEarly refl (cons≢nil 8 []) refl
