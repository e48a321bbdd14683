-- ===== src/LoopThread/Ending.antt =====
-- src/net/EventLoopThread.cpp: the destructor in one thread, and the end of `threadFunc` in the
-- other, once that one has its loop. `quit` of the loop is src/net/EventLoop.cpp's. A move is what
-- a thread does between two points where the other may go on; the moves may come in any order, and
-- a move that a thread cannot make changes nothing.
pub mod Joins
use protobase.Common.{Bool, true, false, Option, none, some, List, [], ◌∷◌, if◌then◌else◌, ◌>>=◌}

-- Where `threadFunc` is: the loop is set but `loop()` has not begun, it runs, it has returned, or
-- the function is over, and the loop with it.
pub data Runner : Type 0 where
  ready : Runner
  looping : Runner
  stopping : Runner
  over : Runner

-- Where the destructor is: before the test of `m_eventLoop`, behind it, in `join`, or at its end.
pub data Destructor : Type 0 where
  before : Destructor
  seen : Destructor
  joining : Destructor
  finished : Destructor

-- `quit` is the loop's `m_quit`, `loop_set` whether `m_eventLoop` is not null.
pub record Ending : Type 0 where
  pub runner : Runner
  pub destructor : Destructor
  pub quit : Bool
  pub loop_set : Bool
  pub exiting : Bool

-- `loop()` begins, which resets `m_quit`.
unfoldable pub enter : Ending → Ending
enter s = elim s.runner [
  | ready ↦ record s { runner = looping; quit = false }
  | looping ↦ s
  | stopping ↦ s
  | over ↦ s
]

-- The test of the loop's `while`.
unfoldable pub test_quit : Ending → Ending
test_quit s = elim s.runner [
  | ready ↦ s
  | looping ↦ if s.quit then record s { runner = stopping } else s
  | stopping ↦ s
  | over ↦ s
]

-- The end of `threadFunc`, under the mutex; its loop is destroyed.
unfoldable pub clear_loop : Ending → Ending
clear_loop s = elim s.runner [
  | ready ↦ s
  | looping ↦ s
  | stopping ↦ record s { runner = over; loop_set = false }
  | over ↦ s
]

-- The destructor's test, without the mutex.
unfoldable pub look : Ending → Ending
look s = elim s.destructor [
  | before ↦ record s { exiting = true; destructor = if s.loop_set then seen else finished }
  | seen ↦ s
  | joining ↦ s
  | finished ↦ s
]

-- `quit()` of the loop that it saw; of one that is gone, a fault.
unfoldable pub quit_loop : Ending → Option Ending
quit_loop s = elim s.destructor [
  | before ↦ some s
  | seen ↦ elim s.runner [
    | ready ↦ some (record s { quit = true; destructor = joining })
    | looping ↦ some (record s { quit = true; destructor = joining })
    | stopping ↦ some (record s { quit = true; destructor = joining })
    | over ↦ none
  ]
  | joining ↦ some s
  | finished ↦ some s
]

-- `join` returns once the other thread is over.
unfoldable pub join : Ending → Ending
join s = elim s.destructor [
  | before ↦ s
  | seen ↦ s
  | joining ↦ elim s.runner [
    | ready ↦ s
    | looping ↦ s
    | stopping ↦ s
    | over ↦ record s { destructor = finished }
  ]
  | finished ↦ s
]

pub data EndMove : Type 0 where
  enters : EndMove
  tests : EndMove
  clears : EndMove
  looks : EndMove
  quits : EndMove
  joins : EndMove

unfoldable pub end_move : EndMove → Ending → Option Ending
unfolding enter test_quit clear_loop look quit_loop join
end_move enters s = some (enter s)
end_move tests s = some (test_quit s)
end_move clears s = some (clear_loop s)
end_move looks s = some (look s)
end_move quits s = quit_loop s
end_move joins s = some (join s)

unfoldable pub end_moves : List EndMove → Ending → Option Ending
unfolding end_move
end_moves [] s = some s
end_moves (m ∷ ms) s = end_move m s >>= λ s'. end_moves ms s'
