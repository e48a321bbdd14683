-- ===== src/LoopThread.antt =====
-- src/net/EventLoopThread.h and src/net/EventLoopThread.cpp: `startLoop` in one thread and
-- `threadFunc` in the one that it starts. A move is what a thread does while it holds the mutex, or
-- between two times that it holds it. A wait on the condition variable ends when it is notified or
-- by itself, and a notification that nobody waits for is lost. The loop is its address; its own
-- life is a move.
pub mod Handshake
pub mod Ending
use protobase.Common.{ℕ, Option, none, some, List, [], ◌∷◌}

-- Where `threadFunc` is.
pub data Thread : Type 0 where
  not_started : Thread
  starting : Thread
  looping : Thread
  ended : Thread

-- Where `startLoop` is: before its start, at the test of the loop, in the wait, or returned.
pub data Caller : Type 0 where
  before : Caller
  testing : Caller
  waiting : Caller
  returned : ℕ → Caller

pub record LoopThread : Type 0 where
  pub event_loop : Option ℕ
  pub thread : Thread
  pub caller : Caller

unfoldable pub create : LoopThread
create = record { event_loop = none; thread = not_started; caller = before }

unfoldable pub begin_thread : LoopThread → LoopThread
begin_thread t = elim t.thread [
  | not_started ↦ record t { thread = starting; caller = testing }
  | starting ↦ t
  | looping ↦ t
  | ended ↦ t
]

-- The test of the `while`, and the wait.
abbrev pub tested : Option ℕ → Caller
tested none = waiting
tested (some l) = returned l

unfoldable pub test_loop : LoopThread → LoopThread
test_loop t = elim t.caller [
  | before ↦ t
  | testing ↦ record t { caller = tested t.event_loop }
  | waiting ↦ t
  | returned l ↦ t
]

-- The end of a wait.
abbrev pub woken : Caller → Caller
woken before = before
woken testing = testing
woken waiting = testing
woken (returned l) = returned l

unfoldable pub wake_up : LoopThread → LoopThread
wake_up t = record t { caller = woken t.caller }

-- The thread's loop is ready: it is set and the caller is notified.
unfoldable pub publish : ℕ → LoopThread → LoopThread
publish l t = elim t.thread [
  | not_started ↦ t
  | starting ↦ record { event_loop = some l; thread = looping; caller = woken t.caller }
  | looping ↦ t
  | ended ↦ t
]

-- The loop has returned.
unfoldable pub end_thread : LoopThread → LoopThread
end_thread t = elim t.thread [
  | not_started ↦ t
  | starting ↦ t
  | looping ↦ record t { event_loop = none; thread = ended }
  | ended ↦ t
]

pub data Move : Type 0 where
  begins : Move
  tests : Move
  wakes : Move
  publishes : Move
  ends : Move

unfoldable pub move : ℕ → Move → LoopThread → LoopThread
unfolding begin_thread test_loop wake_up publish end_thread
move l begins t = begin_thread t
move l tests t = test_loop t
move l wakes t = wake_up t
move l publishes t = publish l t
move l ends t = end_thread t

unfoldable pub run : ℕ → List Move → LoopThread → LoopThread
unfolding move
run l [] t = t
run l (m ∷ ms) t = run l ms (move l m t)
