-- ===== src/EventLoop.antt =====
-- src/net/EventLoop.cpp: the functors that threads queue in a loop, and the wake-ups. A loop's turn is
-- `poll`, the handlers of the events that arrived, and `doPendingFunctors`. The eventfd is the counter
-- that eventfd(2) describes: a write adds, and a read takes it all. `poll` reports its channel only
-- while it is above 0. It may return without it at any time: for other channels, of which `epoll_wait`
-- reports no more than there is room for, or for a signal.
-- Another thread's `queueInLoop` is two moves, since the loop may run between its push under the lock
-- and its wake-up; `waking` counts the threads between the two. Functors are ids.
pub mod Moves
pub mod Wakeups
pub mod Turn
pub mod Timers
pub mod Dispatch
pub mod Life
use protobase.Common.{
  ℕ, suc, zero, ◌+◌, ◌-◌, Bool, true, false, not, ◌||◌, List, [], ◌∷◌, ◌++◌, if◌then◌else◌,
}

pub data Phase : Type 0 where
  polling : Phase
  handling : Phase
  running : Phase
  stopped : Phase

-- `stopped` is before `loop()` and behind it. `woken` is whether the wake-up channel is active and
-- `readEventFd` still to run; `remaining` is the local vector of `doPendingFunctors`. `queued` and
-- `ran` are logs.
pub record Loop : Type 0 where
  pub phase : Phase
  pub quit : Bool
  pub calling : Bool
  pub pending : List ℕ
  pub remaining : List ℕ
  pub counter : ℕ
  pub woken : Bool
  pub waking : ℕ
  pub queued : List ℕ
  pub ran : List ℕ

-- A new object.
abbrev pub created : Loop
created = record {
  phase = stopped;
  quit = false;
  calling = false;
  pending = [];
  remaining = [];
  counter = 0;
  woken = false;
  waking = 0;
  queued = [];
  ran = [];
}

-- The start of `loop()`, which resets `m_quit`.
unfoldable pub begin_loop : Loop → Loop
begin_loop l = record l { phase = polling; quit = false }

unfoldable pub wakeup : Loop → Loop
wakeup l = record l { counter = l.counter + 1 }

unfoldable pub read_event_fd : Loop → Loop
read_event_fd l = record l { counter = 0; woken = false }

abbrev pub push : ℕ → Loop → Loop
push x l = record l { pending = l.pending ++ x ∷ []; queued = l.queued ++ x ∷ [] }

-- The push of `queueInLoop` by another thread, which is to wake the loop next.
unfoldable pub queue_outside : ℕ → Loop → Loop
queue_outside x l = record (push x l) { waking = l.waking + 1 }

-- Its wake-up.
unfoldable pub wake_outside : Loop → Loop
unfolding wakeup
wake_outside l = wakeup (record l { waking = l.waking - 1 })

-- `queueInLoop` by the loop's own thread.
unfoldable pub queue_inside : ℕ → Loop → Loop
unfolding wakeup
queue_inside x l = if l.calling then wakeup (push x l) else push x l

-- `quit` by another thread, which is to wake the loop next.
unfoldable pub quit_outside : Loop → Loop
quit_outside l = record l { quit = true; waking = l.waking + 1 }

unfoldable pub quit_inside : Loop → Loop
quit_inside l = record l { quit = true }

-- `poll` returns, with the wake-up channel or without it.
unfoldable pub poll : Bool → Loop → Loop
poll wakes l = record l { phase = handling; woken = wakes }

-- The start of `doPendingFunctors`, up to the swap.
unfoldable pub take_functors : Loop → Loop
take_functors l = record l { phase = running; calling = true; remaining = l.pending; pending = [] }

-- One functor, after what it calls.
unfoldable pub run_functor : Loop → Loop
run_functor l = elim l.remaining [
  | [] ↦ l
  | x ∷ xs ↦ record l { remaining = xs; ran = l.ran ++ x ∷ [] }
]

-- The end of `doPendingFunctors`, and the test of the loop.
unfoldable pub end_turn : Loop → Loop
end_turn l = record l { calling = false; phase = if l.quit then stopped else polling }
