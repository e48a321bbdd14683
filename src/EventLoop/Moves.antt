-- ===== src/EventLoop/Moves.antt =====
-- src/net/EventLoop.cpp: the moves of a loop and of the threads around it, in any order that the code
-- allows.
use protobase.Common.{ℕ, ◌<◌, ◌≡◌, ◌≢◌, Bool, true, false, List, [], ◌∷◌}
use protobase.EventLoop.{
  Loop, polling, handling, running, stopped, begin_loop, queue_outside, wake_outside, quit_outside,
  queue_inside, quit_inside, poll, read_event_fd, take_functors, run_functor, end_turn,
}

pub data Move : Type 0 where
  owner_queues : ℕ → Move
  loop_begins : Move
  thread_queues : ℕ → Move
  thread_quits : Move
  thread_wakes : Move
  poll_wakes : Move
  poll_returns : Move
  wakeup_read : Move
  handler_queues : ℕ → Move
  handler_quits : Move
  functors_taken : Move
  functor_queues : ℕ → Move
  functor_quits : Move
  functor_done : Move
  turn_ends : Move

unfoldable pub move : Move → Loop → Loop
unfolding begin_loop queue_outside wake_outside quit_outside queue_inside quit_inside poll
    read_event_fd take_functors run_functor end_turn
move (owner_queues x) l = queue_inside x l
move loop_begins l = begin_loop l
move (thread_queues x) l = queue_outside x l
move thread_quits l = quit_outside l
move thread_wakes l = wake_outside l
move poll_wakes l = poll true l
move poll_returns l = poll false l
move wakeup_read l = read_event_fd l
move (handler_queues x) l = queue_inside x l
move handler_quits l = quit_inside l
move functors_taken l = take_functors l
move (functor_queues x) l = queue_inside x l
move functor_quits l = quit_inside l
move functor_done l = run_functor l
move turn_ends l = end_turn l

-- Where the loop's thread has to be for a move of its own; a thread wakes the loop after its push.
-- The handlers, `readEventFd` among them, run before the functors are taken. A functor queues while it
-- runs, so before it is done.
abbrev pub Enabled : Move → Loop → Type 0
Enabled (owner_queues x) l = l.phase ≡ stopped
Enabled loop_begins l = l.phase ≡ stopped
Enabled (thread_queues x) l = Unit {0}
Enabled thread_quits l = Unit {0}
Enabled thread_wakes l = 0 < l.waking
Enabled poll_wakes l = (l.phase ≡ polling) × (0 < l.counter)
Enabled poll_returns l = l.phase ≡ polling
Enabled wakeup_read l = (l.phase ≡ handling) × (l.woken ≡ true)
Enabled (handler_queues x) l = l.phase ≡ handling
Enabled handler_quits l = l.phase ≡ handling
Enabled functors_taken l = (l.phase ≡ handling) × (l.woken ≡ false)
Enabled (functor_queues x) l = (l.phase ≡ running) × (l.remaining ≢ [])
Enabled functor_quits l = (l.phase ≡ running) × (l.remaining ≢ [])
Enabled functor_done l = (l.phase ≡ running) × (l.remaining ≢ [])
Enabled turn_ends l = (l.phase ≡ running) × (l.remaining ≡ [])

unfoldable pub run : List Move → Loop → Loop
unfolding move
run [] l = l
run (m ∷ ms) l = run ms (move m l)

abbrev pub Allowed : List Move → Loop → Type 0
Allowed [] l = Unit {0}
Allowed (m ∷ ms) l = Enabled m l × Allowed ms (move m l)

-- The loop's own thread queues a functor outside `loop()`.
abbrev pub is_early : Move → Bool
is_early (owner_queues x) = true
is_early loop_begins = false
is_early (thread_queues x) = false
is_early thread_quits = false
is_early thread_wakes = false
is_early poll_wakes = false
is_early poll_returns = false
is_early wakeup_read = false
is_early (handler_queues x) = false
is_early handler_quits = false
is_early functors_taken = false
is_early (functor_queues x) = false
is_early functor_quits = false
is_early functor_done = false
is_early turn_ends = false

abbrev pub NoneEarly : List Move → Type 0
NoneEarly [] = Unit {0}
NoneEarly (m ∷ ms) = (is_early m ≡ false) × NoneEarly ms
