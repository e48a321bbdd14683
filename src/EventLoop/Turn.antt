-- ===== src/EventLoop/Turn.antt =====
-- src/net/EventLoop.cpp: one turn of the loop that nothing disturbs, when it is woken.
use protobase.Common.{
  ℕ, ◌≡◌, ◌≢◌, ◌∙◌, refl, sym, ap, false, List, [], ◌∷◌, ◌++◌, append_assoc, append-nil, ◌<◌, true,
  if◌then◌else◌,
}
use protobase.EventLoop.{
  Loop, created, read_event_fd, polling, running, stopped, poll, take_functors, run_functor,
  end_turn,
}
use protobase.EventLoop.Moves.{
  Move, NoneEarly, poll_wakes, wakeup_read, functors_taken, functor_done, turn_ends, move, run,
  Allowed,
}
use protobase.EventLoop.Wakeups.{no_lost_wakeup}

-- Each functor, and the end of the turn.
abbrev pub rest_of_turn : List ℕ → List Move
rest_of_turn [] = turn_ends ∷ []
rest_of_turn (x ∷ xs) = functor_done ∷ rest_of_turn xs

abbrev pub turn : Loop → List Move
turn l = poll_wakes ∷ wakeup_read ∷ functors_taken ∷ rest_of_turn l.pending

-- The loop after its turn.
abbrev pub turned : Loop → List ℕ → Loop
turned l xs = record l {
  phase = if l.quit then stopped else polling;
  calling = false;
  remaining = [];
  ran = l.ran ++ xs;
}

pub cons≢nil : (x : ℕ) (xs : List ℕ) → x ∷ xs ≢ []
cons≢nil x xs h = cc

run-rest_of_turn :
    (xs : List ℕ) (l : Loop)
    → l.phase ≡ running
    → Allowed (rest_of_turn xs) (record l { remaining = xs })
      × (run (rest_of_turn xs) (record l { remaining = xs }) ≡ turned l xs)
unfolding run move run_functor end_turn
run-rest_of_turn [] l e =
    (((e, refl), tt), ap (λ r. record (turned l []) { ran = r }) (sym (append-nil l.ran)))
run-rest_of_turn (x ∷ xs) l e =
    let rest = run-rest_of_turn xs (record l { ran = l.ran ++ x ∷ [] }) e in
    (
      ((e, cons≢nil x xs), rest.0),
      rest.1 ∙ ap (λ r. record (turned l []) { ran = r }) (append_assoc l.ran (x ∷ []) xs),
    )

turn_of :
    (l : Loop)
    → l.phase ≡ polling
    → 0 < l.counter
    → Allowed (turn l) l
      × (run (turn l) l ≡ turned (record l { pending = []; counter = 0; woken = false }) l.pending)
unfolding run move poll read_event_fd take_functors
turn_of l e up =
    let rest = run-rest_of_turn l.pending (take_functors (read_event_fd (poll true l))) refl in
    (((e, up), ((refl, refl), ((refl, refl), rest.0))), rest.1)

-- A loop that polls with functors pending, after any moves that the code allows, has a turn, if no
-- thread is about to wake it: `poll` returns for the wake-up channel, `readEventFd` takes the
-- counter, and every pending functor runs, in order, where no other thread, handler or functor
-- disturbs; the loop then polls again with nothing pending and the counter at 0, or stops if it is
-- to quit. Its own thread queues nothing outside `loop()`.
pub run-turn :
    (ms : List Move)
    → Allowed ms created
    → NoneEarly ms
    → (run ms created).phase ≡ polling
    → (run ms created).pending ≢ []
    → (run ms created).waking ≡ 0
    → Allowed (turn (run ms created)) (run ms created)
      × (run (turn (run ms created)) (run ms created)
          ≡ turned
              (record (run ms created) { pending = []; counter = 0; woken = false })
              (run ms created).pending)
run-turn ms ok none e some_pending idle =
    turn_of (run ms created) e (no_lost_wakeup ms ok none e some_pending idle)
