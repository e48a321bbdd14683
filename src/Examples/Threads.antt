-- ===== src/Examples/Threads.antt =====
-- src/net/EventLoopThread.cpp with a loop at address 8.
use protobase.Common.{◌≡◌, refl, true, false, some, List, [], ◌∷◌, ◌++◌}
use protobase.LoopThread.{
  testing, returned, create, test_loop, Move, begins, tests, wakes, publishes, ends, run,
}
use protobase.LoopThread.Ending.{
  ready, looping, seen, joining, finished, Ending, enters, EndMove, quits, joins, end_moves,
}
use protobase.LoopThread.Ending.Joins.{at, wind_up, quit_lost, quit_heard}
use protobase.LoopThread.Handshake.{is_returned, run-returned, run-over}

-- The caller waits before the loop is there.
abbrev waits_first : List Move
waits_first = begins ∷ tests ∷ wakes ∷ tests ∷ publishes ∷ []

run-returned_example : (test_loop (run 8 waits_first create)).caller ≡ returned 8
unfolding run create
run-returned_example = run-returned 8 waits_first tt refl

-- A loop that quits at once, before the caller that it notified looks.
too_late :
    run 8 (begins ∷ tests ∷ publishes ∷ []) create
    ≡ record { event_loop = some 8; thread = protobase.LoopThread.looping; caller = testing }
unfolding run create
too_late = refl

run-over_example :
    is_returned
      (run 8 (ends ∷ tests ∷ wakes ∷ tests ∷ []) (record {
        event_loop = some 8;
        thread = protobase.LoopThread.looping;
        caller = testing;
      })).caller
    ≡ false
run-over_example = run-over 8 (tests ∷ wakes ∷ tests ∷ []) testing (some 8) refl

-- The destructor is quicker than `loop()`.
abbrev too_soon : List EndMove
too_soon = joins ∷ enters ∷ protobase.LoopThread.Ending.tests ∷ joins ∷ []

quit_lost_example :
    (s : Ending) × (end_moves (quits ∷ too_soon) (at ready seen false true) ≡ some s)
    × (s.destructor ≡ joining)
quit_lost_example = quit_lost too_soon false true

quit_heard_example :
    (s : Ending) × (end_moves (quits ∷ too_soon ++ wind_up) (at looping seen false true) ≡ some s)
    × (s.destructor ≡ finished)
quit_heard_example = quit_heard too_soon false true
