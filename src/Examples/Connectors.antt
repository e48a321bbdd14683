-- ===== src/Examples/Connectors.antt =====
-- src/net/Connector.cpp with a connector of an empty poller.
use protobase.Common.{◌≡◌, refl, true, false, List, [], ◌∷◌, ◌++◌}
use protobase.Common.Int.{pos}
use protobase.Poller.{no_channels}
use protobase.Connector.{Connector, create, attempted, in_progress, try_later}
use protobase.Connector.Retry.{refused, delays, refused-timers}
use protobase.Connector.Sockets.{Owned, Event, timer_runs, writes, happen, history, history-Owned}

-- To connect, with the first interval.
abbrev ready : Connector
ready = record (create 1 no_channels 1) { connect = true; has_callback = true }

seconds : delays 0 (pos 3 ∷ pos 4 ∷ pos 5 ∷ []) ≡ 1000 ∷ 2000 ∷ 4000 ∷ []
seconds = refl

refused-timers_example :
    (refused (pos 3 ∷ pos 4 ∷ pos 5 ∷ []) ready).timers
    ≡ ready.timers ++ delays 0 (pos 3 ∷ pos 4 ∷ pos 5 ∷ [])
unfolding create
refused-timers_example = refused-timers 0 (pos 3 ∷ pos 4 ∷ pos 5 ∷ []) ready refl refl

abbrev events : List Event
events =
    timer_runs (attempted (pos 3) try_later)
    ∷ timer_runs (attempted (pos 4) in_progress)
    ∷ writes false
    ∷ []

handed_over : (history events ready).handed ≡ pos 4 ∷ []
unfolding create happen
handed_over = refl

history-Owned_example : Owned (history events ready)
unfolding create happen
history-Owned_example = history-Owned events ready (λ x. refl) (refl, (refl, (tt, tt)))
