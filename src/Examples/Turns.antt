-- ===== src/Examples/Turns.antt =====
-- src/net/EventLoop.cpp: turns of a loop with timers.
use protobase.Common.{
  ℕ, ◌≡◌, refl, sym, ap, true, false, Option, none, some, some_inj, List, [], ◌∷◌, ◌++◌, map, inl,
  inr, ◌∙◌,
}
use protobase.Common.Int.{pos}
use protobase.Channel.{Reported, nothing_reported}
use protobase.Poller.{no_channels, enable_reading}
use protobase.EventLoop.Timers.{Timers, no_timers, add_timer, new_value}
use protobase.EventLoop.Dispatch.{
  ready, fill_active, set_r_events, poll_timers, turn, handle_active,
}
use protobase.EventLoop.Dispatch.Repeated.{
  Fired, report, address, its_task, run_tasks, AllRepeat, KeepTimers, turn-repeated,
}
use protobase.EventLoop.Dispatch.Dangling.{Due, Doomed, one_shot_dangles}

abbrev readable : Reported
readable = record nothing_reported { epoll_in = true }

-- Two repeated timers, and one that runs once.
abbrev timers : Timers
timers =
    add_timer 22 false 3 (pos 9, new_value (pos 5) (pos 0))
      (add_timer 21 true 2 (pos 8, new_value (pos 50) (pos 50))
        (add_timer 20 true 1 (pos 7, new_value (pos 10) (pos 10)) (no_timers no_channels)))

-- Each task leaves its number in a list.
abbrev log_tasks : ℕ → Timers → Option Timers
log_tasks n t = some (record t { closed = t.closed ++ pos n ∷ [] })

log_tasks-KeepTimers : KeepTimers log_tasks
log_tasks-KeepTimers n s s' k o e here = sym (ap (λ (t : Timers). t.objects k) (some_inj e)) ∙ here

abbrev fired : List Fired
fired =
    record { id = 21; events = readable; number = 2 }
    ∷ record { id = 20; events = readable; number = 1 }
    ∷ []

fired-AllRepeat : AllRepeat fired timers
unfolding add_timer enable_reading protobase.Channel.create
fired-AllRepeat = (
  (_, refl, record { repeats = refl; is_set = refl; number = refl }),
  refl,
  ((_, refl, record { repeats = refl; is_set = refl; number = refl }), refl, tt),
)

turn-repeated_example :
    (t' : Timers) × (poll_timers (ready (map report fired)) timers ≡ some (t', map address fired))
    × (turn log_tasks (ready (map report fired)) timers
        ≡ run_tasks log_tasks (map its_task fired) t')
turn-repeated_example = turn-repeated log_tasks log_tasks-KeepTimers fired timers fired-AllRepeat

-- The store once `poll` has found the one-shot timer too.
abbrev polled : Timers
unfolding fill_active
polled = elim (fill_active ((20, readable) ∷ (22, readable) ∷ (21, readable) ∷ []) timers) [
  | none ↦ timers
  | some r ↦ r.0
]

due : Due 22 polled
unfolding fill_active set_r_events add_timer enable_reading protobase.Channel.create polled
due = record { timer = _; here = refl; once = refl; reads = refl }

log_tasks-Doomed : (n : ℕ) (s s' : Timers) → Doomed 22 s → log_tasks n s ≡ some s' → Doomed 22 s'
log_tasks-Doomed n s s' (inl gone) e =
    inl (sym (ap (λ (t : Timers). t.objects 22) (some_inj e)) ∙ gone)
log_tasks-Doomed n s s' (inr d) e = inr (record {
  timer = d.timer;
  here = log_tasks-KeepTimers n s s' 22 d.timer e d.here;
  once = d.once;
  reads = d.reads;
})

one_shot_dangles_example : handle_active log_tasks (20 ∷ 22 ∷ 21 ∷ []) polled ≡ none
one_shot_dangles_example =
    one_shot_dangles log_tasks 22 (20 ∷ []) (21 ∷ []) polled due log_tasks-Doomed
