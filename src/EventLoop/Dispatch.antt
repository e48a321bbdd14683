-- ===== src/EventLoop/Dispatch.antt =====
-- src/net/EventLoop.cpp, src/net/EpollPoller.cpp and src/net/Channel.cpp: a turn of `loop` over the
-- channels of timers, as they are in the store. The channel of a timer has a read callback and no
-- other.
pub mod Repeated
pub mod Dangling
use protobase.Common.{ℕ, Bool, ◌&&◌, ◌||◌, Option, some, List, [], ◌∷◌, if◌then◌else◌, ◌>>=◌}
use protobase.Channel.{Reported}
use protobase.EventLoop.Timers.{Timers, TimerChannel, set_object, handle_timer_event}

-- What `epoll_wait` returns.
pub data WaitResult : Type 0 where
  ready : List (ℕ × Reported) → WaitResult
  wait_failed : WaitResult

-- `setREvents` through the pointer that the kernel gives back.
unfoldable pub set_r_events : ℕ → Reported → Timers → Option Timers
set_r_events id e t = t.objects id >>= λ o.
    some (set_object id (some (record o { channel = record o.channel { reported = e } })) t)

unfoldable pub fill_active : List (ℕ × Reported) → Timers → Option (Timers × List ℕ)
unfolding set_r_events
fill_active [] t = some (t, [])
fill_active ((id, e) ∷ es) t =
    set_r_events id e t >>= λ t'. fill_active es t' >>= λ r. some (r.0, id ∷ r.1)

-- The active channels are cleared before.
unfoldable pub poll_timers : WaitResult → Timers → Option (Timers × List ℕ)
unfolding fill_active
poll_timers (ready es) t = fill_active es t
poll_timers wait_failed t = some (t, [])

abbrev pub is_read : Reported → Bool
is_read e = e.epoll_in || e.epoll_pri

-- The task runs in the loop's thread; `tasks` is what each does. `handleEventWithGuard` reads
-- `m_rEvents` once more behind the read callback.
unfoldable pub dispatch : (ℕ → Timers → Option Timers) → ℕ → Timers → Option Timers
unfolding handle_timer_event
dispatch tasks id t = t.objects id >>= λ o.
    (if is_read o.channel.reported && o.channel.has_read
      then handle_timer_event (tasks o.task) id o.repeat t
      else some t)
    >>= λ t'. t'.objects id >>= λ o'. some t'

unfoldable pub handle_active : (ℕ → Timers → Option Timers) → List ℕ → Timers → Option Timers
unfolding dispatch
handle_active tasks [] t = some t
handle_active tasks (id ∷ ids) t = dispatch tasks id t >>= λ t'. handle_active tasks ids t'

unfoldable pub turn : (ℕ → Timers → Option Timers) → WaitResult → Timers → Option Timers
unfolding poll_timers handle_active
turn tasks w t = poll_timers w t >>= λ r. handle_active tasks r.1 r.0
