-- ===== src/Examples/Lives.antt =====
-- src/net/EventLoop.cpp: a thread that makes two loops, one after the other.
use protobase.Common.{◌≡◌, refl, true, false, none, some, List, [], ◌∷◌, ◌⊎◌}
use protobase.Common.Int.{pos}
use protobase.Poller.{
  no_channels, enable_reading, disable_all, remove, update_channel, remove_channel,
}
use protobase.EventLoop.Life.{
  Outcome, LoopOwner, left, faulted, made, make_loop, new_default_poller, with_event_fd,
  register_wake, destroy_loop,
}
use protobase.EventLoop.Life.Lives.{
  LifeMove, makes, serves, destroys, live, fresh, Leads, Sound, live-Sound,
}

abbrev twice : List LifeMove
twice =
    makes false (pos 3) 100 (pos 4)
    ∷ serves no_channels
    ∷ destroys
    ∷ makes false (pos 5) 200 (pos 6)
    ∷ []

abbrev closed_by : Outcome → List protobase.Common.Int.ℤ
closed_by left = []
closed_by faulted = []
closed_by (made o) = o.closed

first_closed : closed_by (live twice fresh) ≡ pos 4 ∷ pos 3 ∷ []
unfolding live make_loop new_default_poller with_event_fd register_wake destroy_loop enable_reading
    disable_all remove update_channel remove_channel protobase.Channel.create
    protobase.EventLoop.Life.wake_channel protobase.EventLoop.Life.unregistered
first_closed = refl

no_poller : live (makes true (pos 3) 100 (pos 4) ∷ []) fresh ≡ faulted
unfolding live make_loop new_default_poller with_event_fd register_wake
no_poller = refl

live-Sound_example :
    Leads
      (λ o. Sound o × ((make_loop false (pos 7) 300 (pos 8) o ≡ left) ⊎ (o.loop ≡ none)))
      (live twice fresh)
live-Sound_example = live-Sound twice false (pos 7) 300 (pos 8) tt
