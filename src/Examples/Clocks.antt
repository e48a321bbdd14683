-- ===== src/Examples/Clocks.antt =====
-- src/net/EventLoop.cpp with timers of an empty poller.
use protobase.Common.{◌≡◌, refl, true, false, some, [], ◌∷◌}
use protobase.Common.Int.{pos, negsuc}
use protobase.Poller.{no_channels, enable_reading, disable_all, remove}
use protobase.EventLoop.Timers.{
  Timers, TimerChannel, no_timers, to_int, quotient, difference, add_timer, new_value, cancel,
  run_after, handle_timer_event, taken_down, take_down, delete,
}
use protobase.EventLoop.Timers.Lifetimes.{Sound}
use protobase.EventLoop.Timers.Runs.{Runs, done, sets_once, fires, Runs-cancel}

-- A timer of 50 milliseconds on descriptor 7.
abbrev one : Timers
one = add_timer 20 false 1 (pos 7, new_value (pos 50) (pos 0)) (no_timers no_channels)

one_runs : Runs (no_timers no_channels) one
unfolding run_after
one_runs =
    sets_once (pos 7) (pos 7) 20 (pos 50) 1 (no_timers no_channels) one one refl
      (λ k p h. absurd cc) refl (done one)

abbrev its_channel : TimerChannel
its_channel = record {
  channel =
      (enable_reading (record (protobase.Channel.create 20 (pos 7)) { has_read = true })
        no_channels).0;
  spec = new_value (pos 50) (pos 0);
  task = 1;
  repeat = false;
}

-- It runs, and its channel is gone.
abbrev after : Timers
after = taken_down 20 (λ c. c.fd) one its_channel

descriptor_closed : after.closed ≡ pos 7 ∷ []
unfolding add_timer enable_reading protobase.Channel.create delete disable_all remove
descriptor_closed = refl

runs : Runs (no_timers no_channels) after
unfolding run_after add_timer handle_timer_event take_down
runs =
    sets_once (pos 7) (pos 7) 20 (pos 50) 1 (no_timers no_channels) one after refl
      (λ k p h. absurd cc) refl
      (fires 20 its_channel one one after after refl (done one) (λ e. refl) refl (done after))

Runs-cancel_example : Sound after × ((t' : Timers) × (cancel (pos 7) after ≡ some t') × Sound t')
Runs-cancel_example = Runs-cancel no_channels (pos 7) runs

-- A time a second and a half ahead, and one that is past.
ahead : to_int (quotient (difference 4500000 3000000) 1000) ≡ pos 1500
ahead = refl

past : to_int (quotient (difference 3000000 4500000) 1000) ≡ negsuc 1499
past = refl
