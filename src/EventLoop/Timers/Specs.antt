-- ===== src/EventLoop/Timers/Specs.antt =====
-- src/net/EventLoop.cpp: the times given to `timerfd_settime`.
use protobase.Common.{ℕ, ◌+◌, ◌*◌, ◌/◌, ◌%◌, ◌<◌, ◌≡◌, refl, arith}
use protobase.Common.Int.{pos}
use protobase.EventLoop.Timers.{new_value}

-- A first time and an interval in milliseconds, neither below zero, become seconds and nanoseconds that
-- are the same times, with less than a second in the nanoseconds; so a time of zero becomes zero in both,
-- and no other time does.
new_value-times :
    (m n : ℕ)
    → (s : ℕ) × (ns : ℕ) × (i : ℕ) × (ins : ℕ) × (new_value (pos m) (pos n) ≡ record {
      value_sec = pos s;
      value_nsec = pos ns;
      interval_sec = pos i;
      interval_nsec = pos ins;
    })
      × (s * 1000000000 + ns ≡ m * 1000000)
      × (ns < 1000000000)
      × (i * 1000000000 + ins ≡ n * 1000000)
      × (ins < 1000000000)
unfolding new_value
new_value-times m n = (
  m / 1000,
  m % 1000 * 1000000,
  n / 1000,
  n % 1000 * 1000000,
  refl,
  omega arith,
  omega arith,
  omega arith,
  omega arith,
)
