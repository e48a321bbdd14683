-- ===== src/EventLoop/Timers.antt =====
-- src/net/EventLoop.cpp: the timers of a loop, in its thread. The channels are a store by address, since
-- the code deletes them by hand: an access to one that is not there is a fault (none). What
-- `timerfd_create` answers and the address of a new channel are arguments, and so is what a task does
-- to the timers. A null pointer in the table is `some none`.
pub mod Lifetimes
pub mod Runs
pub mod Specs
use protobase.Common.{
  ℕ, zero, suc, ◌+◌, ◌*◌, ◌/◌, ◌%◌, Bool, true, false, Option, none, some, List, [], ◌∷◌, ◌++◌,
  if◌then◌else◌, ◌==◌, ◌>>=◌, ◌-◌, ◌^◌, leb, ltb,
}
use protobase.Common.Int.{ℤ, pos, negsuc, same}
use protobase.Channel.{Channel}
use protobase.Socket.{above_zero}
use protobase.Poller.{Poller, enable_reading, disable_all, remove}

-- `itimerspec`, each field.
pub record Spec : Type 0 where
  pub value_sec : ℤ
  pub value_nsec : ℤ
  pub interval_sec : ℤ
  pub interval_nsec : ℤ

-- `task` is the number of the task.
pub record TimerChannel : Type 0 where
  pub channel : Channel
  pub spec : Spec
  pub task : ℕ
  pub repeat : Bool

-- `table` is `m_timerChannels`, `closed` the descriptors that were closed.
pub record Timers : Type 0 where
  pub poller : Poller
  pub objects : ℕ → Option TimerChannel
  pub table : ℤ → Option (Option ℕ)
  pub closed : List ℤ

abbrev pub no_timers : Poller → Timers
no_timers p = record { poller = p; objects = λ id. none; table = λ fd. none; closed = [] }

abbrev pub set_object : ℕ → Option TimerChannel → Timers → Timers
set_object id o t = record t { objects = λ k. if k == id then o else t.objects k }

abbrev pub set_entry : ℤ → Option (Option ℕ) → Timers → Timers
set_entry fd e t = record t { table = λ k. if same k fd then e else t.table k }

abbrev minus : ℕ → ℤ
minus zero = pos zero
minus (suc n) = negsuc n

-- Division on `int64_t`, which drops the fraction.
abbrev pub quotient : ℤ → ℕ → ℤ
quotient (pos n) d = pos (n / d)
quotient (negsuc n) d = minus (suc n / d)

-- The remainder, times a factor.
abbrev pub remainder : ℤ → ℕ → ℕ → ℤ
remainder (pos n) d f = pos (n % d * f)
remainder (negsuc n) d f = minus (suc n % d * f)

unfoldable pub new_value : ℤ → ℤ → Spec
new_value initial_ms interval_ms = record {
  value_sec = quotient initial_ms 1000;
  value_nsec = remainder initial_ms 1000 1000000;
  interval_sec = quotient interval_ms 1000;
  interval_nsec = remainder interval_ms 1000 1000000;
}

-- Below zero `timerfd_create` failed, and the process is left.
unfoldable pub create_timer_fd : ℤ → ℤ → ℤ → Option (ℤ × Spec)
unfolding new_value
create_timer_fd (pos fd) initial_ms interval_ms = some (pos fd, new_value initial_ms interval_ms)
create_timer_fd (negsuc n) initial_ms interval_ms = none

-- The channel of a timer, and its entry.
unfoldable pub add_timer : ℕ → Bool → ℕ → ℤ × Spec → Timers → Timers
unfolding protobase.Channel.create enable_reading
add_timer id repeat task (fd, spec) t =
    let c = record (protobase.Channel.create id fd) { has_read = true } in
    let (c', p) = enable_reading c t.poller in
    set_entry fd (some (some id)) (
      set_object id (some (record { channel = c'; spec = spec; task = task; repeat = repeat }))
        (record t { poller = p }))

unfoldable pub run_after : ℤ → ℕ → ℤ → ℕ → Timers → Option (ℤ × Timers)
unfolding create_timer_fd add_timer
run_after ret id delay_ms task t =
    create_timer_fd ret delay_ms (pos 0) >>= λ r. some (r.0, add_timer id false task r t)

-- The difference of two `int64_t` that are not below zero.
abbrev pub difference : ℕ → ℕ → ℤ
difference m n = if leb n m then pos (m - n) else minus (n - m)

-- The conversion to `int`.
abbrev pub to_int : ℤ → ℤ
to_int (pos n) = difference (n % 2 ^ 32) (if ltb (n % 2 ^ 32) (2 ^ 31) then 0 else 2 ^ 32)
to_int (negsuc n) =
    difference (2 ^ 32 - 1 - n % 2 ^ 32)
      (if ltb (2 ^ 32 - 1 - n % 2 ^ 32) (2 ^ 31) then 0 else 2 ^ 32)

-- `now` is what `Timestamp::now` answers; both are microseconds.
unfoldable pub run_at : ℤ → ℕ → ℕ → ℕ → ℕ → Timers → Option (ℤ × Timers)
unfolding run_after
run_at ret id now time task t =
    run_after ret id (to_int (quotient (difference time now) 1000)) task t

unfoldable pub run_every : ℤ → ℕ → ℤ → ℕ → Timers → Option (ℤ × Timers)
unfolding create_timer_fd add_timer
run_every ret id delay_ms task t =
    create_timer_fd ret delay_ms delay_ms >>= λ r. some (r.0, add_timer id true task r t)

-- `delete` of a channel that is off the poller: its memory and its descriptor.
unfoldable pub delete : ℕ → Channel → Timers → Timers
delete id c t = record (set_object id none t) {
  closed = if above_zero c.fd then t.closed ++ c.fd ∷ [] else t.closed;
}

-- The channel off the poller.
abbrev pub off : Channel → Poller → Channel × Poller
unfolding disable_all remove
off c p = remove (disable_all c p).0 (disable_all c p).1

-- The end of a one-shot timer, and of `cancel`: the key of the entry is an argument.
abbrev pub taken_down : ℕ → (Channel → ℤ) → Timers → TimerChannel → Timers
unfolding delete
taken_down id key t o =
    let r = off o.channel t.poller in
    delete id r.0 (set_entry (key r.0) none (record t { poller = r.1 }))

unfoldable pub take_down : ℕ → (Channel → ℤ) → Timers → Option Timers
take_down id key t = t.objects id >>= λ o. some (taken_down id key t o)

-- `task` is what the task does.
unfoldable pub handle_timer_event : (Timers → Option Timers) → ℕ → Bool → Timers → Option Timers
unfolding take_down
handle_timer_event task id repeat t =
    task t >>= λ t'. if repeat then some t' else take_down id (λ c. c.fd) t'

unfoldable pub cancel_entry : Option (Option ℕ) → ℤ → Timers → Option Timers
unfolding take_down
cancel_entry none timer_id t = some (set_entry timer_id (some none) t)
cancel_entry (some none) timer_id t = some t
cancel_entry (some (some id)) timer_id t = take_down id (λ c. timer_id) t

unfoldable pub cancel : ℤ → Timers → Option Timers
unfolding cancel_entry
cancel timer_id t = cancel_entry (t.table timer_id) timer_id t
