-- ===== src/TimerWheel/Schedule.antt =====
-- Runs of `onTime`, and what `runAfter` adds to the schedule.
use protobase.Common.{
  ℕ, zero, suc, ◌+◌, ◌-◌, ◌/◌, ◌%◌, ◌^◌, ◌≤◌, ◌<◌, ◌≡◌, ◌∙◌, refl, ap, some, List, [], ◌∷◌, ◌++◌,
  if◌then◌else◌, ◌==◌, ltb, true, false, Bool, arith, length, lt→ltb, le→ltb_false,
}
use native.Mathlib.Decide.{dec_lt}
use protobase.Common.Int.{pos}
use protobase.TimerWheel.{
  TimerWheel, user, later, once, Slot, insert_node, insert_second_node, insert_minute_node,
  schedule, to_u32, run_after, on_times,
}
use protobase.TimerWheel.Slots.{
  slot, count, fires, moves, Plain, Waits, IsOnce, length-emplace, slot-emplace, All-emplace,
  Plain-append, Waits-append, fires-append, moves-append,
}
use protobase.TimerWheel.Step.{due, Ticked, on_time-Ticked}

-- How many times `id` is due in the `n` ticks from `t` on.
abbrev pub due_within : TimerWheel → ℕ → ℕ → ℕ → ℕ
due_within w id t zero = 0
due_within w id t (suc n) = due w id t + due_within w id (t + 1) n

due_within-Ticked :
    (id n t : ℕ) {w w' : TimerWheel}
    → Ticked w w'
    → w.tick + 1 < t
    → due_within w' id t n ≡ due_within w id t n
due_within-Ticked id zero t s h = refl
due_within-Ticked id (suc n) t {w} s h =
    omega (arith, s.kept id t h, due_within-Ticked id n (t + 1) s (omega arith))

-- `w'` is `w` after `n` ticks.
pub record Ran (n : ℕ) (w w' : TimerWheel) : Type 0 where
  pub is_once : IsOnce w'
  pub tick : w'.tick ≡ w.tick + n
  pub hours : w'.hours ≡ w.hours
  pub days : w'.days ≡ w.days
  pub ran : (id : ℕ) → count id w'.fired ≡ count id w.fired + due_within w id (w.tick + 1) n

-- On a wheel of one-time tasks any number of calls of `onTime` return, as long as the 64-bit tick
-- does not wrap, and run each task just as often as it was due in those ticks.
pub on_times-Ran :
    (f : ℕ) (nows : List ℕ) {w : TimerWheel}
    → IsOnce w
    → w.tick + length nows < 2 ^ 64
    → (w' : TimerWheel) × (on_times (suc (suc f)) nows w ≡ some w') × Ran (length nows) w w'
unfolding on_times
on_times-Ran f [] {w} v small = (
  w,
  refl,
  record { is_once = v; tick = omega arith; hours = refl; days = refl; ran = λ id. omega arith },
)
on_times-Ran f (now ∷ nows) {w} v small =
    let (w₁, e, s) = on_time-Ticked f now v (omega arith) in
    let (w', q, r) = on_times-Ran f nows s.is_once (omega (arith, s.tick)) in
    (
      w',
      rw e q,
      record {
        is_once = r.is_once;
        tick = omega (arith, r.tick, s.tick);
        hours = r.hours ∙ s.hours;
        days = r.days ∙ s.days;
        ran = λ id. rest id s r;
      },
    )
  where
    rest :
        (id : ℕ) {w₁ w' : TimerWheel}
        → Ticked w w₁
        → Ran (length nows) w₁ w'
        → count id w'.fired
          ≡ count id w.fired
            + (due w id (w.tick + 1) + due_within w id (w.tick + 1 + 1) (length nows))
    rest id {w₁} s r =
        let e : w₁.tick + 1 ≡ w.tick + 1 + 1 = omega (arith, s.tick) in
        omega (
          arith,
          r.ran id,
          s.ran id,
          ap (λ t. due_within w₁ id t (length nows)) e,
          due_within-Ticked id (length nows) (w.tick + 1 + 1) s (omega arith),
        )

-- The tick at which a timer set at `tick` for `d` seconds is to run, below an hour: from a minute
-- on, the part of the current minute that has passed is not waited for.
unfoldable pub due_tick : ℕ → ℕ → ℕ
due_tick tick d = if ltb d 60 then tick + d else tick + d - tick % 60

-- `w'` is `w` with the one-time task `id` due once more, at tick `t`.
pub record Scheduled (id t : ℕ) (w w' : TimerWheel) : Type 0 where
  pub is_once : IsOnce w'
  pub tick : w'.tick ≡ w.tick
  pub fired : w'.fired ≡ w.fired
  pub due_once_more :
      (j u : ℕ)
      → w.tick < u
      → due w' j u ≡ due w j u + (if id == j then (if t == u then 1 else 0) else 0)

-- The counts of a slot that a test may have given one more node.
fires-if :
    (j id : ℕ) (b : Bool) (s : Slot)
    → fires j (if b then s ++ user (once id) ∷ [] else s)
      ≡ fires j s + (if b then (if id == j then 1 else 0) else 0)
fires-if j id true s = omega (arith, fires-append j s (user (once id) ∷ []))
fires-if j id false s = omega arith

moves-if :
    (j k id i : ℕ) (b : Bool) (s : Slot)
    → moves j k (if b then s ++ later i (user (once id)) ∷ [] else s)
      ≡ moves j k s + (if b then (if i == k then (if id == j then 1 else 0) else 0) else 0)
moves-if j k id i true s = omega (arith, moves-append j k s (later i (user (once id)) ∷ []))
moves-if j k id i false s = omega arith

module _ (f d id : ℕ) {w : TimerWheel} (v : IsOnce w) where
  seconds-Scheduled :
      0 < d → d < 60 → Scheduled id (w.tick + d) w (insert_second_node d (user (once id)) w)
  unfolding insert_second_node due
  seconds-Scheduled pos_d small = record {
    is_once = record {
      seconds_size = length-emplace (d - 1) (user (once id)) w.seconds ∙ v.seconds_size;
      minutes_size = v.minutes_size;
      hours_size = v.hours_size;
      days_size = v.days_size;
      plain = All-emplace Plain tt (user (once id)) (Plain-append id) (d - 1) w.seconds v.plain;
      waits = v.waits;
    };
    tick = refl;
    fired = refl;
    due_once_more = λ j u h.
        rw
          (slot-emplace (d - 1) (u - w.tick - 1) (user (once id)) w.seconds
            (omega (arith, v.seconds_size)))
          (rw (fires-if j id (d - 1 == u - w.tick - 1) (slot w.seconds (u - w.tick - 1)))
            (ground arith));
  }

  minutes-Scheduled :
      60 ≤ d
      → d < 3600
      → Scheduled id (w.tick + d - w.tick % 60) w (insert_minute_node d (user (once id)) w)
  unfolding insert_minute_node due
  minutes-Scheduled low high = record {
    is_once = record {
      seconds_size = v.seconds_size;
      minutes_size =
          length-emplace (d / 60 - 1) (later (d % 60) (user (once id))) w.minutes ∙ v.minutes_size;
      hours_size = v.hours_size;
      days_size = v.days_size;
      plain = v.plain;
      waits =
          All-emplace Waits tt (later (d % 60) (user (once id)))
            (Waits-append (d % 60) id (omega arith)) (d / 60 - 1) w.minutes v.waits;
    };
    tick = refl;
    fired = refl;
    due_once_more = λ j u h.
        rw
          (slot-emplace (d / 60 - 1) (u / 60 - w.tick / 60 - 1) (later (d % 60) (user (once id)))
            w.minutes (omega (arith, v.minutes_size)))
          (rw
            (moves-if j (u % 60) id (d % 60) (d / 60 - 1 == u / 60 - w.tick / 60 - 1)
              (slot w.minutes (u / 60 - w.tick / 60 - 1)))
            (ground arith));
  }

-- A one-time timer below an hour is put on the schedule for its tick, `due_tick`, and nothing else
-- of the schedule or of the log changes: so `runAfter(d)` on a wheel of one-time tasks, for every
-- `d` from 1 to 3599 and any fuel.
pub run_after-Scheduled :
    (f d id : ℕ) {w : TimerWheel}
    → IsOnce w
    → 0 < d
    → d < 3600
    → (w' : TimerWheel) × (run_after f (pos d) id w ≡ some w')
      × Scheduled id (due_tick w.tick d) w w'
unfolding run_after schedule to_u32 insert_node due_tick
run_after-Scheduled f d id {w} v low high = elim (dec_lt d 60) [
  | yes short ↦ (
    insert_second_node d (user (once id)) w,
    rw word (ground arith),
    rw (lt→ltb d 60 short) (seconds-Scheduled f d id v low short),
  )
  | no long ↦ (
    insert_minute_node d (user (once id)) w,
    rw word (ground arith),
    rw (le→ltb_false d 60 (omega arith)) (minutes-Scheduled f d id v (omega arith) high),
  )
]
  where
    word : d % 2 ^ 32 ≡ d
    word = omega arith

due_within-Scheduled :
    (id t j n u : ℕ) {w w' : TimerWheel}
    → Scheduled id t w w'
    → w.tick < u
    → due_within w' j u n
      ≡ due_within w j u n
        + (if id == j then (if ltb t u then 0 else (if ltb t (u + n) then 1 else 0)) else 0)
due_within-Scheduled id t j zero u s h = ground arith
due_within-Scheduled id t j (suc n) u s h =
    ground (arith, s.due_once_more j u h, due_within-Scheduled id t j n (u + 1) s (omega arith))

tick-lt-due_tick : (tick d : ℕ) → 0 < d → tick < due_tick tick d
unfolding due_tick
tick-lt-due_tick tick d h = ground arith

-- A timer of 1 to 3599 seconds, on a wheel whose second and minute wheels hold no repeated timer,
-- run on with any number of ticks that do not wrap: compared with the same wheel without it, its
-- task runs exactly once more if `due_tick` is reached by then, not at all if it is not, and every
-- other task runs as often. `due_tick` is the tick at which the delay is over for less than a
-- minute, and counts whole minutes from the wheel's last one otherwise, so it is up to 59 seconds
-- before the delay is over.
pub timer_runs_once :
    (f d id : ℕ) (nows : List ℕ) {w : TimerWheel}
    → IsOnce w
    → 0 < d
    → d < 3600
    → w.tick + length nows < 2 ^ 64
    → (w' u u' : TimerWheel) × (run_after f (pos d) id w ≡ some w')
      × (on_times (suc (suc f)) nows w ≡ some u)
      × (on_times (suc (suc f)) nows w' ≡ some u')
      × ((j : ℕ)
          → count j u'.fired
            ≡ count j u.fired
              + (if id == j
                  then (if ltb (w.tick + length nows) (due_tick w.tick d) then 0 else 1)
                  else 0))
timer_runs_once f d id nows {w} v low high small =
    let (w', e, s) = run_after-Scheduled f d id v low high in
    let (u, q, r) = on_times-Ran f nows v small in
    let (u', q', r') = on_times-Ran f nows s.is_once (omega (arith, s.tick)) in
    (w', u, u', e, q, q', λ j. runs s r r' j)
  where
    later_tick : w.tick < due_tick w.tick d
    later_tick = tick-lt-due_tick w.tick d low

    runs :
        {w' u u' : TimerWheel}
        → Scheduled id (due_tick w.tick d) w w'
        → Ran (length nows) w u
        → Ran (length nows) w' u'
        → (j : ℕ)
        → count j u'.fired
          ≡ count j u.fired
            + (if id == j
                then (if ltb (w.tick + length nows) (due_tick w.tick d) then 0 else 1)
                else 0)
    runs {w'} s r r' j = ground (
      arith,
      r.ran j,
      r'.ran j,
      s.tick,
      ap (λ k. due_within w' j (k + 1) (length nows)) s.tick,
      ap (count j) s.fired,
      due_within-Scheduled id (due_tick w.tick d) j (length nows) (w.tick + 1) s (omega arith),
      later_tick,
    )
