-- ===== src/TimerWheel/Step.antt =====
-- One call of `onTime` against a schedule: which tasks are due at which tick.
use protobase.Common.{
  ℕ, suc, ◌+◌, ◌-◌, ◌/◌, ◌%◌, ◌^◌, ◌<◌, ◌≡◌, ◌≢◌, ◌∙◌, refl, ap, some, ◌++◌, if◌then◌else◌, ◌==◌,
  ltb, if_then, arith, length, lt→ltb, le→ltb_false,
}
use native.Mathlib.Decide.{ℕ_discrete, dec_lt}
use protobase.TimerWheel.{
  TimerWheel, front, rotated, let_go_all, pop_seconds, pop_minutes, pop_coarse, on_time,
}
use protobase.TimerWheel.Slots.{
  slot, count, fires, moves, Plain, Waits, IsOnce, slot-rotated, length-rotated, front-slot,
  All-rotated, All-front, count-append, moves_far,
}
use protobase.TimerWheel.Release.{ids, count-ids, let_go_all-Plain, let_go_all-Moved, Moved}

-- How many times the one-time task `id` is to run at tick `t`, later than the wheel's tick: the
-- nodes of the second wheel, and those that the minute wheel is to hand on in that minute.
unfoldable pub due : TimerWheel → ℕ → ℕ → ℕ
due w id t =
    fires id (slot w.seconds (t - w.tick - 1))
    + (if ltb (w.tick / 60) (t / 60)
        then moves id (t % 60) (slot w.minutes (t / 60 - w.tick / 60 - 1))
        else 0)

-- `w'` is `w` one tick later: the tasks due at that tick have run, and the rest of the schedule is
-- the same.
pub record Ticked (w w' : TimerWheel) : Type 0 where
  pub is_once : IsOnce w'
  pub tick : w'.tick ≡ w.tick + 1
  pub hours : w'.hours ≡ w.hours
  pub days : w'.days ≡ w.days
  pub ran : (id : ℕ) → count id w'.fired ≡ count id w.fired + due w id (w.tick + 1)
  pub kept : (id t : ℕ) → w.tick + 1 < t → due w' id t ≡ due w id t

module _ (f now : ℕ) {w : TimerWheel} (v : IsOnce w) (small : w.tick + 1 < 2 ^ 64) where
  -- After the second wheel.
  abbrev w₁ : TimerWheel
  w₁ = record w {
    last_time = now;
    tick = w.tick + 1;
    seconds = rotated w.seconds;
    fired = w.fired ++ ids (front w.seconds);
  }

  on_time_coarse : on_time (suc (suc f)) now w ≡ pop_coarse (suc (suc f)) (w.tick + 1) w₁
  unfolding on_time pop_seconds
  on_time_coarse = rw (
    no_wrap,
    let_go_all-Plain (suc f) (front w.seconds)
        (record w { last_time = now; tick = w.tick + 1; seconds = rotated w.seconds })
        (All-front Plain tt w.seconds v.plain),
  )
    where
      no_wrap : (w.tick + 1) % 2 ^ 64 ≡ w.tick + 1
      no_wrap = omega arith

  ran_seconds : (id : ℕ) → count id w₁.fired ≡ count id w.fired + fires id (slot w.seconds 0)
  ran_seconds id =
      count-append id w.fired (ids (front w.seconds))
      ∙ ap (λ k. count id w.fired + k)
          (count-ids id (front w.seconds) ∙ ap (fires id) (front-slot w.seconds))

  -- Within a minute only the second wheel turns.
  on_time_within : (w.tick + 1) % 60 ≢ 0 → on_time (suc (suc f)) now w ≡ some w₁
  unfolding pop_coarse
  on_time_within within = on_time_coarse ∙ ground arith

  w₁-IsOnce : IsOnce w₁
  w₁-IsOnce = record {
    seconds_size = length-rotated w.seconds (omega (arith, v.seconds_size)) ∙ v.seconds_size;
    minutes_size = v.minutes_size;
    hours_size = v.hours_size;
    days_size = v.days_size;
    plain = All-rotated Plain tt w.seconds v.plain;
    waits = v.waits;
  }

  -- The second wheel's part of the schedule moves up.
  seconds_kept :
      (id t : ℕ)
      → w.tick + 1 < t
      → fires id (slot (rotated w.seconds) (t - (w.tick + 1) - 1))
        ≡ fires id (slot w.seconds (t - w.tick - 1))
  seconds_kept id t h =
      ap (fires id)
        (slot-rotated w.seconds (t - (w.tick + 1) - 1) ∙ ap (slot w.seconds) (omega arith))

  within-Ticked : (w.tick + 1) % 60 ≢ 0 → Ticked w w₁
  unfolding due
  within-Ticked within = record {
    is_once = w₁-IsOnce;
    tick = refl;
    hours = refl;
    days = refl;
    ran = λ id. ran_seconds id ∙ ap (λ k. count id w.fired + k) (first id);
    kept = λ id t h. rw (same, seconds_kept id t h) refl;
  }
    where
      same : (w.tick + 1) / 60 ≡ w.tick / 60
      same = omega arith

      start : w.tick + 1 - w.tick - 1 ≡ 0
      start = omega arith

      first : (id : ℕ) → fires id (slot w.seconds 0) ≡ due w id (w.tick + 1)
      first id =
          rw (start, same, le→ltb_false (w.tick / 60) (w.tick / 60) (omega arith)) (omega arith)

  -- At a full minute the minute wheel turns too.
  abbrev w₂ : TimerWheel
  w₂ = record w₁ { minutes = rotated w.minutes }

  on_time_minute :
      (w.tick + 1) % 60 ≡ 0
      → on_time (suc (suc f)) now w ≡ let_go_all (suc (suc f)) (front w.minutes) w₂
  unfolding pop_coarse pop_minutes
  on_time_minute full = on_time_coarse ∙ if_then {b = (w.tick + 1) % 60 == 0} _ _ (ground arith)

  module _ (full : (w.tick + 1) % 60 ≡ 0) {w' : TimerWheel}
      (m : Moved (front w.minutes) w₂ w') where
    next_minute : (w.tick + 1) / 60 ≡ w.tick / 60 + 1
    next_minute = omega arith

    due_next :
        (id : ℕ)
        → due w id (w.tick + 1) ≡ fires id (slot w.seconds 0) + moves id 0 (slot w.minutes 0)
    unfolding due
    due_next id =
        let start : w.tick + 1 - w.tick - 1 ≡ 0 = omega arith in
        let first : w.tick / 60 + 1 - w.tick / 60 - 1 ≡ 0 = omega arith in
        rw (start, full, next_minute, lt→ltb (w.tick / 60) (w.tick / 60 + 1) (omega arith), first)
          refl

    ran_minute : (id : ℕ) → count id w'.fired ≡ count id w.fired + due w id (w.tick + 1)
    ran_minute id =
        omega (arith, m.run id, ran_seconds id, due_next id, ap (moves id 0) (front-slot w.minutes))

    -- The minute wheel's part, for the minute that has begun and for the later ones.
    minute_kept :
        (id t : ℕ)
        → w.tick + 1 < t
        → moves id (suc (t - (w.tick + 1) - 1)) (front w.minutes)
            + (if ltb (w.tick / 60 + 1) (t / 60)
                then moves id (t % 60) (slot (rotated w.minutes) (t / 60 - (w.tick / 60 + 1) - 1))
                else 0)
          ≡ moves id (t % 60) (slot w.minutes (t / 60 - w.tick / 60 - 1))
    minute_kept id t h = elim (dec_lt (w.tick / 60 + 1) (t / 60)) [
      | yes later_minute ↦
          rw
            (
              lt→ltb (w.tick / 60 + 1) (t / 60) later_minute,
              moves_far id (suc (t - (w.tick + 1) - 1)) (front w.minutes)
                  (All-front Waits tt w.minutes v.waits) (omega arith),
              slot-rotated w.minutes (t / 60 - (w.tick / 60 + 1) - 1),
            )
            (shifted (omega arith))
      | no this_minute ↦
          rw (le→ltb_false (w.tick / 60 + 1) (t / 60) (omega arith), front-slot w.minutes)
            (began (omega arith) (omega arith))
    ]
      where
        shifted :
            suc (t / 60 - (w.tick / 60 + 1) - 1) ≡ t / 60 - w.tick / 60 - 1
            → 0 + moves id (t % 60) (slot w.minutes (suc (t / 60 - (w.tick / 60 + 1) - 1)))
              ≡ moves id (t % 60) (slot w.minutes (t / 60 - w.tick / 60 - 1))
        shifted e = rw e (omega arith)

        began :
            suc (t - (w.tick + 1) - 1) ≡ t % 60
            → t / 60 - w.tick / 60 - 1 ≡ 0
            → moves id (suc (t - (w.tick + 1) - 1)) (slot w.minutes 0) + 0
              ≡ moves id (t % 60) (slot w.minutes (t / 60 - w.tick / 60 - 1))
        began e z = rw (e, z) (omega arith)

    kept_minute : (id t : ℕ) → w.tick + 1 < t → due w' id t ≡ due w id t
    unfolding due
    kept_minute id t h =
        rw
          (
            m.tick,
            m.minutes,
            m.waiting id (t - (w.tick + 1) - 1),
            seconds_kept id t h,
            next_minute,
            lt→ltb (w.tick / 60) (t / 60) (omega (arith, next_minute)),
          )
          (omega (arith, minute_kept id t h))

    minute-Ticked : Ticked w w'
    minute-Ticked = record {
      is_once = record {
        seconds_size = m.seconds_size ∙ w₁-IsOnce.seconds_size;
        minutes_size =
            ap length m.minutes
            ∙ length-rotated w.minutes (omega (arith, v.minutes_size))
            ∙ v.minutes_size;
        hours_size = ap length m.hours ∙ v.hours_size;
        days_size = ap length m.days ∙ v.days_size;
        plain = m.plain;
        waits = rw m.minutes (All-rotated Waits tt w.minutes v.waits);
      };
      tick = m.tick;
      hours = m.hours;
      days = m.days;
      ran = ran_minute;
      kept = kept_minute;
    }

  -- On a wheel of one-time tasks, while the 64-bit tick does not wrap, a call of `onTime` with two
  -- steps of fuel or more returns; it runs each task of the second and the minute wheel as often
  -- as it is due at the new tick, keeps the rest of the schedule, and leaves the hour and the day
  -- wheel untouched.
  pub on_time-Ticked : (w' : TimerWheel) × (on_time (suc (suc f)) now w ≡ some w') × Ticked w w'
  on_time-Ticked = elim (ℕ_discrete ((w.tick + 1) % 60) 0) [
    | no within ↦ (w₁, on_time_within within, within-Ticked within)
    | yes full ↦
        let (w', e, m) =
          let_go_all-Moved f (front w.minutes) w₂ (All-front Waits tt w.minutes v.waits)
            w₁-IsOnce.seconds_size w₁-IsOnce.plain in
        (w', on_time_minute full ∙ e, minute-Ticked full m)
  ]
