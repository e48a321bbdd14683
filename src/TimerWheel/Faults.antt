-- ===== src/TimerWheel/Faults.antt =====
-- Timers that the wheel does not serve: an hour or more, none at all, more than 30 days.
use protobase.Common.{
  ℕ, zero, suc, ◌+◌, ◌-◌, ◌/◌, ◌%◌, ◌^◌, ◌≤◌, ◌<◌, ◌≡◌, ◌⊎◌, ◌∙◌, refl, ap, inl, inr, none, some,
  List, [], ◌∷◌, ◌++◌, arith, length,
}
use protobase.Common.Int.{ℤ, pos}
use native.Mathlib.Decide.{dec_lt}
use protobase.TimerWheel.{
  TimerWheel, Node, user, later, once, insert_node, insert_hour_node, insert_day_node, let_go,
  schedule, to_u32, run_after, on_times,
}
use protobase.TimerWheel.Slots.{count, IsOnce, length-emplace}
use protobase.TimerWheel.Step.{due}
use protobase.TimerWheel.Schedule.{due_within, Ran, on_times-Ran}

-- `w'` is a wheel of one-time tasks with the schedule and the log of `w`.
record SameSchedule (w w' : TimerWheel) : Type 0 where
  is_once : IsOnce w'
  tick : w'.tick ≡ w.tick
  fired : w'.fired ≡ w.fired
  due_same : (j u : ℕ) → due w' j u ≡ due w j u

due_within-SameSchedule :
    (j n u : ℕ) {w w' : TimerWheel} → SameSchedule w w' → due_within w' j u n ≡ due_within w j u n
due_within-SameSchedule j zero u s = refl
due_within-SameSchedule j (suc n) u s =
    omega (arith, s.due_same j u, due_within-SameSchedule j n (u + 1) s)

insert_long :
    (d id : ℕ) {w : TimerWheel}
    → IsOnce w
    → 3600 ≤ d
    → d / 86400 ≤ 30
    → (w' : TimerWheel) × (insert_node d (user (once id)) w ≡ some w') × SameSchedule w w'
unfolding insert_node insert_hour_node insert_day_node due
insert_long d id {w} v low high = elim (dec_lt d 86400) [
  | yes hours ↦ (
    insert_hour_node d (user (once id)) w,
    ground arith,
    record {
      is_once = record {
        seconds_size = v.seconds_size;
        minutes_size = v.minutes_size;
        hours_size =
            length-emplace (d / 3600 - 1) (later (d % 3600) (user (once id))) w.hours
            ∙ v.hours_size;
        days_size = v.days_size;
        plain = v.plain;
        waits = v.waits;
      };
      tick = refl;
      fired = refl;
      due_same = λ j u. refl;
    },
  )
  | no days ↦ (
    insert_day_node d (user (once id)) w,
    ground arith,
    record {
      is_once = record {
        seconds_size = v.seconds_size;
        minutes_size = v.minutes_size;
        hours_size = v.hours_size;
        days_size =
            length-emplace (d / 86400 - 1) (later (d % 86400) (user (once id))) w.days
            ∙ v.days_size;
        plain = v.plain;
        waits = v.waits;
      };
      tick = refl;
      fired = refl;
      due_same = λ j u. refl;
    },
  )
]

schedule_kept :
    (f d : ℕ) (n : Node) (w w' : TimerWheel)
    → insert_node d n w ≡ some w'
    → schedule f d n w ≡ some w'
unfolding schedule
schedule_kept f d n w w' e = rw (e, schedule) refl

schedule_lost :
    (f d : ℕ) (n : Node) (w : TimerWheel)
    → insert_node d n w ≡ none
    → schedule f d n w ≡ let_go f n w
unfolding schedule
schedule_lost f d n w e = rw (e, schedule) refl

-- A timer of an hour or more, up to 30 days, is kept, and its task never runs: on a wheel of
-- one-time tasks, after any number of ticks that do not wrap, the log counts every task as often
-- as it does on the wheel without the timer. A tick that is a multiple of 3600 or of 86400 is one
-- of 60, so `onTime` never comes to the hour and the day wheel.
pub long_timer_never_runs :
    (f d id : ℕ) (nows : List ℕ) {w : TimerWheel}
    → IsOnce w
    → 3600 ≤ d
    → d / 86400 ≤ 30
    → w.tick + length nows < 2 ^ 64
    → (w' u u' : TimerWheel) × (run_after f (pos d) id w ≡ some w')
      × (on_times (suc (suc f)) nows w ≡ some u)
      × (on_times (suc (suc f)) nows w' ≡ some u')
      × ((j : ℕ) → count j u'.fired ≡ count j u.fired)
unfolding run_after to_u32
long_timer_never_runs f d id nows {w} v low high small =
    let (w', e, s) = insert_long d id v low high in
    let (u, q, r) = on_times-Ran f nows v small in
    let (u', q', r') = on_times-Ran f nows s.is_once (omega (arith, s.tick)) in
    (w', u, u', rw word (schedule_kept f d (user (once id)) w w' e), q, q', λ j. same s r r' j)
  where
    word : d % 2 ^ 32 ≡ d
    word = omega arith

    same :
        {w' u u' : TimerWheel}
        → SameSchedule w w'
        → Ran (length nows) w u
        → Ran (length nows) w' u'
        → (j : ℕ) → count j u'.fired ≡ count j u.fired
    same {w'} s r r' j = omega (
      arith,
      r.ran j,
      r'.ran j,
      ap (λ k. due_within w' j (k + 1) (length nows)) s.tick,
      ap (count j) s.fired,
      due_within-SameSchedule j (length nows) (w.tick + 1) s,
    )

-- The delays that no wheel keeps, as the `uint32_t` that they become: 0, and more than 30 days.
-- Every negative `int` is of the second kind.
abbrev pub Refused : ℤ → Type 0
Refused delay = (to_u32 delay ≡ 0) ⊎ (30 < to_u32 delay / 86400)

insert_node-Refused :
    (delay : ℤ) (n : Node) (w : TimerWheel) → Refused delay → insert_node (to_u32 delay) n w ≡ none
unfolding insert_node
insert_node-Refused delay n w (inl e) = rw e refl
insert_node-Refused delay n w (inr far) = ground arith

-- `runAfter` with such a delay does not wait: the task runs before the call returns, and no wheel
-- changes.
pub run_after_at_once :
    (f : ℕ) (delay : ℤ) (id : ℕ) (w : TimerWheel)
    → Refused delay
    → run_after (suc f) delay id w ≡ some (record w { fired = w.fired ++ id ∷ [] })
unfolding run_after let_go
run_after_at_once f delay id w refused =
    schedule_lost (suc f) (to_u32 delay) (user (once id)) w
      (insert_node-Refused delay (user (once id)) w refused)
