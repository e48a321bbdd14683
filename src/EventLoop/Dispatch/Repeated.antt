-- ===== src/EventLoop/Dispatch/Repeated.antt =====
-- src/net/EventLoop.cpp and src/net/EpollPoller.cpp: repeated timers in a turn of the loop.
use protobase.Common.{
  ℕ, ◌≡◌, ◌∙◌, refl, ap, sym, subst, true, ◌&&◌, Option, some, some_inj, List, [], ◌∷◌, map,
  if◌then◌else◌, if_then, if_else, Bool-cases, ◌==◌, ==_iff, ◌>>=◌, Option-cases, inl, inr,
}
use protobase.Channel.{Reported}
use protobase.EventLoop.Timers.{Timers, TimerChannel, set_object, handle_timer_event}
use protobase.EventLoop.Dispatch.{
  ready, set_r_events, fill_active, poll_timers, is_read, dispatch, handle_active, turn,
}

-- A timer that `epoll_wait` reports, with the number of its task.
pub record Fired : Type 0 where
  pub id : ℕ
  pub events : Reported
  pub number : ℕ

abbrev pub report : Fired → ℕ × Reported
report f = (f.id, f.events)

abbrev pub address : Fired → ℕ
address f = f.id

abbrev pub its_task : Fired → ℕ
its_task f = f.number

-- The tasks, one after the other.
abbrev pub run_tasks : (ℕ → Timers → Option Timers) → List ℕ → Timers → Option Timers
run_tasks tasks [] t = some t
run_tasks tasks (n ∷ ns) t = tasks n t >>= λ t'. run_tasks tasks ns t'

pub record Repeats (n : ℕ) (o : TimerChannel) : Type 0 where
  pub repeats : o.repeat ≡ true
  pub is_set : o.channel.has_read ≡ true
  pub number : o.task ≡ n

abbrev Waits : ℕ → TimerChannel → Type 0
Waits n o = Repeats n o × (is_read o.channel.reported ≡ true)

-- The object at an address is there and meets a predicate.
abbrev pub There : (TimerChannel → Type 0) → ℕ → Timers → Type 0
There P k t = (o : TimerChannel) × (t.objects k ≡ some o) × P o

-- Each timer is there, repeats, and is readable.
abbrev pub AllRepeat : List Fired → Timers → Type 0
AllRepeat [] t = Unit {0}
AllRepeat (f ∷ fs) t = There (Repeats f.number) f.id t × (is_read f.events ≡ true) × AllRepeat fs t

abbrev AllWait : List Fired → Timers → Type 0
AllWait [] t = Unit {0}
AllWait (f ∷ fs) t = There (Waits f.number) f.id t × AllWait fs t

abbrev pub KeepTimers : (ℕ → Timers → Option Timers) → Type 0
KeepTimers tasks =
    (n : ℕ) (s s' : Timers) (k : ℕ) (o : TimerChannel)
    → tasks n s ≡ some s'
    → s.objects k ≡ some o
    → s'.objects k ≡ some o

abbrev with_events : Reported → TimerChannel → TimerChannel
with_events e o = record o { channel = record o.channel { reported = e } }

set_There :
    (P : TimerChannel → Type 0) (id k : ℕ) (e : Reported) (o : TimerChannel) (t : Timers)
    → ((p : TimerChannel) → P p → P (with_events e p))
    → t.objects id ≡ some o
    → There P k t
    → There P k (set_object id (some (with_events e o)) t)
set_There P id k e o t keep here (p, there, holds) = elim (Bool-cases (k == id)) [
  | inl same ↦ (
    with_events e o,
    if_then {b = k == id} _ _ same,
    subst (λ p. P (with_events e p))
        (some_inj (sym there ∙ ap t.objects ((==_iff k id).0 same) ∙ here)) (keep p holds),
  )
  | inr other ↦ (p, if_else {b = k == id} _ _ other ∙ there, holds)
]

reported_again :
    (n : ℕ) (e : Reported) (p : TimerChannel) → Repeats n p → Repeats n (with_events e p)
reported_again n e p r = record { repeats = r.repeats; is_set = r.is_set; number = r.number }

set_all :
    (id : ℕ) (e : Reported) (o : TimerChannel) (t : Timers)
    → t.objects id ≡ some o
    → (fs : List Fired) → AllRepeat fs t
    → AllRepeat fs (set_object id (some (with_events e o)) t)
set_all id e o t here [] all = tt
set_all id e o t here (f ∷ fs) (there, reads, all) = (
  set_There (Repeats f.number) id f.id e o t (reported_again f.number e) here there,
  reads,
  set_all id e o t here fs all,
)

-- `fillActiveChannels` finds every channel.
record Filled (fs : List Fired) (t : Timers) : Type 0 where
  after : Timers
  gives : fill_active (map report fs) t ≡ some (after, map address fs)
  waits : AllWait fs after
  kept : (k n : ℕ) → There (Waits n) k t → There (Waits n) k after

fill-Filled : (fs : List Fired) (t : Timers) → AllRepeat fs t → Filled fs t
unfolding fill_active set_r_events
fill-Filled [] t all = record { after = t; gives = refl; waits = tt; kept = λ k n w. w }
fill-Filled (f ∷ fs) t ((o, here, r), reads, all) =
    let rest =
      fill-Filled fs (set_object f.id (some (with_events f.events o)) t)
        (set_all f.id f.events o t here fs all) in
    record {
      after = rest.after;
      gives =
          ap
            (λ m. (m >>= λ o. some (set_object f.id (some (with_events f.events o)) t)) >>= λ t'.
              fill_active (map report fs) t' >>= λ r. some (r.0, f.id ∷ r.1))
            here
          ∙ ap (λ m. m >>= λ r. some (r.0, f.id ∷ r.1)) rest.gives;
      waits = (
        rest.kept f.id f.number (
          with_events f.events o,
          if_then {b = f.id == f.id} _ _ ((==_iff f.id f.id).1 refl),
          (reported_again f.number f.events o r, reads),
        ),
        rest.waits,
      );
      kept = λ k n w. rest.kept k n (
          set_There (Waits n) f.id k f.events o t (λ p v. (reported_again n f.events p v.0, reads))
            here w);
    }

module _ (tasks : ℕ → Timers → Option Timers) (keep : KeepTimers tasks) where
  wait_on :
      (n : ℕ) (s s' : Timers)
      → tasks n s ≡ some s'
      → (fs : List Fired) → AllWait fs s
      → AllWait fs s'
  wait_on n s s' e [] w = tt
  wait_on n s s' e (f ∷ fs) ((o, here, r), w) =
      ((o, keep n s s' f.id o e here, r), wait_on n s s' e fs w)

  dispatch_repeated :
      (n id : ℕ) (t : Timers) → There (Waits n) id t → dispatch tasks id t ≡ tasks n t
  unfolding dispatch handle_timer_event
  dispatch_repeated n id t (o, here, (r, reads)) =
      ap (λ m. m >>= body) here
      ∙ ap (λ m. m >>= read_on) (if_then _ _ (ap (λ b. b && o.channel.has_read) reads ∙ r.is_set))
      ∙ ap (λ b. handle_timer_event (tasks o.task) id b t >>= read_on) r.repeats
      ∙ ap (λ k. handle_timer_event (tasks k) id true t >>= read_on) r.number
      ∙ elim (Option-cases (tasks n t)) [
        | inl e ↦ ap (λ m. (m >>= λ s. some s) >>= read_on) e ∙ sym e
        | inr (s, e) ↦
            ap (λ m. (m >>= λ s. some s) >>= read_on) e
            ∙ ap (λ m. m >>= λ o'. some s) (keep n t s id o e here)
            ∙ sym e
      ]
    where
      read_on : Timers → Option Timers
      read_on t' = t'.objects id >>= λ o'. some t'

      body : TimerChannel → Option Timers
      body o =
          (if is_read o.channel.reported && o.channel.has_read
            then handle_timer_event (tasks o.task) id o.repeat t
            else some t)
          >>= read_on

  handle_repeated :
      (fs : List Fired) (t : Timers)
      → AllWait fs t
      → handle_active tasks (map address fs) t ≡ run_tasks tasks (map its_task fs) t
  unfolding handle_active
  handle_repeated [] t w = refl
  handle_repeated (f ∷ fs) t (here, w) =
      ap (λ m. m >>= λ t'. handle_active tasks (map address fs) t')
        (dispatch_repeated f.number f.id t here)
      ∙ elim (Option-cases (tasks f.number t)) [
        | inl e ↦
            ap (λ m. m >>= λ t'. handle_active tasks (map address fs) t') e
            ∙ sym (ap (λ m. m >>= λ t'. run_tasks tasks (map its_task fs) t') e)
        | inr (s, e) ↦
            ap (λ m. m >>= λ t'. handle_active tasks (map address fs) t') e
            ∙ handle_repeated fs s (wait_on f.number t s e fs w)
            ∙ sym (ap (λ m. m >>= λ t'. run_tasks tasks (map its_task fs) t') e)
      ]

  -- A turn of the loop over repeated timers that are there, whatever their order: `poll` finds the
  -- channel of each, and the loop then runs the tasks one after the other in the order in which
  -- `epoll_wait` reported them, and no more; only a fault in a task is a fault. Each report says
  -- that the descriptor is readable, and no task takes a timer down.
  pub turn-repeated :
      (fs : List Fired) (t : Timers)
      → AllRepeat fs t
      → (t' : Timers) × (poll_timers (ready (map report fs)) t ≡ some (t', map address fs))
        × (turn tasks (ready (map report fs)) t ≡ run_tasks tasks (map its_task fs) t')
  unfolding turn poll_timers
  turn-repeated fs t all =
      let filled = fill-Filled fs t all in
      (
        filled.after,
        filled.gives,
        ap (λ m. m >>= λ r. handle_active tasks r.1 r.0) filled.gives
            ∙ handle_repeated fs filled.after filled.waits,
      )
