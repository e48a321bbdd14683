-- ===== src/EventLoop/Dispatch/Dangling.antt =====
-- src/net/EventLoop.cpp and src/net/Channel.cpp: one-shot timers in a turn of the loop.
use protobase.Common.{
  ℕ, ◌≡◌, ◌∙◌, refl, ap, sym, subst, Bool, true, false, ◌&&◌, Option, none, some, some_inj, List,
  [], ◌∷◌, ◌++◌, if◌then◌else◌, if_then, ◌==◌, ==_iff, ◌>>=◌, Option-cases, ◌⊎◌, inl, inr,
}
use protobase.Common.Int.{ℤ}
use protobase.Channel.{Channel}
use protobase.EventLoop.Timers.{
  Timers, TimerChannel, handle_timer_event, take_down, taken_down, delete,
}
use protobase.EventLoop.Dispatch.{is_read, dispatch, handle_active}

-- What is left to do after the read callback.
abbrev events_read : ℕ → Timers → Option Timers
events_read id t = t.objects id >>= λ o. some t

taken_down_gone :
    (id : ℕ) (key : Channel → ℤ) (t : Timers) (o : TimerChannel)
    → (taken_down id key t o).objects id ≡ none
unfolding delete
taken_down_gone id key t o = if_then {b = id == id} none (t.objects id) ((==_iff id id).1 refl)

-- Whether the channel was there or not, it is not there behind the end of a one-shot timer.
take_down_dangles :
    (id : ℕ) (key : Channel → ℤ) (t : Timers) → (take_down id key t >>= events_read id) ≡ none
unfolding take_down
take_down_dangles id key t = elim (Option-cases (t.objects id)) [
  | inl e ↦ ap (λ m. (m >>= λ o. some (taken_down id key t o)) >>= events_read id) e
  | inr (o, e) ↦
      ap (λ m. (m >>= λ o. some (taken_down id key t o)) >>= events_read id) e
      ∙ ap (λ m. m >>= λ o'. some (taken_down id key t o)) (taken_down_gone id key t o)
]

-- A one-shot timer whose descriptor is readable.
pub record Due (id : ℕ) (t : Timers) : Type 0 where
  pub timer : TimerChannel
  pub here : t.objects id ≡ some timer
  pub once : timer.repeat ≡ false
  pub reads : (is_read timer.channel.reported && timer.channel.has_read) ≡ true

module _ (tasks : ℕ → Timers → Option Timers) where
  after_task :
      (id : ℕ) (n : ℕ) (t : Timers)
      → (handle_timer_event (tasks n) id false t >>= events_read id) ≡ none
  unfolding handle_timer_event
  after_task id n t = elim (Option-cases (tasks n t)) [
    | inl e ↦ ap (λ m. (m >>= take_down id (λ c. c.fd)) >>= events_read id) e
    | inr (t', e) ↦
        ap (λ m. (m >>= take_down id (λ c. c.fd)) >>= events_read id) e
        ∙ take_down_dangles id (λ c. c.fd) t'
  ]

  dispatch_dangles : (id : ℕ) (t : Timers) → Due id t → dispatch tasks id t ≡ none
  unfolding dispatch
  dispatch_dangles id t due =
      ap
        (λ m. m >>= λ o.
          (if is_read o.channel.reported && o.channel.has_read
            then handle_timer_event (tasks o.task) id o.repeat t
            else some t)
          >>= events_read id)
        due.here
      ∙ ap (λ m. m >>= events_read id) (if_then _ _ due.reads)
      ∙ ap (λ b. handle_timer_event (tasks due.timer.task) id b t >>= events_read id) due.once
      ∙ after_task id due.timer.task t

  read_same : (id : ℕ) (t t' : Timers) → events_read id t ≡ some t' → t ≡ t'
  read_same id t t' h = elim (Option-cases (t.objects id)) [
    | inl e ↦ absurd (cc (ap (λ m. m >>= λ o. some t) e, h))
    | inr (o, e) ↦ some_inj (sym (ap (λ m. m >>= λ o. some t) e) ∙ h)
  ]

  read_through :
      (id : ℕ) (m : Option Timers) (t' : Timers) → (m >>= events_read id) ≡ some t' → m ≡ some t'
  read_through id none t' h = absurd cc
  read_through id (some t) t' h = ap some (read_same id t t' h)

  -- A dispatch that is no fault ran a task or nothing.
  by_repeat :
      (id n : ℕ) (repeat : Bool) (t t' : Timers)
      → (handle_timer_event (tasks n) id repeat t >>= events_read id) ≡ some t'
      → tasks n t ≡ some t'
  unfolding handle_timer_event
  by_repeat id n false t t' h = absurd (cc (after_task id n t, h))
  by_repeat id n true t t' h = elim (Option-cases (tasks n t)) [
    | inl e ↦ absurd (cc h)
    | inr (s, e) ↦
        e
        ∙ ap some (read_same id s t' (sym (ap (λ m. (m >>= λ s. some s) >>= events_read id) e) ∙ h))
  ]

  by_test :
      (id n : ℕ) (repeat b : Bool) (t t' : Timers)
      → ((if b then handle_timer_event (tasks n) id repeat t else some t) >>= events_read id)
        ≡ some t'
      → (t ≡ t') ⊎ (tasks n t ≡ some t')
  by_test id n repeat true t t' h = inr (by_repeat id n repeat t t' h)
  by_test id n repeat false t t' h = inl (read_same id t t' h)

  dispatch_moves :
      (id : ℕ) (t t' : Timers)
      → dispatch tasks id t ≡ some t'
      → (t ≡ t') ⊎ ((n : ℕ) × (tasks n t ≡ some t'))
  unfolding dispatch
  dispatch_moves id t t' h = elim (Option-cases (t.objects id)) [
    | inl e ↦ absurd (cc (ap (λ m. m >>= λ o. body o) e, h))
    | inr (o, e) ↦
        elim (by_test id o.task o.repeat (is_read o.channel.reported && o.channel.has_read) t t'
          (sym (ap (λ m. m >>= λ o. body o) e) ∙ h)) [ inl s ↦ inl s | inr s ↦ inr (o.task, s) ]
  ]
    where
      body : TimerChannel → Option Timers
      body o =
          (if is_read o.channel.reported && o.channel.has_read
            then handle_timer_event (tasks o.task) id o.repeat t
            else some t)
          >>= events_read id

-- A one-shot timer that is to run, or is gone.
abbrev pub Doomed : ℕ → Timers → Type 0
Doomed id t = (t.objects id ≡ none) ⊎ Due id t

no_dispatch :
    (tasks : ℕ → Timers → Option Timers) (id : ℕ) (t : Timers)
    → Doomed id t
    → dispatch tasks id t ≡ none
unfolding dispatch
no_dispatch tasks id t (inr due) = dispatch_dangles tasks id t due
no_dispatch tasks id t (inl e) =
    ap
      (λ m. m >>= λ o.
        (if is_read o.channel.reported && o.channel.has_read
          then handle_timer_event (tasks o.task) id o.repeat t
          else some t)
        >>= events_read id)
      e

module _ (tasks : ℕ → Timers → Option Timers) (id : ℕ) (after : List ℕ)
    (kept : (n : ℕ) (s s' : Timers) → Doomed id s → tasks n s ≡ some s' → Doomed id s') where
  no_turn :
      (before : List ℕ) (t : Timers)
      → Doomed id t
      → handle_active tasks (before ++ id ∷ after) t ≡ none
  unfolding handle_active
  no_turn [] t doomed =
      ap (λ m. m >>= λ t'. handle_active tasks after t') (no_dispatch tasks id t doomed)
  no_turn (k ∷ ks) t doomed = elim (Option-cases (dispatch tasks k t)) [
    | inl e ↦ ap (λ m. m >>= λ t'. handle_active tasks (ks ++ id ∷ after) t') e
    | inr (t', e) ↦
        ap (λ m. m >>= λ t'. handle_active tasks (ks ++ id ∷ after) t') e
        ∙ no_turn ks t' (elim (dispatch_moves tasks k t t' e) [
          | inl s ↦ subst (Doomed id) s doomed
          | inr (n, s) ↦ kept n t t' doomed s
        ])
  ]

-- A one-shot timer that runs is a use of freed memory, whatever its task does: `handleTimerEvent`
-- deletes the channel, and `handleEventWithGuard` goes on to read its events. So a turn of the loop
-- whose active channels have one is a fault, whatever comes before it, where no task of an earlier
-- timer puts another channel in the place of this one.
pub one_shot_dangles :
    (tasks : ℕ → Timers → Option Timers) (id : ℕ) (before after : List ℕ) (t : Timers)
    → Due id t
    → ((n : ℕ) (s s' : Timers) → Doomed id s → tasks n s ≡ some s' → Doomed id s')
    → handle_active tasks (before ++ id ∷ after) t ≡ none
one_shot_dangles tasks id before after t due kept = no_turn tasks id after kept before t (inr due)
