-- ===== src/EventLoop/Timers/Runs.antt =====
-- src/net/EventLoop.cpp: any sequence of timers that are set, cancelled and run.
use protobase.Common.{
  ℕ, ◌≡◌, ◌≢◌, ◌∙◌, refl, sym, ap, subst, Bool, true, false, Option, none, some, some_inj, ◌>>=◌,
}
use protobase.Common.Int.{ℤ, pos, negsuc}
use protobase.Poller.{Poller}
use protobase.EventLoop.Timers.{
  TimerChannel, Timers, Spec, add_timer, create_timer_fd, take_down, taken_down, handle_timer_event,
  cancel, cancel_entry, no_timers, run_after, run_every,
}
use protobase.EventLoop.Timers.Lifetimes.{
  Sound, add_timer-Sound, take_down-Sound, take_down_gone, off-fd, cancel-Sound,
}

-- A descriptor that no channel of a timer has, as the kernel gives them.
abbrev pub Unused : ℤ → Timers → Type 0
Unused fd t = (k : ℕ) (p : TimerChannel) → t.objects k ≡ some p → p.channel.fd ≢ fd

-- What happens to the timers: one is set, with a new channel and an unused descriptor; a descriptor is
-- cancelled; or a timer runs, whose task goes through a run of its own, and a one-shot timer is
-- still there when its task returns.
pub data Runs : Timers → Timers → Type 0 where
  done : (t : Timers) → Runs t t
  sets_once :
      (ret fd : ℤ) (id : ℕ) (delay : ℤ) (task : ℕ) (t t' u : Timers)
      → t.objects id ≡ none
      → Unused fd t
      → run_after ret id delay task t ≡ some (fd, t')
      → Runs t' u
      → Runs t u
  sets_repeated :
      (ret fd : ℤ) (id : ℕ) (delay : ℤ) (task : ℕ) (t t' u : Timers)
      → t.objects id ≡ none
      → Unused fd t
      → run_every ret id delay task t ≡ some (fd, t')
      → Runs t' u
      → Runs t u
  cancels : (fd : ℤ) (t t' u : Timers) → cancel fd t ≡ some t' → Runs t' u → Runs t u
  fires :
      (id : ℕ) (o : TimerChannel) (t t₁ t₂ u : Timers)
      → t.objects id ≡ some o
      → Runs t t₁
      → (o.repeat ≡ false → t₁.objects id ≡ some o)
      → handle_timer_event (λ s. some t₁) id o.repeat t ≡ some t₂
      → Runs t₂ u
      → Runs t u

set_Sound :
    (repeat : Bool) (fd₀ fd : ℤ) (spec : Spec) (id task : ℕ) (t t' : Timers)
    → t.objects id ≡ none
    → Unused fd t
    → ◌≡◌ {A = Option (ℤ × Timers)}
        (some (fd₀, add_timer id repeat task (fd₀, spec) t))
        (some (fd, t'))
    → Sound t
    → Sound t'
set_Sound repeat fd₀ fd spec id task t t' fresh unused e v =
    let same = some_inj e in
    subst Sound (ap (λ (r : ℤ × Timers). r.1) same) (
      add_timer-Sound id repeat task fd₀ spec t fresh
        (subst (λ k. Unused k t) (sym (ap (λ (r : ℤ × Timers). r.0) same)) unused) v)

-- A timer that runs, where its task keeps what is asked.
fire_Sound :
    (id : ℕ) (o : TimerChannel) (repeat : Bool) (t t₁ : Timers)
    → (repeat ≡ false → t₁.objects id ≡ some o)
    → Sound t₁
    → (t₂ : Timers) × (handle_timer_event (λ s. some t₁) id repeat t ≡ some t₂) × Sound t₂
unfolding handle_timer_event
fire_Sound id o true t t₁ here v = (t₁, refl, v)
fire_Sound id o false t t₁ here v =
    let w = take_down-Sound id (λ c. c.fd) t₁ o (here refl) (off-fd o.channel t₁.poller) v in
    (taken_down id (λ c. c.fd) t₁ o, w.0, w.1)

pub Runs-Sound : {t u : Timers} → Sound t → Runs t u → Sound u
unfolding run_after run_every create_timer_fd
Runs-Sound v (done t) = v
Runs-Sound v (sets_once (pos n) fd id delay task t t' u fresh unused e rest) =
    Runs-Sound (set_Sound false (pos n) fd _ id task t t' fresh unused e v) rest
Runs-Sound v (sets_once (negsuc n) fd id delay task t t' u fresh unused e rest) = absurd cc
Runs-Sound v (sets_repeated (pos n) fd id delay task t t' u fresh unused e rest) =
    Runs-Sound (set_Sound true (pos n) fd _ id task t t' fresh unused e v) rest
Runs-Sound v (sets_repeated (negsuc n) fd id delay task t t' u fresh unused e rest) = absurd cc
Runs-Sound v (cancels fd t t' u e rest) =
    let (t₂, e₂, w) = cancel-Sound fd t v in Runs-Sound (subst Sound (some_inj (sym e₂ ∙ e)) w) rest
Runs-Sound v (fires id o t t₁ t₂ u here inner kept e rest) =
    let (t₃, e₃, w) = fire_Sound id o o.repeat t t₁ kept (Runs-Sound v inner) in
    Runs-Sound (subst Sound (some_inj (sym e₃ ∙ e)) w) rest

pub no_timers-Sound : (p : Poller) → Sound (no_timers p)
no_timers-Sound p = record { to_object = λ fd id h. absurd cc; to_entry = λ id o h. absurd cc }

-- After any sequence of timers that are set, cancelled and run, where no one-shot timer is cancelled in
-- its own task, the channels that are there and the entries of the table that point to one belong to
-- each other, so none is leaked and none dangles; and to cancel any descriptor, one of no timer included,
-- touches no channel that is gone and keeps this so.
pub Runs-cancel :
    (p : Poller) (fd : ℤ) {t : Timers}
    → Runs (no_timers p) t
    → Sound t × ((t' : Timers) × (cancel fd t ≡ some t') × Sound t')
Runs-cancel p fd {t} runs = let v = Runs-Sound (no_timers-Sound p) runs in (v, cancel-Sound fd t v)

-- A one-shot timer whose task cancels it is a fault: once its task returns, the loop goes on with the
-- channel that `cancel` deleted.
cancel_in_task :
    (id : ℕ) (o : TimerChannel) (t : Timers)
    → Sound t
    → t.objects id ≡ some o
    → handle_timer_event (cancel o.channel.fd) id false t ≡ none
unfolding handle_timer_event cancel cancel_entry
cancel_in_task id o t v here =
    let fd = o.channel.fd in
    let (down, w, gone) = take_down-Sound id (λ c. fd) t o here refl v in
    ap (λ e. cancel_entry e fd t >>= take_down id (λ c. c.fd)) (v.to_entry id o here)
    ∙ ap (λ r. r >>= take_down id (λ c. c.fd)) down
    ∙ take_down_gone id (λ c. c.fd) (taken_down id (λ c. fd) t o) gone
