-- ===== src/EventLoop/Life/Lives.antt =====
-- src/net/EventLoop.cpp: the loops that one thread makes and destroys, one after the other.
use protobase.Common.{
  ℕ, suc, zero, ◌+◌, ◌≡◌, ◌∙◌, refl, sym, ap, subst, Bool, true, false, Option, none, some,
  some_inj, List, [], ◌∷◌, ◌++◌, if◌then◌else◌, if_then, if_both, Option-cases, ◌⊎◌, inl, inr,
  arith,
}
use protobase.Common.Int.{ℤ, pos, negsuc, times, times-append}
use protobase.Socket.{above_zero}
use protobase.Channel.{Channel, none_event}
use protobase.Poller.{Poller, enable_reading, disable_all, remove}
use protobase.Poller.Descriptors.{update_channel-fd, remove_channel-fd}
use protobase.EventLoop.Life.{
  LoopObject, LoopOwner, Outcome, left, faulted, made, NewPoller, null, failed, epoll,
  new_default_poller, register_wake, with_event_fd, make_loop, wake_channel, unregistered,
  destroy_loop,
}

-- What a thread does: it makes a loop, other channels leave the poller so, or it destroys the loop.
pub data LifeMove : Type 0 where
  makes : Bool → ℤ → ℕ → ℤ → LifeMove
  serves : Poller → LifeMove
  destroys : LifeMove

abbrev pub served : Poller → LoopOwner → LoopOwner
served p o = elim o.loop [ none ↦ o | some l ↦ record o { loop = some (record l { poller = p }) } ]

abbrev pub then_run : Outcome → (LoopOwner → Outcome) → Outcome
then_run left k = left
then_run faulted k = faulted
then_run (made o) k = k o

unfoldable pub live : List LifeMove → LoopOwner → Outcome
unfolding make_loop destroy_loop
live [] o = made o
live (makes use_poll e id v ∷ ms) o = then_run (make_loop use_poll e id v o) (live ms)
live (serves p ∷ ms) o = live ms (served p o)
live (destroys ∷ ms) o = live ms (destroy_loop o)

-- No descriptor is 0: the kernel gives 0 only where the standard input is closed.
abbrev pub NotZero : List LifeMove → Type 0
NotZero [] = Unit {0}
NotZero (makes use_poll e id (pos zero) ∷ ms) = ⊥
NotZero (makes use_poll e id (pos (suc n)) ∷ ms) = NotZero ms
NotZero (makes use_poll e id (negsuc n) ∷ ms) = NotZero ms
NotZero (serves p ∷ ms) = NotZero ms
NotZero (destroys ∷ ms) = NotZero ms

abbrev pub held : Option LoopObject → List ℤ
held none = []
held (some l) = l.epoll_fd ∷ l.wake.fd ∷ []

abbrev pub is_there : Option LoopObject → Bool
is_there none = false
is_there (some l) = true

-- Each descriptor of the thread's loops was closed as often as it was opened, but once less where it
-- is one of the two of the loop that is there.
pub record Sound (o : LoopOwner) : Type 0 where
  pub thread : o.current ≡ is_there o.loop
  pub count : (x : ℤ) → times x o.opened ≡ times x o.closed + times x (held o.loop)
  pub positive : (l : LoopObject) → o.loop ≡ some l → above_zero l.wake.fd ≡ true

abbrev pub Leads : (LoopOwner → Type 0) → Outcome → Type 0
Leads P left = Unit {0}
Leads P faulted = Unit {0}
Leads P (made o) = P o

then_run-Leads :
    (P Q : LoopOwner → Type 0) (x : Outcome) (k : LoopOwner → Outcome)
    → Leads P x
    → ((o : LoopOwner) → P o → Leads Q (k o))
    → Leads Q (then_run x k)
then_run-Leads P Q left k h f = tt
then_run-Leads P Q faulted k h f = tt
then_run-Leads P Q (made o) k h f = f o h

unregistered-fd : (l : LoopObject) → (unregistered l).fd ≡ l.wake.fd
unfolding unregistered disable_all remove
unregistered-fd l =
    remove_channel-fd (disable_all l.wake l.poller).0 (disable_all l.wake l.poller).1
    ∙ update_channel-fd (record l.wake { events = none_event }) l.poller

held_nothing : (l : Option LoopObject) → is_there l ≡ false → held l ≡ []
held_nothing none e = refl
held_nothing (some l) e = absurd cc

positive_fd : (n : ℕ) → above_zero (pos (suc n)) ≡ true
positive_fd n = ground arith

register_wake-Sound :
    (p : NewPoller) (id n : ℕ) (o : LoopOwner)
    → Sound o
    → Leads Sound (register_wake p id (pos (suc n)) o)
unfolding register_wake enable_reading protobase.Poller.update_channel wake_channel
    protobase.Channel.create
register_wake-Sound null id n o v = if_both (Leads Sound) {b = o.current} _ _ (λ e. tt) (λ e. tt)
register_wake-Sound failed id n o v = if_both (Leads Sound) {b = o.current} _ _ (λ e. tt) (λ e. tt)
register_wake-Sound (epoll fd) id n o v =
    if_both (Leads Sound) {b = o.current} left _ (λ e. tt)
      (λ e. record {
        thread = refl;
        count = λ x. omega (
          arith,
          v.count x,
          ap (times x) (held_nothing o.loop (sym v.thread ∙ e)),
          times-append x o.opened (fd ∷ pos (suc n) ∷ []),
        );
        positive =
            λ l h. ap (λ (l : LoopObject). above_zero l.wake.fd) (sym (some_inj h)) ∙ positive_fd n;
      })

-- A constructor, whose wake-up descriptor is not 0.
make_loop-Sound :
    (use_poll : Bool) (e : ℤ) (id n : ℕ) (o : LoopOwner)
    → Sound o
    → Leads Sound (make_loop use_poll e id (pos (suc n)) o)
unfolding make_loop with_event_fd new_default_poller
make_loop-Sound true e id n o v = register_wake-Sound null id n o v
make_loop-Sound false (pos fd) id n o v = register_wake-Sound (epoll (pos fd)) id n o v
make_loop-Sound false (negsuc k) id n o v = tt

make_loop_failed :
    (use_poll : Bool) (e : ℤ) (id n : ℕ) (o : LoopOwner)
    → make_loop use_poll e id (negsuc n) o ≡ left
unfolding make_loop with_event_fd new_default_poller
make_loop_failed true e id n o = refl
make_loop_failed false (pos fd) id n o = refl
make_loop_failed false (negsuc k) id n o = refl

served-Sound : (p : Poller) (o : LoopOwner) → Sound o → Sound (served p o)
served-Sound p o v = by_loop o.loop refl
  where
    by_loop :
        (l : Option LoopObject)
        → o.loop ≡ l
        → Sound (elim l [ none ↦ o | some l ↦ record o { loop = some (record l { poller = p }) } ])
    by_loop none h = v
    by_loop (some l) h = record {
      thread = v.thread ∙ ap is_there h;
      count = λ x. v.count x ∙ ap (λ m. times x o.closed + times x (held m)) h;
      positive = λ l' h'.
          ap (λ (k : LoopObject). above_zero k.wake.fd) (sym (some_inj h')) ∙ v.positive l h;
    }

-- The descriptors that the destructor closes.
abbrev ends : LoopObject → List ℤ
unfolding unregistered
ends l = if above_zero (unregistered l).fd then (unregistered l).fd ∷ [] else []

one_end : (l : LoopObject) → above_zero l.wake.fd ≡ true → ends l ≡ l.wake.fd ∷ []
unfolding ends
one_end l e =
    if_then ((unregistered l).fd ∷ []) [] (ap above_zero (unregistered-fd l) ∙ e)
    ∙ ap (λ fd. fd ∷ []) (unregistered-fd l)

destroy_loop-Sound : (o : LoopOwner) → Sound o → Sound (destroy_loop o)
unfolding destroy_loop ends
destroy_loop-Sound o v = by_loop o.loop refl
  where
    by_loop :
        (l : Option LoopObject)
        → o.loop ≡ l
        → Sound (elim l [
          | none ↦ o
          | some l ↦ record {
            current = false;
            loop = none;
            opened = o.opened;
            closed = o.closed ++ ends l ++ l.epoll_fd ∷ [];
          }
        ])
    by_loop none h = v
    by_loop (some l) h = record {
      thread = refl;
      count = λ x. omega (
        arith,
        v.count x,
        ap (λ m. times x (held m)) h,
        times-append x (o.closed ++ ends l) (l.epoll_fd ∷ []),
        times-append x o.closed (ends l),
        ap (times x) (one_end l (v.positive l h)),
      );
      positive = λ l' h'. absurd cc;
    }

-- While a loop is there, another one leaves the process.
alone :
    (use_poll : Bool) (e : ℤ) (id : ℕ) (r : ℤ) (o : LoopOwner)
    → o.current ≡ true
    → make_loop use_poll e id r o ≡ left
unfolding make_loop with_event_fd new_default_poller register_wake
alone true e id (pos n) o h = if_then _ _ h
alone true e id (negsuc n) o h = refl
alone false (pos fd) id (pos n) o h = if_then _ _ h
alone false (pos fd) id (negsuc n) o h = refl
alone false (negsuc k) id r o h = refl

live_on-Sound :
    (ms : List LifeMove) (o : LoopOwner) → NotZero ms → Sound o → Leads Sound (live ms o)
unfolding live
live_on-Sound [] o ok v = v
live_on-Sound (makes use_poll e id (pos zero) ∷ ms) o ok v = absurd ok
live_on-Sound (makes use_poll e id (pos (suc n)) ∷ ms) o ok v =
    then_run-Leads Sound Sound _ (live ms) (make_loop-Sound use_poll e id n o v)
      (λ o' v'. live_on-Sound ms o' ok v')
live_on-Sound (makes use_poll e id (negsuc n) ∷ ms) o ok v =
    subst (λ x. Leads Sound (then_run x (live ms))) (sym (make_loop_failed use_poll e id n o)) tt
live_on-Sound (serves p ∷ ms) o ok v = live_on-Sound ms (served p o) ok (served-Sound p o v)
live_on-Sound (destroys ∷ ms) o ok v = live_on-Sound ms (destroy_loop o) ok (destroy_loop-Sound o v)

-- A thread that has made no loop.
abbrev pub fresh : LoopOwner
fresh = record { current = false; loop = none; opened = []; closed = [] }

alone_or_none :
    (use_poll : Bool) (e : ℤ) (id : ℕ) (r : ℤ) (o : LoopOwner)
    → Sound o
    → (make_loop use_poll e id r o ≡ left) ⊎ (o.loop ≡ none)
alone_or_none use_poll e id r o v = elim (Option-cases o.loop) [
  | inl h ↦ inr h
  | inr (l, h) ↦ inl (alone use_poll e id r o (v.thread ∙ ap is_there h))
]

also :
    {P Q : LoopOwner → Type 0} (x : Outcome)
    → Leads P x
    → ((o : LoopOwner) → P o → Q o)
    → Leads (λ o. P o × Q o) x
also left h f = tt
also faulted h f = tt
also (made o) h f = (h, f o h)

-- A thread makes and destroys loops in any order, whatever the kernel answers, but for a wake-up
-- descriptor of 0, and whatever else its pollers serve. Unless the process is left or a call goes
-- through a null poller, each descriptor of its loops was closed as often as it was opened, but
-- once less where it is one of the two of the loop that is there. The thread has one loop at most:
-- to make another leaves the process.
pub live-Sound :
    (ms : List LifeMove) (use_poll : Bool) (e : ℤ) (id : ℕ) (r : ℤ)
    → NotZero ms
    → Leads
        (λ o. Sound o × ((make_loop use_poll e id r o ≡ left) ⊎ (o.loop ≡ none)))
        (live ms fresh)
live-Sound ms use_poll e id r ok =
    also (live ms fresh)
      (live_on-Sound ms fresh ok
        (record { thread = refl; count = λ x. refl; positive = λ l h. absurd cc }))
      (alone_or_none use_poll e id r)
