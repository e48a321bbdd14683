-- ===== src/LoopThread/Handshake.antt =====
-- src/net/EventLoopThread.cpp: what `startLoop` waits for.
use protobase.Common.{ℕ, Option, ◌≡◌, ◌∙◌, ap, refl, Bool, true, false, none, some, List, [], ◌∷◌}
use protobase.LoopThread.{
  not_started, starting, looping, ended, Caller, before, testing, waiting, returned, LoopThread,
  create, test_loop, end_thread, Move, begins, tests, wakes, publishes, ends, move, run,
}

-- The states that a thread whose loop `l` goes on can be in.
data Alive (l : ℕ) : LoopThread → Type 0 where
  fresh : Alive l (record { event_loop = none; thread = not_started; caller = before })
  early : Alive l (record { event_loop = none; thread = starting; caller = testing })
  blocked : Alive l (record { event_loop = none; thread = starting; caller = waiting })
  notified : Alive l (record { event_loop = some l; thread = looping; caller = testing })
  handed : Alive l (record { event_loop = some l; thread = looping; caller = returned l })

-- The loop does not return.
abbrev pub NoEnd : List Move → Type 0
NoEnd [] = Unit {0}
NoEnd (begins ∷ ms) = NoEnd ms
NoEnd (tests ∷ ms) = NoEnd ms
NoEnd (wakes ∷ ms) = NoEnd ms
NoEnd (publishes ∷ ms) = NoEnd ms
NoEnd (ends ∷ ms) = ⊥

begins-Alive : {l : ℕ} {t : LoopThread} → Alive l t → Alive l (move l begins t)
unfolding move
begins-Alive fresh = early
begins-Alive early = early
begins-Alive blocked = blocked
begins-Alive notified = notified
begins-Alive handed = handed

tests-Alive : {l : ℕ} {t : LoopThread} → Alive l t → Alive l (move l tests t)
unfolding move
tests-Alive fresh = fresh
tests-Alive early = blocked
tests-Alive blocked = blocked
tests-Alive notified = handed
tests-Alive handed = handed

wakes-Alive : {l : ℕ} {t : LoopThread} → Alive l t → Alive l (move l wakes t)
unfolding move
wakes-Alive fresh = fresh
wakes-Alive early = early
wakes-Alive blocked = early
wakes-Alive notified = notified
wakes-Alive handed = handed

publishes-Alive : {l : ℕ} {t : LoopThread} → Alive l t → Alive l (move l publishes t)
unfolding move
publishes-Alive fresh = fresh
publishes-Alive early = notified
publishes-Alive blocked = notified
publishes-Alive notified = notified
publishes-Alive handed = handed

run-Alive : {l : ℕ} (ms : List Move) {t : LoopThread} → NoEnd ms → Alive l t → Alive l (run l ms t)
unfolding run
run-Alive [] ok a = a
run-Alive (begins ∷ ms) ok a = run-Alive ms ok (begins-Alive a)
run-Alive (tests ∷ ms) ok a = run-Alive ms ok (tests-Alive a)
run-Alive (wakes ∷ ms) ok a = run-Alive ms ok (wakes-Alive a)
run-Alive (publishes ∷ ms) ok a = run-Alive ms ok (publishes-Alive a)
run-Alive (ends ∷ ms) ok a = absurd ok

test-returned :
    {l : ℕ} {t : LoopThread} → Alive l t → t.thread ≡ looping → (test_loop t).caller ≡ returned l
unfolding test_loop
test-returned fresh e = absurd cc
test-returned early e = absurd cc
test-returned blocked e = absurd cc
test-returned notified e = refl
test-returned handed e = refl

-- Whatever the order of the two threads' moves, once the new thread has its loop, and while that
-- loop goes on, `startLoop` does not wait: at its next test of the loop it has returned the new
-- thread's loop.
pub run-returned :
    (l : ℕ) (ms : List Move)
    → NoEnd ms
    → (run l ms create).thread ≡ looping
    → (test_loop (run l ms create)).caller ≡ returned l
unfolding create
run-returned l ms ok e = test-returned (run-Alive ms ok fresh) e

-- `startLoop` goes on.
abbrev pub is_returned : Caller → Bool
is_returned before = false
is_returned testing = false
is_returned waiting = false
is_returned (returned l) = true

-- The new thread has ended, and its loop is not set any more.
abbrev pub over : Caller → LoopThread
over c = record { event_loop = none; thread = ended; caller = c }

move-over :
    (l : ℕ) (m : Move) (c : Caller)
    → is_returned c ≡ false
    → (c' : Caller) × (move l m (over c) ≡ over c') × (is_returned c' ≡ false)
unfolding move
move-over l begins c g = (c, refl, g)
move-over l tests before g = (before, refl, refl)
move-over l tests testing g = (waiting, refl, refl)
move-over l tests waiting g = (waiting, refl, refl)
move-over l tests (returned k) g = absurd cc
move-over l wakes before g = (before, refl, refl)
move-over l wakes testing g = (testing, refl, refl)
move-over l wakes waiting g = (testing, refl, refl)
move-over l wakes (returned k) g = absurd cc
move-over l publishes c g = (c, refl, g)
move-over l ends c g = (c, refl, g)

over_stays :
    (l : ℕ) (ms : List Move) (c : Caller)
    → is_returned c ≡ false
    → is_returned (run l ms (over c)).caller ≡ false
unfolding run
over_stays l [] c g = g
over_stays l (m ∷ ms) c g =
    let (c', e, g') = move-over l m c g in
    ap (λ t. is_returned (run l ms t).caller) e ∙ over_stays l ms c' g'

-- If the new thread's loop returns before `startLoop` has, whatever it was told before, no moves of the
-- two threads from then on make `startLoop` return.
pub run-over :
    (l : ℕ) (ms : List Move) (c : Caller) (set : Option ℕ)
    → is_returned c ≡ false
    → is_returned
        (run l (ends ∷ ms) (record { event_loop = set; thread = looping; caller = c })).caller
      ≡ false
unfolding run move end_thread
run-over l ms c set g = over_stays l ms c g
