-- ===== src/LoopThread/Ending/Joins.antt =====
-- src/net/EventLoopThread.cpp: whether the destructor returns.
use protobase.Common.{
  ◌≡◌, ◌∙◌, refl, sym, ap, Bool, true, false, Option, some, List, [], ◌∷◌, ◌++◌, ◌>>=◌,
  Option-cases, inl, inr,
}
use protobase.LoopThread.Ending.{
  Runner, ready, looping, stopping, over, Destructor, seen, joining, finished, Ending, enter,
  test_quit, clear_loop, look, quit_loop, join, EndMove, enters, tests, clears, looks, quits, joins,
  end_move, end_moves,
}

-- The two threads, with what the fields hold.
abbrev pub at : Runner → Destructor → Bool → Bool → Ending
at r d q l = record { runner = r; destructor = d; quit = q; loop_set = l; exiting = true }

-- A move leaves one of the states that a predicate describes, and is no fault.
Leaves : (Ending → Type 0) → Option Ending → Type 0
Leaves P m = (s : Ending) × (m ≡ some s) × P s

runs_on :
    (P : Ending → Type 0)
    → ((m : EndMove) (s : Ending) → P s → Leaves P (end_move m s))
    → (ms : List EndMove) (s : Ending) → P s
    → Leaves P (end_moves ms s)
unfolding Leaves end_moves
runs_on P step [] s v = (s, refl, v)
runs_on P step (m ∷ ms) s v =
    let (s', e, v') = step m s v in
    let (u, e', w) = runs_on P step ms s' v' in (u, ap (λ x. x >>= λ s'. end_moves ms s') e ∙ e', w)

-- `join` waits for a loop that has reset `m_quit`, or is to do so.
data Unheard : Ending → Type 0 where
  not_begun : (q l : Bool) → Unheard (at ready joining q l)
  reset : (l : Bool) → Unheard (at looping joining false l)

step_Unheard : (m : EndMove) (s : Ending) → Unheard s → Leaves Unheard (end_move m s)
unfolding Leaves end_move enter test_quit clear_loop look quit_loop join
step_Unheard enters _ (not_begun q l) = (_, refl, reset l)
step_Unheard tests _ (not_begun q l) = (_, refl, not_begun q l)
step_Unheard clears _ (not_begun q l) = (_, refl, not_begun q l)
step_Unheard looks _ (not_begun q l) = (_, refl, not_begun q l)
step_Unheard quits _ (not_begun q l) = (_, refl, not_begun q l)
step_Unheard joins _ (not_begun q l) = (_, refl, not_begun q l)
step_Unheard enters _ (reset l) = (_, refl, reset l)
step_Unheard tests _ (reset l) = (_, refl, reset l)
step_Unheard clears _ (reset l) = (_, refl, reset l)
step_Unheard looks _ (reset l) = (_, refl, reset l)
step_Unheard quits _ (reset l) = (_, refl, reset l)
step_Unheard joins _ (reset l) = (_, refl, reset l)

Unheard-waits : {s : Ending} → Unheard s → s.destructor ≡ joining
Unheard-waits (not_begun q l) = refl
Unheard-waits (reset l) = refl

-- A loop that has heard of the quit, up to the end of the destructor.
data Heard : Ending → Type 0 where
  to_test : (l : Bool) → Heard (at looping joining true l)
  to_clear : (q l : Bool) → Heard (at stopping joining q l)
  to_join : (q l : Bool) → Heard (at over joining q l)
  done : (q l : Bool) → Heard (at over finished q l)

step_Heard : (m : EndMove) (s : Ending) → Heard s → Leaves Heard (end_move m s)
unfolding Leaves end_move enter test_quit clear_loop look quit_loop join
step_Heard enters _ (to_test l) = (_, refl, to_test l)
step_Heard tests _ (to_test l) = (_, refl, to_clear true l)
step_Heard clears _ (to_test l) = (_, refl, to_test l)
step_Heard looks _ (to_test l) = (_, refl, to_test l)
step_Heard quits _ (to_test l) = (_, refl, to_test l)
step_Heard joins _ (to_test l) = (_, refl, to_test l)
step_Heard enters _ (to_clear q l) = (_, refl, to_clear q l)
step_Heard tests _ (to_clear q l) = (_, refl, to_clear q l)
step_Heard clears _ (to_clear q l) = (_, refl, to_join q false)
step_Heard looks _ (to_clear q l) = (_, refl, to_clear q l)
step_Heard quits _ (to_clear q l) = (_, refl, to_clear q l)
step_Heard joins _ (to_clear q l) = (_, refl, to_clear q l)
step_Heard enters _ (to_join q l) = (_, refl, to_join q l)
step_Heard tests _ (to_join q l) = (_, refl, to_join q l)
step_Heard clears _ (to_join q l) = (_, refl, to_join q l)
step_Heard looks _ (to_join q l) = (_, refl, to_join q l)
step_Heard quits _ (to_join q l) = (_, refl, to_join q l)
step_Heard joins _ (to_join q l) = (_, refl, done q l)
step_Heard enters _ (done q l) = (_, refl, done q l)
step_Heard tests _ (done q l) = (_, refl, done q l)
step_Heard clears _ (done q l) = (_, refl, done q l)
step_Heard looks _ (done q l) = (_, refl, done q l)
step_Heard quits _ (done q l) = (_, refl, done q l)
step_Heard joins _ (done q l) = (_, refl, done q l)

-- The rest of the thread, and of the destructor.
abbrev pub wind_up : List EndMove
wind_up = tests ∷ clears ∷ joins ∷ []

Heard-finishes :
    {s : Ending}
    → Heard s
    → (u : Ending) × (end_moves wind_up s ≡ some u) × (u.destructor ≡ finished)
unfolding end_moves end_move test_quit clear_loop join
Heard-finishes (to_test l) = (_, refl, refl)
Heard-finishes (to_clear q l) = (_, refl, refl)
Heard-finishes (to_join q l) = (_, refl, refl)
Heard-finishes (done q l) = (_, refl, refl)

end_moves-append :
    (ms ns : List EndMove) (s : Ending) → end_moves (ms ++ ns) s ≡ (end_moves ms s >>= end_moves ns)
unfolding end_moves
end_moves-append [] ns s = refl
end_moves-append (m ∷ ms) ns s = elim (Option-cases (end_move m s)) [
  | inl e ↦
      ap (λ x. x >>= λ s'. end_moves (ms ++ ns) s') e
      ∙ sym (ap (λ x. (x >>= λ s'. end_moves ms s') >>= end_moves ns) e)
  | inr (s', e) ↦
      ap (λ x. x >>= λ s'. end_moves (ms ++ ns) s') e
      ∙ end_moves-append ms ns s'
      ∙ sym (ap (λ x. (x >>= λ s'. end_moves ms s') >>= end_moves ns) e)
]

-- The destructor sees the loop of a thread that has not yet called `loop()`, and quits it: whatever
-- moves the two threads make from then on, in any order, it does not return, since `loop()` resets
-- `m_quit`. Nobody else quits the loop.
pub quit_lost :
    (ms : List EndMove) (q l : Bool)
    → (s : Ending) × (end_moves (quits ∷ ms) (at ready seen q l) ≡ some s)
      × (s.destructor ≡ joining)
unfolding end_moves end_move quit_loop Leaves
quit_lost ms q l =
    let (s, e, v) = runs_on Unheard step_Unheard ms (at ready joining true l) (not_begun true l) in
    (s, e, Unheard-waits v)

-- Where the loop runs when the destructor quits it, no moves of the two threads lose the quit: after
-- any of them, the test of the loop's `while`, the end of `threadFunc` and `join` are all that the
-- destructor needs to return, and it touches no loop that is gone.
pub quit_heard :
    (ms : List EndMove) (q l : Bool)
    → (s : Ending) × (end_moves (quits ∷ ms ++ wind_up) (at looping seen q l) ≡ some s)
      × (s.destructor ≡ finished)
unfolding end_moves end_move quit_loop Leaves
quit_heard ms q l =
    let (s, e, v) = runs_on Heard step_Heard ms (at looping joining true l) (to_test l) in
    let (u, e', w) = Heard-finishes v in
    (
      u,
      end_moves-append ms wind_up (at looping joining true l)
          ∙ ap (λ x. x >>= end_moves wind_up) e
          ∙ e',
      w,
    )
