-- ===== src/EventLoop/Wakeups.antt =====
-- src/net/EventLoop.cpp: the functors that wait in a loop, and what wakes it.
use protobase.Common.{
  ℕ, ◌+◌, ◌<◌, ◌≡◌, ◌≢◌, ◌∙◌, ◌⊎◌, refl, sym, ap, subst, inl, inr, Bool, true, false, List, [], ◌∷◌,
  ◌++◌, append_assoc, append-nil, arith, if◌then◌else◌,
}
use protobase.EventLoop.{
  Loop, Phase, polling, handling, running, stopped, push, wakeup, queue_outside, wake_outside,
  quit_outside, queue_inside, quit_inside, poll, read_event_fd, take_functors, run_functor,
  end_turn, begin_loop, created,
}
use protobase.EventLoop.Moves.{
  Move, owner_queues, loop_begins, poll_wakes, is_early, NoneEarly, thread_queues, thread_quits,
  thread_wakes, poll_returns, wakeup_read, handler_queues, handler_quits, functors_taken,
  functor_queues, functor_quits, functor_done, turn_ends, move, Enabled, run, Allowed,
}

-- Nothing is pending, or the loop is woken: by its counter, or by a thread that is about to. `early` is
-- whether its own thread queued outside `loop()`: then nothing is said.
abbrev pub WokenBy : Bool → List ℕ → ℕ → ℕ → Type 0
WokenBy true pending counter waking = Unit {0}
WokenBy false pending counter waking = (pending ≡ []) ⊎ (0 < counter + waking)

abbrev pub Woken : Bool → Loop → Type 0
Woken early l = WokenBy early l.pending l.counter l.waking

abbrev pub InPhase : Bool → Phase → Loop → Type 0
InPhase early polling l = ((l.calling ≡ false) × (l.remaining ≡ [])) × Woken early l
InPhase early handling l = (l.calling ≡ false) × (l.remaining ≡ [])
InPhase early running l = (l.calling ≡ true) × Woken early l
InPhase early stopped l = ((l.calling ≡ false) × (l.remaining ≡ [])) × Woken early l

up_unless :
    (early : Bool) (l : Loop) → (l.pending ≡ []) ⊎ (0 < l.counter + l.waking) → Woken early l
up_unless true l w = tt
up_unless false l w = w

-- What holds of a loop between any two moves.
pub record Sound (early : Bool) (l : Loop) : Type 0 where
  pub in_order : l.queued ≡ l.ran ++ (l.remaining ++ l.pending)
  pub in_phase : InPhase early l.phase l

module _ (early : Bool) (l : Loop) where
  pub at : (p : Phase) → Sound early l → l.phase ≡ p → InPhase early p l
  at p s e = subst (λ q. InPhase early q l) e s.in_phase

  -- A move that leaves the phase, the flag and the local functors, and wakes the loop.
  outside-InPhase :
      (l' : Loop)
      → l'.calling ≡ l.calling
      → l'.remaining ≡ l.remaining
      → Woken early l'
      → (p : Phase) → InPhase early p l
      → InPhase early p l'
  outside-InPhase l' c r w polling h = ((c ∙ h.0.0, r ∙ h.0.1), w)
  outside-InPhase l' c r w handling h = (c ∙ h.0, r ∙ h.1)
  outside-InPhase l' c r w running h = (c ∙ h.0, w)
  outside-InPhase l' c r w stopped h = ((c ∙ h.0.0, r ∙ h.0.1), w)

  push_order :
      (x : ℕ) → Sound early l → l.queued ++ x ∷ [] ≡ l.ran ++ (l.remaining ++ (l.pending ++ x ∷ []))
  push_order x s =
      ap (λ q. q ++ x ∷ []) s.in_order
      ∙ append_assoc l.ran (l.remaining ++ l.pending) (x ∷ [])
      ∙ ap (λ q. l.ran ++ q) (append_assoc l.remaining l.pending (x ∷ []))

onto :
    (early : Bool) (p : Phase) (l : Loop)
    → l.phase ≡ p
    → InPhase early p l
    → InPhase early l.phase l
onto early p l e h = subst (λ q. InPhase early q l) (sym e) h

functor_done-Sound :
    (early : Bool) (xs : List ℕ) (l : Loop)
    → l.phase ≡ running
    → xs ≢ []
    → Sound early (record l { remaining = xs })
    → Sound early (run_functor (record l { remaining = xs }))
unfolding run_functor
functor_done-Sound early [] l e some_left s = absurd (some_left refl)
functor_done-Sound early (x ∷ xs) l e some_left s = record {
  in_order = s.in_order ∙ sym (append_assoc l.ran (x ∷ []) (xs ++ l.pending));
  in_phase =
      onto early running (run_functor (record l { remaining = x ∷ xs })) e
        (at early (record l { remaining = x ∷ xs }) running s e);
}

turn_ends-InPhase :
    (early b : Bool) (l : Loop)
    → l.calling ≡ false
    → l.remaining ≡ []
    → Woken early l
    → InPhase early (if b then stopped else polling) l
turn_ends-InPhase early true l c r w = ((c, r), w)
turn_ends-InPhase early false l c r w = ((c, r), w)

-- The loop's own thread queues a functor, in a handler or in a functor.
queue_inside-handling : (x : ℕ) (l : Loop) → l.calling ≡ false → queue_inside x l ≡ push x l
unfolding queue_inside
queue_inside-handling x l c = rw (c, queue_inside) refl

queue_inside-running : (x : ℕ) (l : Loop) → l.calling ≡ true → queue_inside x l ≡ wakeup (push x l)
unfolding queue_inside
queue_inside-running x l c = rw (c, queue_inside) refl

move-Sound :
    (early : Bool) (m : Move) (l : Loop)
    → Enabled m l
    → (is_early m ≡ true → early ≡ true)
    → Sound early l
    → Sound early (move m l)
unfolding move queue_outside wake_outside quit_outside queue_inside quit_inside poll read_event_fd
    take_functors run_functor end_turn wakeup begin_loop
move-Sound early (owner_queues x) l e k s =
    rw (queue_inside-handling x l (at early l stopped s e).0.0) record {
      in_order = push_order early l x s;
      in_phase =
          onto early stopped (push x l) e
            ((at early l stopped s e).0, subst (λ b. Woken b (push x l)) (sym (k refl)) tt);
    }
move-Sound early loop_begins l e k s = record {
  in_order = s.in_order;
  in_phase = at early l stopped s e;
}
move-Sound early (thread_queues x) l e k s = record {
  in_order = push_order early l x s;
  in_phase =
      outside-InPhase early l (queue_outside x l) refl refl
        (up_unless early (queue_outside x l) (inr (omega arith))) l.phase s.in_phase;
}
move-Sound early thread_quits l e k s = record {
  in_order = s.in_order;
  in_phase =
      outside-InPhase early l (quit_outside l) refl refl
        (up_unless early (quit_outside l) (inr (omega arith))) l.phase s.in_phase;
}
move-Sound early thread_wakes l e k s = record {
  in_order = s.in_order;
  in_phase =
      outside-InPhase early l (wake_outside l) refl refl
        (up_unless early (wake_outside l) (inr (omega arith))) l.phase s.in_phase;
}
move-Sound early poll_wakes l e k s = record {
  in_order = s.in_order;
  in_phase = (at early l polling s e.0).0;
}
move-Sound early poll_returns l e k s = record {
  in_order = s.in_order;
  in_phase = (at early l polling s e).0;
}
move-Sound early wakeup_read l e k s = record {
  in_order = s.in_order;
  in_phase = onto early handling (read_event_fd l) e.0 (at early l handling s e.0);
}
move-Sound early (handler_queues x) l e k s =
    rw (queue_inside-handling x l (at early l handling s e).0) record {
      in_order = push_order early l x s;
      in_phase = onto early handling (push x l) e (at early l handling s e);
    }
move-Sound early handler_quits l e k s = record {
  in_order = s.in_order;
  in_phase = onto early handling (quit_inside l) e (at early l handling s e);
}
move-Sound early functors_taken l e k s = record {
  in_order =
      s.in_order
      ∙ ap (λ r. l.ran ++ (r ++ l.pending)) (at early l handling s e.0).1
      ∙ ap (λ q. l.ran ++ q) (sym (append-nil l.pending));
  in_phase = (refl, up_unless early (take_functors l) (inl refl));
}
move-Sound early (functor_queues x) l e k s =
    rw (queue_inside-running x l (at early l running s e.0).0) record {
      in_order = push_order early l x s;
      in_phase =
          onto early running (wakeup (push x l)) e.0
            ((at early l running s e.0).0, up_unless early (wakeup (push x l)) (inr (omega arith)));
    }
move-Sound early functor_quits l e k s = record {
  in_order = s.in_order;
  in_phase = onto early running (quit_inside l) e.0 (at early l running s e.0);
}
move-Sound early functor_done l e k s = functor_done-Sound early l.remaining l e.0 e.1 s
move-Sound early turn_ends l e k s = record {
  in_order = s.in_order;
  in_phase = turn_ends-InPhase early l.quit (end_turn l) refl e.1 (at early l running s e.0).1;
}

-- Between any moves that the code allows.
run-Sound : (ms : List Move) (l : Loop) → Allowed ms l → Sound true l → Sound true (run ms l)
unfolding run
run-Sound [] l ok s = s
run-Sound (m ∷ ms) l ok s = run-Sound ms (move m l) ok.1 (move-Sound true m l ok.0 (λ e. refl) s)

-- And where the loop's own thread queues nothing outside `loop()`.
run_late-Sound :
    (ms : List Move) (l : Loop)
    → Allowed ms l
    → NoneEarly ms
    → Sound false l
    → Sound false (run ms l)
unfolding run
run_late-Sound [] l ok none s = s
run_late-Sound (m ∷ ms) l ok none s =
    run_late-Sound ms (move m l) ok.1 none.1
      (move-Sound false m l ok.0 (λ e. absurd (cc (e, none.0))) s)

created-Sound : (early : Bool) → Sound early created
created-Sound early = record {
  in_order = refl;
  in_phase = ((refl, refl), up_unless early created (inl refl));
}

-- Whatever the thread of a new loop and any other threads do, before `loop()`, in it and after it, in any
-- order that the code allows, each functor queued so far has run, is to run in this turn or is
-- pending, once and in the order of the queue.
pub queued_in_order :
    (ms : List Move)
    → Allowed ms created
    → (run ms created).queued
      ≡ (run ms created).ran ++ ((run ms created).remaining ++ (run ms created).pending)
queued_in_order ms ok = (run-Sound ms created ok (created-Sound true)).in_order

-- Where functors are pending while a loop polls, after any moves that the code allows of its thread and
-- of others, and no thread is about to wake it, its counter is above 0, so `poll` returns. The loop's own
-- thread queues nothing outside `loop()`: such a functor wakes nobody.
pub no_lost_wakeup :
    (ms : List Move)
    → Allowed ms created
    → NoneEarly ms
    → (run ms created).phase ≡ polling
    → (run ms created).pending ≢ []
    → (run ms created).waking ≡ 0
    → 0 < (run ms created).counter
no_lost_wakeup ms ok none e some_pending idle =
    woken (run ms created)
      (at false (run ms created) polling (run_late-Sound ms created ok none (created-Sound false))
        e).1
      some_pending idle
  where
    woken : (l : Loop) → Woken false l → l.pending ≢ [] → l.waking ≡ 0 → 0 < l.counter
    woken l (inl none_pending) some_pending idle = absurd (some_pending none_pending)
    woken l (inr up) some_pending idle = omega arith
