-- ===== src/Acceptor/Descriptors.antt =====
-- src/net/Acceptor.cpp: what becomes of the descriptors.
use protobase.Common.{
  ◌+◌, ◌≡◌, ◌∙◌, refl, sym, ap, subst, true, List, [], ◌∷◌, ◌++◌, if_then, if_both, arith,
  append_assoc, append-nil,
}
use protobase.Common.Int.{ℤ, pos, negsuc, times, times-append}
use protobase.Socket.{above_zero}
use protobase.Channel.{Channel, none_event}
use protobase.Poller.{disable_all, remove}
use protobase.Poller.Descriptors.{update_channel-fd, remove_channel-fd}
use protobase.Acceptor.{
  on_channel, Acceptor, Answer, accepted, limit_reached, refused, got, make_room, on_read,
  close_channel, dispose,
}

-- The readable events of a life, by what the kernel answers.
abbrev pub on_reads : List Answer → Acceptor → Acceptor
on_reads [] a = a
on_reads (r ∷ rs) a = on_reads rs (on_read r a)

-- The connections that `accept` answers before the descriptor limit is reached.
abbrev pub arrived : List Answer → List ℤ
arrived [] = []
arrived (accepted fd ∷ rs) = pos fd ∷ arrived rs
arrived (limit_reached second reopened ∷ rs) = arrived rs
arrived (refused ∷ rs) = arrived rs

-- Each descriptor was opened as often as it was closed and handed over, and once more where it is
-- held: the one that listens and the one kept in reserve.
pub record Balanced (a : Acceptor) : Type 0 where
  pub count :
      (x : ℤ)
      → times x a.opened
        ≡ times x a.closed
          + times x a.handed
          + (times x (got a.channel.fd) + times x (got a.idle_fd))

make_room-Balanced :
    (second reopened : ℤ) (a : Acceptor)
    → Balanced a
    → Balanced (record a {
      idle_fd = reopened;
      opened = a.opened ++ got second ++ got reopened;
      closed = a.closed ++ got a.idle_fd ++ got second;
    })
make_room-Balanced second reopened a v = record {
  count = λ x. omega (
    arith,
    v.count x,
    times-append x (a.opened ++ got second) (got reopened),
    times-append x a.opened (got second),
    times-append x (a.closed ++ got a.idle_fd) (got second),
    times-append x a.closed (got a.idle_fd),
  );
}

on_read-Balanced : (r : Answer) (a : Acceptor) → Balanced a → Balanced (on_read r a)
unfolding on_read
on_read-Balanced (accepted fd) a v =
    if_both Balanced {b = a.has_callback} _ _
      (λ e. record {
        count = λ x. omega (
          arith,
          v.count x,
          times-append x a.opened (pos fd ∷ []),
          times-append x a.handed (pos fd ∷ []),
        );
      })
      (λ e. record {
        count = λ x. omega (
          arith,
          v.count x,
          times-append x a.opened (pos fd ∷ []),
          times-append x a.closed (pos fd ∷ []),
        );
      })
on_read-Balanced (limit_reached second reopened) a v = make_room-Balanced second reopened a v
on_read-Balanced refused a v = v

-- The count once the descriptor that listens is closed.
dispose_lem :
    (a : Acceptor)
    → Balanced a
    → above_zero a.channel.fd ≡ true
    → (x : ℤ)
    → times x (dispose a).opened
      ≡ times x (dispose a).closed + times x (dispose a).handed + times x (got a.idle_fd)
unfolding dispose disable_all remove close_channel
dispose_lem a v above x =
    let off = on_channel remove (on_channel disable_all a) in
    let same_fd =
      remove_channel-fd _ _
      ∙ update_channel-fd (record a.channel { events = none_event }) a.poller in
    subst
      (λ (a' : Acceptor).
        times x a'.opened ≡ times x a'.closed + times x a'.handed + times x (got a.idle_fd))
      (sym (if_then {b = above_zero off.channel.fd} _ off (ap above_zero same_fd ∙ above)))
      (omega (
        arith,
        v.count x,
        ap (times x) (one a.channel.fd above),
        ap (λ fd. times x (fd ∷ [])) same_fd,
        times-append x a.closed (off.channel.fd ∷ []),
      ))
  where
    one : (fd : ℤ) → above_zero fd ≡ true → got fd ≡ fd ∷ []
    one (pos n) e = refl
    one (negsuc n) e = absurd cc

-- What `on_reads` leaves.
record Served (rs : List Answer) (a a' : Acceptor) : Type 0 where
  order : a'.handed ≡ a.handed ++ arrived rs
  balanced : Balanced a'
  same_channel : a'.channel ≡ a.channel

on_reads-Served :
    (rs : List Answer) (a : Acceptor)
    → a.has_callback ≡ true
    → Balanced a
    → Served rs a (on_reads rs a)
unfolding on_read
on_reads-Served [] a cb v = record {
  order = sym (append-nil a.handed);
  balanced = v;
  same_channel = refl;
}
on_reads-Served (accepted fd ∷ rs) a cb v =
    let a' = record a { opened = a.opened ++ pos fd ∷ []; handed = a.handed ++ pos fd ∷ [] } in
    let b' = record a { opened = a.opened ++ pos fd ∷ []; closed = a.closed ++ pos fd ∷ [] } in
    let e = if_then {b = a.has_callback} a' b' cb in
    let w = on_reads-Served rs a' cb (subst Balanced e (on_read-Balanced (accepted fd) a v)) in
    subst (λ k. Served (accepted fd ∷ rs) a (on_reads rs k)) (sym e)
      (record {
        order = w.order ∙ append_assoc a.handed (pos fd ∷ []) (arrived rs);
        balanced = w.balanced;
        same_channel = w.same_channel;
      })
on_reads-Served (limit_reached second reopened ∷ rs) a cb v =
    let w =
      on_reads-Served rs (make_room second reopened a) cb
        (make_room-Balanced second reopened a v) in
    record { order = w.order; balanced = w.balanced; same_channel = w.same_channel }
on_reads-Served (refused ∷ rs) a cb v =
    let w = on_reads-Served rs a cb v in
    record { order = w.order; balanced = w.balanced; same_channel = w.same_channel }

-- An acceptor with a callback, and a descriptor above zero that listens, hands over every
-- connection that `accept` answers short of the descriptor limit, once and in their order. Each
-- descriptor was opened as often as it was closed or handed over, and once more where it is held,
-- which are the one that listens and the one in reserve: so a connection that the second `accept`
-- answers at the limit is closed. Once the destructor has run, all is closed or handed over but the
-- one in reserve, which stays open.
pub on_reads-Balanced :
    (rs : List Answer) (a : Acceptor)
    → a.has_callback ≡ true
    → above_zero a.channel.fd ≡ true
    → Balanced a
    → ((on_reads rs a).handed ≡ a.handed ++ arrived rs)
      × Balanced (on_reads rs a)
      × ((x : ℤ)
          → times x (dispose (on_reads rs a)).opened
            ≡ times x (dispose (on_reads rs a)).closed
              + times x (dispose (on_reads rs a)).handed
              + times x (got (on_reads rs a).idle_fd))
on_reads-Balanced rs a cb above v =
    let w = on_reads-Served rs a cb v in
    (
      w.order,
      w.balanced,
      dispose_lem (on_reads rs a) w.balanced
          (ap (λ (c : Channel). above_zero c.fd) w.same_channel ∙ above),
    )
