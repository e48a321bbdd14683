-- ===== src/Connector/Sockets.antt =====
-- src/net/Connector.cpp: what becomes of the sockets.
use protobase.Common.{
  ◌+◌, ◌≡◌, ◌∙◌, refl, ap, Bool, true, false, List, [], ◌∷◌, ◌++◌, arith, if◌then◌else◌,
}
use protobase.Common.Int.{ℤ, times, times-append}
use protobase.Poller.Descriptors.{update_channel-fd}
use protobase.Connection.{ConnectionState, k_disconnected}
use protobase.Connector.{
  Connector, Attempt, no_socket, attempted, in_progress, try_later, hopeless, is_connecting, retry,
  connecting, try_connect, start_in_loop, stop, stop_in_loop, on_write, on_error, remove_channel,
}

-- The socket that a connector holds: that of its channel while it connects.
abbrev pub held : ConnectionState → ℤ → List ℤ
held s fd = if is_connecting s then fd ∷ [] else []

-- Every socket was opened as often as it was closed and handed over, and once more while it is held.
abbrev pub Owned : Connector → Type 0
Owned c =
    (x : ℤ)
    → times x c.opened ≡ times x c.closed + times x c.handed + times x (held c.state c.channel.fd)

-- What the loop does with a connector.
pub data Event : Type 0 where
  timer_runs : Attempt → Event
  stops : Event
  writes : Bool → Event
  fails : Event

unfoldable pub happen : Event → Connector → Connector
unfolding start_in_loop stop on_write on_error
happen (timer_runs a) c = start_in_loop a c
happen stops c = stop c
happen (writes err) c = on_write err c
happen fails c = on_error c

-- No attempt starts while another is under way.
abbrev pub Alone : Event → Connector → Type 0
Alone (timer_runs a) c = is_connecting c.state ≡ false
Alone stops c = Unit {0}
Alone (writes err) c = Unit {0}
Alone fails c = Unit {0}

held_none :
    (x : ℤ) (s : ConnectionState) (fd : ℤ) → is_connecting s ≡ false → times x (held s fd) ≡ 0
held_none x s fd h = rw h refl

-- Both branches of a test.
if_Owned :
    {b : Bool} (x y : Connector)
    → (b ≡ true → Owned x)
    → (b ≡ false → Owned y)
    → Owned (if b then x else y)
if_Owned {b = true} x y f g = f refl
if_Owned {b = false} x y f g = g refl

-- A socket is held, whatever the state says.
abbrev Holding : ℤ → Connector → Type 0
Holding s c = (x : ℤ) → times x c.opened ≡ times x c.closed + times x c.handed + times x (s ∷ [])

retry-Owned : (s : ℤ) (c : Connector) → Holding s c → Owned (retry s c)
unfolding retry
retry-Owned s c h =
    if_Owned {b = c.connect} _ _ (λ k x. omega (arith, h x, times-append x c.closed (s ∷ [])))
      (λ k x. omega (arith, h x, times-append x c.closed (s ∷ [])))

Owned-Holding : (c : Connector) → Owned c → is_connecting c.state ≡ true → Holding c.channel.fd c
Owned-Holding c o k x =
    o x
    ∙ ap (λ l. times x c.closed + times x c.handed + times x l) (held_one c.state c.channel.fd k)
  where
    held_one : (s : ConnectionState) (fd : ℤ) → is_connecting s ≡ true → held s fd ≡ fd ∷ []
    held_one s fd h = rw h refl

connecting-fd : (s : ℤ) (c : Connector) → (connecting s c).channel.fd ≡ s
unfolding connecting protobase.Poller.enable_writing
connecting-fd s c =
    update_channel-fd
      (record c.channel {
        fd = s;
        has_write = true;
        has_error = true;
        events = record c.channel.events { write_event = true };
      })
      c.poller

try_connect-Owned :
    (a : Attempt) (c : Connector)
    → Owned c
    → is_connecting c.state ≡ false
    → Owned (try_connect a c)
unfolding try_connect connecting
try_connect-Owned no_socket c o h = o
try_connect-Owned (attempted s in_progress) c o h = λ x. omega (
  arith,
  o x,
  held_none x c.state c.channel.fd h,
  times-append x c.opened (s ∷ []),
  ap (λ fd. times x (fd ∷ [])) (connecting-fd s (record c { opened = c.opened ++ s ∷ [] })),
)
try_connect-Owned (attempted s try_later) c o h =
    retry-Owned s (record c { opened = c.opened ++ s ∷ [] })
      (λ x.
        omega (arith, o x, held_none x c.state c.channel.fd h, times-append x c.opened (s ∷ [])))
try_connect-Owned (attempted s hopeless) c o h = λ x. omega (
  arith,
  o x,
  held_none x c.state c.channel.fd h,
  held_none x (try_connect (attempted s hopeless) c).state
      (try_connect (attempted s hopeless) c).channel.fd h,
  times-append x c.opened (s ∷ []),
  times-append x c.closed (s ∷ []),
)

on_write-Owned : (err : Bool) (c : Connector) → Owned c → Owned (on_write err c)
unfolding on_write remove_channel
on_write-Owned true c o =
    if_Owned {b = is_connecting c.state} _ c
      (λ k. retry-Owned c.channel.fd (remove_channel c) (Owned-Holding c o k)) (λ k. o)
on_write-Owned false c o =
    if_Owned {b = is_connecting c.state} _ c
      (λ k.
        if_Owned {b = c.connect} _ _
          (λ i.
            if_Owned {b = c.has_callback} _ _
              (λ j x.
                omega (arith, Owned-Holding c o k x, times-append x c.handed (c.channel.fd ∷ [])))
              (λ j x.
                omega (arith, Owned-Holding c o k x, times-append x c.closed (c.channel.fd ∷ []))))
          (λ i x.
            omega (arith, Owned-Holding c o k x, times-append x c.closed (c.channel.fd ∷ []))))
      (λ k. o)

happen-Owned : (e : Event) (c : Connector) → Owned c → Alone e c → Owned (happen e c)
unfolding happen start_in_loop stop stop_in_loop on_error remove_channel
happen-Owned (timer_runs a) c o h =
    if_Owned {b = c.connect} (try_connect a c) c (λ k. try_connect-Owned a c o h) (λ k. o)
happen-Owned stops c o h =
    if_Owned {b = is_connecting c.state} _ _
      (λ k.
        retry-Owned c.channel.fd
          (remove_channel (record c { connect = false; state = k_disconnected }))
          (Owned-Holding c o k))
      (λ k. o)
happen-Owned (writes err) c o h = on_write-Owned err c o
happen-Owned fails c o h =
    if_Owned {b = is_connecting c.state} _ c
      (λ k. retry-Owned c.channel.fd (remove_channel c) (Owned-Holding c o k)) (λ k. o)

abbrev pub history : List Event → Connector → Connector
history [] c = c
history (e ∷ es) c = history es (happen e c)

abbrev pub AllAlone : List Event → Connector → Type 0
AllAlone [] c = Unit {0}
AllAlone (e ∷ es) c = Alone e c × AllAlone es (happen e c)

-- Over any sequence of attempts, stops, writable events and errors, where no attempt starts while
-- another is under way, a connector leaks no socket and closes none twice: each descriptor was
-- opened as often as it was closed or handed over, and once more while the connector holds it,
-- which is the descriptor of its channel while it connects. This is kept from wherever it holds, as
-- in a new connector.
pub history-Owned :
    (es : List Event) (c : Connector) → Owned c → AllAlone es c → Owned (history es c)
history-Owned [] c o h = o
history-Owned (e ∷ es) c o h = history-Owned es (happen e c) (happen-Owned e c o h.0) h.1
