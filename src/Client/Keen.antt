-- ===== src/Client/Keen.antt =====
-- src/net/Connector.cpp under src/net/TcpClient.cpp: a connector that is to connect.
use protobase.Common.{
  ℕ, ◌*◌, ◌<◌, ◌≤◌, ◌≡◌, ◌∙◌, ◌⊎◌, refl, sym, subst, inl, inr, Bool, true, false, ◌&&◌, not, [],
  ◌∷◌, ◌++◌, if◌then◌else◌, arith, length, length-append, if_then, if_both, min,
}
use protobase.Common.Int.{ℤ}
use protobase.Connection.{k_disconnected}
use protobase.Connector.{
  Connector, Attempt, no_socket, attempted, in_progress, try_later, hopeless, is_connecting,
  start_in_loop, close, try_connect, connecting, retry, on_write, remove_channel,
  max_retry_interval,
}

-- The attempts that begin a connection or are to be tried later; after any other the connector gives up.
abbrev pub Hopeful : Attempt → Type 0
Hopeful no_socket = ⊥
Hopeful (attempted s in_progress) = Unit {0}
Hopeful (attempted s try_later) = Unit {0}
Hopeful (attempted s hopeless) = ⊥

-- A connector that is to connect and hands its sockets over; `n` of its timers have run.
pub record Keen (n : ℕ) (k : Connector) : Type 0 where
  pub connects : k.connect ≡ true
  pub hands_over : k.has_callback ≡ true
  pub in_time : n ≤ length k.timers

-- A change of the rest.
pub keep_Keen :
    {n : ℕ} (k k' : Connector)
    → k'.connect ≡ k.connect
    → k'.has_callback ≡ k.has_callback
    → k'.timers ≡ k.timers
    → Keen n k
    → Keen n k'
keep_Keen {n} k k' e f g keen = record {
  connects = e ∙ keen.connects;
  hands_over = f ∙ keen.hands_over;
  in_time = subst (λ ts. n ≤ length ts) (sym g) keen.in_time;
}

-- An attempt is under way, or a timer is still to run.
abbrev pub Trying : ℕ → Connector → Type 0
Trying n k = (is_connecting k.state ≡ true) ⊎ (n < length k.timers)

-- The connector after a retry.
abbrev waiting : ℤ → Connector → Connector
waiting s k = record (close s k) {
  state = k_disconnected;
  timers = k.timers ++ k.interval * 1000 ∷ [];
  interval = min (k.interval * 2) max_retry_interval;
}

retry-waiting : (s : ℤ) (k : Connector) → k.connect ≡ true → retry s k ≡ waiting s k
unfolding retry
retry-waiting s k on =
    if_then {b = k.connect} (waiting s k) (record (close s k) { state = k_disconnected }) on

retry-Keen : (n : ℕ) (s : ℤ) (k : Connector) → Keen n k → Keen n (retry s k) × Trying n (retry s k)
retry-Keen n s k keen =
    subst (λ k'. Keen n k' × Trying n k') (sym (retry-waiting s k keen.connects))
      (
        record {
          connects = keen.connects;
          hands_over = keen.hands_over;
          in_time = omega (arith, keen.in_time, length-append k.timers (k.interval * 1000 ∷ []));
        },
        inr (omega (arith, keen.in_time, length-append k.timers (k.interval * 1000 ∷ []))),
      )

try_connect-Keen :
    (n : ℕ) (a : Attempt) (k : Connector)
    → Hopeful a
    → Keen n k
    → Keen n (try_connect a k) × Trying n (try_connect a k)
unfolding try_connect connecting
try_connect-Keen n no_socket k h keen = absurd h
try_connect-Keen n (attempted s in_progress) k h keen =
    (keep_Keen k _ refl refl refl keen, inl refl)
try_connect-Keen n (attempted s try_later) k h keen =
    retry-Keen n s (record k { opened = k.opened ++ s ∷ [] }) (keep_Keen k _ refl refl refl keen)
try_connect-Keen n (attempted s hopeless) k h keen = absurd h

pub start_in_loop-Keen :
    (n : ℕ) (a : Attempt) (k : Connector)
    → Hopeful a
    → Keen n k
    → Keen n (start_in_loop a k) × Trying n (start_in_loop a k)
unfolding start_in_loop
start_in_loop-Keen n a k h keen =
    subst (λ k'. Keen n k' × Trying n k')
      (sym (if_then {b = k.connect} (try_connect a k) k keen.connects))
      (try_connect-Keen n a k h keen)

-- An attempt that fails is put off; when none is under way nothing changes.
pub put_off-Keen :
    (n : ℕ) (k : Connector) {Connected : Type 0}
    → Keen n k
    → Connected ⊎ Trying n k
    → (let k' = if is_connecting k.state then retry k.channel.fd (remove_channel k) else k in
        Keen n k' × (Connected ⊎ Trying n k'))
unfolding remove_channel
put_off-Keen n k {Connected} keen t =
    if_both (λ k'. Keen n k' × (Connected ⊎ Trying n k')) _ k
      (λ e.
        let (keen', t') =
          retry-Keen n k.channel.fd (remove_channel k) (keep_Keen k _ refl refl refl keen) in
        (keen', inr t'))
      (λ e. (keen, t))

pub on_write-Keen : (err : Bool) (n : ℕ) (k : Connector) → Keen n k → Keen n (on_write err k)
unfolding on_write remove_channel
on_write-Keen true n k keen = (put_off-Keen n k {Connected = Unit {0}} keen (inl tt)).0
on_write-Keen false n k keen =
    if_both (Keen n) {b = is_connecting k.state} _ k
      (λ e.
        if_both (Keen n) {b = k.connect} _ _
          (λ e'.
            if_both (Keen n) {b = k.has_callback} _ _ (λ e''. keep_Keen k _ refl refl refl keen)
              (λ e''. keep_Keen k _ refl refl refl keen))
          (λ e'. keep_Keen k _ refl refl refl keen))
      (λ e. keen)

-- A writable event that makes no connection.
pub on_write-Trying :
    (err : Bool) (n : ℕ) (k : Connector) {Connected : Type 0}
    → Keen n k
    → Connected ⊎ Trying n k
    → (is_connecting k.state && not err && k.connect && k.has_callback) ≡ false
    → Connected ⊎ Trying n (on_write err k)
unfolding on_write remove_channel
on_write-Trying true n k keen t h = (put_off-Keen n k keen t).1
on_write-Trying false n k {Connected} keen t h =
    if_both (λ k'. Connected ⊎ Trying n k') {b = is_connecting k.state} _ k (λ e. absurd (made e))
      (λ e. t)
  where
    made : is_connecting k.state ≡ true → ⊥
    made e = ground arith
