-- ===== src/Connector/Retry.antt =====
-- src/net/Connector.cpp: the delays of its retries.
use protobase.Common.{
  ℕ, suc, ◌*◌, ◌^◌, ◌≡◌, ◌∙◌, sym, ap, true, List, [], ◌∷◌, ◌++◌, append_assoc, append-nil, arith,
  min, if_then,
}
use native.Mathlib.Nat.{pow-suc}
use protobase.Common.Int.{ℤ}
use protobase.Connection.{k_disconnected}
use protobase.Connector.{
  Connector, attempted, try_later, max_retry_interval, retry, try_connect, close, start_in_loop,
}

-- The runs of the timer, where each `connect` is to be tried later.
abbrev pub refused : List ℤ → Connector → Connector
refused [] c = c
refused (s ∷ ss) c = refused ss (start_in_loop (attempted s try_later) c)

-- The delays of retries from the `k`th on, one for each socket: 2^k seconds, at most 30.
abbrev pub delays : ℕ → List ℤ → List ℕ
delays k [] = []
delays k (s ∷ ss) = min (2 ^ k) max_retry_interval * 1000 ∷ delays (suc k) ss

-- The connector after one of them.
abbrev waiting : ℤ → Connector → Connector
waiting s c = record c {
  state = k_disconnected;
  opened = c.opened ++ s ∷ [];
  closed = c.closed ++ s ∷ [];
  timers = c.timers ++ c.interval * 1000 ∷ [];
  interval = min (c.interval * 2) max_retry_interval;
}

refused_once :
    (s : ℤ) (c : Connector)
    → c.connect ≡ true
    → start_in_loop (attempted s try_later) c ≡ waiting s c
unfolding start_in_loop try_connect retry
refused_once s c on =
    if_then {b = c.connect} (try_connect (attempted s try_later) c) c on
    ∙ if_then {b = c.connect} (waiting s c)
        (record (close s (record c { opened = c.opened ++ s ∷ [] })) { state = k_disconnected }) on

doubled : (k : ℕ) → min (min (2 ^ k) 30 * 2) 30 ≡ min (2 ^ (suc k)) 30
doubled k = omega (arith, pow-suc 2 k)

-- A connector that is to connect, whose interval has doubled `k` times from one, and whose attempts
-- all have to be tried later, sets one timer after each: of 2^k, 2^(k+1), ... seconds, but 30 at most.
pub refused-timers :
    (k : ℕ) (ss : List ℤ) (c : Connector)
    → c.connect ≡ true
    → c.interval ≡ min (2 ^ k) max_retry_interval
    → (refused ss c).timers ≡ c.timers ++ delays k ss
refused-timers k [] c on e = sym (append-nil c.timers)
refused-timers k (s ∷ ss) c on e =
    ap (λ d. (refused ss d).timers) (refused_once s c on)
    ∙ refused-timers (suc k) ss (waiting s c) on (ap (λ i. min (i * 2) 30) e ∙ doubled k)
    ∙ append_assoc c.timers (c.interval * 1000 ∷ []) (delays (suc k) ss)
    ∙ ap (λ i. c.timers ++ (i * 1000 ∷ delays (suc k) ss)) e
