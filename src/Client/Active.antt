-- ===== src/Client/Active.antt =====
-- src/net/TcpClient.cpp: the attempts of a client that retries.
use protobase.Common.{
  ℕ, suc, ◌<◌, ◌≡◌, ◌⊎◌, refl, sym, subst, inl, inr, Bool, true, ◌&&◌, Option, none, some, arith,
  length, if_then, if_both,
}
use protobase.Poller.{Poller}
use protobase.Connection.{Connection, k_disconnected}
use protobase.Connection.Handlers.{on_close}
use protobase.Connector.{Attempt, init_retry_interval, start, start_in_loop, restart, on_error}
use protobase.Client.{
  TcpClient, create, client_connect, new_connection, remove_connection, connector_writes,
  connector_fails, timer_runs, connection_closes,
}
use protobase.Client.Keen.{
  Keen, Trying, Hopeful, keep_Keen, start_in_loop-Keen, put_off-Keen, on_write-Keen,
  on_write-Trying,
}

-- The client has a connection, or its connector goes on trying, after `n` runs of its timers.
pub record Active (n : ℕ) (c : TcpClient) : Type 0 where
  pub retries : c.retry ≡ true
  pub wanted : c.connect ≡ true
  pub keen : Keen n c.connector
  pub busy : ((conn : Connection) × (c.connection ≡ some conn)) ⊎ Trying n c.connector

-- What happens to a client that its user leaves alone, and how many timers have run: one that was
-- set runs, the connector's socket becomes writable or fails, or the connection ends.
pub data Runs : ℕ → TcpClient → ℕ → TcpClient → Type 0 where
  done : (n : ℕ) (c : TcpClient) → Runs n c n c
  ticks :
      (a : Attempt) (n m : ℕ) (c c' : TcpClient)
      → Hopeful a
      → n < length c.connector.timers
      → Runs (suc n) (timer_runs a c) m c'
      → Runs n c m c'
  writes :
      (err : Bool) (id n m : ℕ) (c c' : TcpClient)
      → Runs n (connector_writes err id c) m c'
      → Runs n c m c'
  fails : (n m : ℕ) (c c' : TcpClient) → Runs n (connector_fails c) m c' → Runs n c m c'
  ends :
      (a : Attempt) (n m : ℕ) (c c' : TcpClient)
      → Hopeful a
      → Runs n (connection_closes a c) m c'
      → Runs n c m c'

timer_runs-Active :
    (a : Attempt) (n : ℕ) (c : TcpClient)
    → Hopeful a
    → n < length c.connector.timers
    → Active n c
    → Active (suc n) (timer_runs a c)
unfolding timer_runs
timer_runs-Active a n c h lt v =
    let (keen', t) =
      start_in_loop-Keen (suc n) a c.connector h
        (record { connects = v.keen.connects; hands_over = v.keen.hands_over; in_time = lt }) in
    record { retries = v.retries; wanted = v.wanted; keen = keen'; busy = inr t }

connector_fails-Active : (n : ℕ) (c : TcpClient) → Active n c → Active n (connector_fails c)
unfolding connector_fails on_error
connector_fails-Active n c v =
    let (keen', t) = put_off-Keen n c.connector v.keen v.busy in
    record { retries = v.retries; wanted = v.wanted; keen = keen'; busy = t }

connector_writes-Active :
    (err : Bool) (id n : ℕ) (c : TcpClient) → Active n c → Active n (connector_writes err id c)
unfolding connector_writes new_connection
connector_writes-Active err id n c v =
    let keen' = on_write-Keen err n c.connector v.keen in
    if_both (Active n) _ _
      (λ e. record {
        retries = v.retries;
        wanted = v.wanted;
        keen = keep_Keen _ _ refl refl refl keen';
        busy = inl (_, refl);
      })
      (λ e. record {
        retries = v.retries;
        wanted = v.wanted;
        keen = keen';
        busy = on_write-Trying err n c.connector v.keen v.busy e;
      })

-- A connection that ends is replaced by an attempt.
restart_Active :
    (a : Attempt) (conn : Connection) (n : ℕ) (c : TcpClient)
    → Hopeful a
    → c.retry ≡ true
    → c.connect ≡ true
    → Keen n c.connector
    → Active n (remove_connection a conn c)
unfolding remove_connection restart
restart_Active a conn n c h r on keen =
    let k = record c.connector { state = k_disconnected; connect = true } in
    let (keen', t) =
      start_in_loop-Keen n a k h (keep_Keen c.connector k (sym keen.connects) refl refl keen) in
    let e = if_then {b = c.retry && c.connect} (start_in_loop a k) c.connector (ground arith) in
    record {
      retries = r;
      wanted = on;
      keen = subst (Keen n) (sym e) keen';
      busy = inr (subst (Trying n) (sym e) t);
    }

closes_Active :
    (a : Attempt) (n : ℕ) (c : TcpClient) (o : Option Connection)
    → Hopeful a
    → Active n (record c { connection = o })
    → Active n (connection_closes a (record c { connection = o }))
unfolding connection_closes
closes_Active a n c none h v = v
closes_Active a n c (some conn) h v =
    let ended = on_close (record conn { poller = c.connector.poller }) in
    let c' = record c {
      connection = some conn;
      connector = record c.connector { poller = ended.poller };
    } in
    restart_Active a ended n c' h v.retries v.wanted
      (keep_Keen c.connector c'.connector refl refl refl v.keen)

Runs_keep-Active : {n m : ℕ} {c c' : TcpClient} → Active n c → Runs n c m c' → Active m c'
Runs_keep-Active v (done n c) = v
Runs_keep-Active v (ticks a n m c c' h lt rest) =
    Runs_keep-Active (timer_runs-Active a n c h lt v) rest
Runs_keep-Active v (writes err id n m c c' rest) =
    Runs_keep-Active (connector_writes-Active err id n c v) rest
Runs_keep-Active v (fails n m c c' rest) = Runs_keep-Active (connector_fails-Active n c v) rest
Runs_keep-Active v (ends a n m c c' h rest) =
    Runs_keep-Active (closes_Active a n c c.connection h v) rest

-- A new client that is to retry, once it connects.
abbrev pub retrying : ℕ → Poller → TcpClient
retrying id p = record (create id p) { retry = true }

connect_Active :
    (id : ℕ) (p : Poller) (a : Attempt) → Hopeful a → Active 0 (client_connect a (retrying id p))
unfolding create client_connect start
connect_Active id p a h =
    let k = record (retrying id p).connector { connect = true; interval = init_retry_interval } in
    let (keen, t) =
      start_in_loop-Keen 0 a k h
        (record { connects = refl; hands_over = refl; in_time = omega arith }) in
    record { retries = refl; wanted = refl; keen = keen; busy = inr t }

-- A new client that retries is connected by `clientConnect` and then left alone by its user. Whatever its
-- connections, its attempts and its timers come to, where no attempt fails for good, the first
-- included, it always has a connection, an attempt under way, or a timer that is still to run.
pub Runs-Active :
    (id : ℕ) (p : Poller) (a : Attempt) {m : ℕ} {c' : TcpClient}
    → Hopeful a
    → Runs 0 (client_connect a (retrying id p)) m c'
    → Active m c'
Runs-Active id p a h runs = Runs_keep-Active (connect_Active id p a h) runs
