-- ===== src/Client.antt =====
-- src/net/TcpClient.h and src/net/TcpClient.cpp, in the thread of the client's loop: a connector whose
-- new-connection callback is the client's `newConnection`, and the connection that it makes. The two
-- share the loop's poller. The functors that the client queues are a log, and its user's callbacks do
-- not call it. The name of a connection, and the addresses, are left out.
pub mod Keen
pub mod Active
pub mod Disconnect
use protobase.Common.{
  ℕ, ◌+◌, ◌≡◌, Bool, true, false, ◌&&◌, not, Option, none, some, List, [], ◌∷◌, ◌++◌, if◌then◌else◌,
}
use protobase.Common.Int.{ℤ}
use protobase.Poller.{Poller}
use protobase.Connection.{Connection}
use protobase.Connection.Send.{shutdown}
use protobase.Connection.Handlers.{on_connection_establish, on_close, force_close}
use protobase.Connector.{Connector, Attempt, is_connecting, start, restart, stop}

-- `destroyed` holds the connections whose `onConnectionDestroy` is queued, `closed` how often the
-- user's close callback ran.
pub record TcpClient : Type 0 where
  pub connector : Connector
  pub connection : Option Connection
  pub retry : Bool
  pub connect : Bool
  pub next_conn_id : ℕ
  pub has_connection : Bool
  pub has_message : Bool
  pub has_write_complete : Bool
  pub has_close : Bool
  pub destroyed : List Connection
  pub closed : ℕ

unfoldable pub create : ℕ → Poller → TcpClient
unfolding protobase.Connector.create
create id p = record {
  connector = record (protobase.Connector.create id p 500) { has_callback = true };
  connection = none;
  retry = false;
  connect = false;
  next_conn_id = 1;
  has_connection = false;
  has_message = false;
  has_write_complete = false;
  has_close = false;
  destroyed = [];
  closed = 0;
}

unfoldable pub client_connect : Attempt → TcpClient → TcpClient
unfolding start
client_connect a c = record c { connect = true; connector = start a c.connector }

-- `in_loop` is whether the caller is the thread of the loop.
abbrev pub shut : Bool → Option Connection → Option Connection
unfolding shutdown
shut in_loop none = none
shut in_loop (some conn) = some (shutdown in_loop conn)

unfoldable pub disconnect : Bool → TcpClient → TcpClient
unfolding shut
disconnect in_loop c = record c { connect = false; connection = shut in_loop c.connection }

unfoldable pub client_stop : TcpClient → TcpClient
unfolding stop
client_stop c = record c { connect = false; connector = stop c.connector }

-- The `Connection` of `newConnection`, at address `id`, established.
unfoldable pub made : ℕ → ℤ → TcpClient → Connection
unfolding protobase.Connection.create on_connection_establish
made id fd c =
    on_connection_establish (record (protobase.Connection.create id fd c.connector.poller) {
      has_connection = c.has_connection;
      has_message = c.has_message;
      has_write_complete = c.has_write_complete;
      has_close = true;
    })

unfoldable pub new_connection : ℕ → ℤ → TcpClient → TcpClient
unfolding made
new_connection id fd c = record c {
  next_conn_id = c.next_conn_id + 1;
  connection = some (made id fd c);
  connector = record c.connector { poller = (made id fd c).poller };
}

-- `removeConnection`; the attempt is that of a restart.
unfoldable pub remove_connection : Attempt → Connection → TcpClient → TcpClient
unfolding restart
remove_connection a conn c = record c {
  connection = none;
  destroyed = c.destroyed ++ conn ∷ [];
  closed = c.closed + (if c.has_close then 1 else 0);
  connector = if c.retry && c.connect then restart a c.connector else c.connector;
}

-- The loop's calls. A writable event of the connector hands the new socket to `newConnection`.
unfoldable pub connector_writes : Bool → ℕ → TcpClient → TcpClient
unfolding protobase.Connector.on_write new_connection
connector_writes err id c =
    let c' = record c { connector = protobase.Connector.on_write err c.connector } in
    if is_connecting c.connector.state && not err && c.connector.connect && c.connector.has_callback
    then new_connection id c.connector.channel.fd c'
    else c'

unfoldable pub connector_fails : TcpClient → TcpClient
unfolding protobase.Connector.on_error
connector_fails c = record c { connector = protobase.Connector.on_error c.connector }

unfoldable pub timer_runs : Attempt → TcpClient → TcpClient
unfolding protobase.Connector.start_in_loop
timer_runs a c = record c { connector = protobase.Connector.start_in_loop a c.connector }

-- The client's connection ends, and its close callback is `removeConnection`.
unfoldable pub connection_closes : Attempt → TcpClient → TcpClient
unfolding on_close remove_connection
connection_closes a c = elim c.connection [
  | none ↦ c
  | some conn ↦
      let ended = on_close (record conn { poller = c.connector.poller }) in
      remove_connection a ended
        (record c { connector = record c.connector { poller = ended.poller } })
]

-- `~TcpClient()`; `unique` is whether nobody else holds the connection.
unfoldable pub dispose : Bool → TcpClient → TcpClient
unfolding force_close stop
dispose unique c = elim c.connection [
  | none ↦ record c { connector = stop c.connector }
  | some conn ↦ record c { connection = some (if unique then force_close conn else conn) }
]
