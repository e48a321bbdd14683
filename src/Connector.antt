-- ===== src/Connector.antt =====
-- src/net/Connector.h and src/net/Connector.cpp, in the loop's thread. What `socket`, `connect` and
-- `getsockopt` answer is an argument. The timers that are set, and the sockets that are opened, closed
-- and handed to the new-connection callback, are logs; a timer's run is a later `start_in_loop`.
-- `resetChannel` does nothing.
pub mod Retry
pub mod Sockets
use protobase.Common.{ℕ, ◌*◌, Bool, true, false, List, [], ◌∷◌, ◌++◌, if◌then◌else◌, min}
use protobase.Common.Int.{ℤ, pos, negsuc}
use protobase.Channel.{Channel}
use protobase.Poller.{Poller, enable_writing, disable_all, remove}
use protobase.Connection.{ConnectionState, k_connecting, k_connected, k_disconnected}

-- The `errno`s of `connect`, by the case of the switch.
pub data ConnectErrno : Type 0 where
  in_progress : ConnectErrno
  try_later : ConnectErrno
  hopeless : ConnectErrno

pub data Attempt : Type 0 where
  no_socket : Attempt
  attempted : ℤ → ConnectErrno → Attempt

-- `connect` is `m_connect`, `interval` is `m_retryIntervalMillSeconds`.
pub record Connector : Type 0 where
  pub channel : Channel
  pub poller : Poller
  pub connect : Bool
  pub state : ConnectionState
  pub interval : ℕ
  pub has_callback : Bool
  pub timers : List ℕ
  pub opened : List ℤ
  pub closed : List ℤ
  pub handed : List ℤ

abbrev pub max_retry_interval : ℕ
max_retry_interval = 30

abbrev pub init_retry_interval : ℕ
init_retry_interval = 1

unfoldable pub create : ℕ → Poller → ℕ → Connector
unfolding protobase.Channel.create
create id p retry_interval = record {
  channel = protobase.Channel.create id (negsuc 0);
  poller = p;
  connect = false;
  state = k_disconnected;
  interval = retry_interval;
  has_callback = false;
  timers = [];
  opened = [];
  closed = [];
  handed = [];
}

abbrev pub is_connecting : ConnectionState → Bool
is_connecting k_connecting = true
is_connecting k_connected = false
is_connecting protobase.Connection.k_disconnecting = false
is_connecting k_disconnected = false

abbrev pub on_channel : (Channel → Poller → Channel × Poller) → Connector → Connector
on_channel f c = record c { channel = (f c.channel c.poller).0; poller = (f c.channel c.poller).1 }

abbrev pub close : ℤ → Connector → Connector
close sock_fd c = record c { closed = c.closed ++ sock_fd ∷ [] }

unfoldable pub retry : ℤ → Connector → Connector
retry sock_fd c =
    if c.connect
    then record (close sock_fd c) {
      state = k_disconnected;
      timers = c.timers ++ c.interval * 1000 ∷ [];
      interval = min (c.interval * 2) max_retry_interval;
    }
    else record (close sock_fd c) { state = k_disconnected }

unfoldable pub connecting : ℤ → Connector → Connector
unfolding enable_writing
connecting sock_fd c = on_channel enable_writing (record c {
  state = k_connecting;
  channel = record c.channel { fd = sock_fd; has_write = true; has_error = true };
})

unfoldable pub try_connect : Attempt → Connector → Connector
unfolding connecting retry
try_connect no_socket c = c
try_connect (attempted s in_progress) c = connecting s (record c { opened = c.opened ++ s ∷ [] })
try_connect (attempted s try_later) c = retry s (record c { opened = c.opened ++ s ∷ [] })
try_connect (attempted s hopeless) c = record (close s c) {
  opened = c.opened ++ s ∷ [];
  channel = record c.channel { fd = negsuc 0 };
}

unfoldable pub start_in_loop : Attempt → Connector → Connector
unfolding try_connect
start_in_loop a c = if c.connect then try_connect a c else c

unfoldable pub start : Attempt → Connector → Connector
unfolding start_in_loop
start a c = start_in_loop a (record c { connect = true; interval = init_retry_interval })

unfoldable pub restart : Attempt → Connector → Connector
unfolding start_in_loop
restart a c = start_in_loop a (record c { state = k_disconnected; connect = true })

-- `removeChannel`; the descriptor that it returns is still the channel's.
unfoldable pub remove_channel : Connector → Connector
unfolding disable_all remove
remove_channel c = on_channel remove (on_channel disable_all c)

unfoldable pub stop_in_loop : Connector → Connector
unfolding retry remove_channel
stop_in_loop c =
    if is_connecting c.state
    then retry c.channel.fd (remove_channel (record c { state = k_disconnected }))
    else c

unfoldable pub stop : Connector → Connector
unfolding stop_in_loop
stop c = stop_in_loop (record c { connect = false })

-- `err` is whether SO_ERROR is set.
unfoldable pub on_write : Bool → Connector → Connector
unfolding retry remove_channel
on_write err c =
    if is_connecting c.state
    then if err
      then retry c.channel.fd (remove_channel c)
      else (let c' = record (remove_channel c) { state = k_connected } in
          if c.connect
          then (if c.has_callback
              then record c' { handed = c.handed ++ c.channel.fd ∷ [] }
              else close c.channel.fd c')
          else close c.channel.fd c')
    else c

unfoldable pub on_error : Connector → Connector
unfolding retry remove_channel
on_error c = if is_connecting c.state then retry c.channel.fd (remove_channel c) else c
