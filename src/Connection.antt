-- ===== src/Connection.antt =====
-- src/net/Connection.h and src/net/Connection.cpp, with the states of src/net/Callbacks.h. A
-- connection is its channel, the poller of its loop, and its two buffers by their readable bytes;
-- `Detailed` has the buffers themselves. What the kernel answers to `read` and `write` is an
-- argument. The functor queue of the loop and the user's callbacks are logs; a message callback
-- leaves what is to be left of the input, and no callback calls the connection itself. The caller
-- of a `send` from another thread keeps its bytes until the loop sends them. `setCloseCallback` of
-- Connection hides that of Channel, so the constructor gives the channel no close callback, and
-- `m_closeCallback` is `onClose` itself until the owner sets its own, as `TcpServer` and
-- `TcpClient` do at once: `close_called` is the call of the owner's. `m_reading` and the two
-- addresses are not read by this code.
pub mod Send
pub mod Handlers
pub mod Queue
pub mod Order
pub mod Loss
pub mod Watermark
pub mod States
pub mod Progress
pub mod Shutdown
pub mod Events
pub mod Detailed
use protobase.Common.{
  ℕ, ◌-◌, ◌+◌, ◌*◌, Bool, true, false, ◌&&◌, ◌||◌, not, List, [], ◌∷◌, ◌++◌, if◌then◌else◌, ◌==◌,
  ltb, length, take, drop, add_size,
}
use protobase.Common.Int.{ℤ}
use protobase.Channel.{
  Channel, Callback, close_callback, error_callback, read_callback, write_callback, is_writing, tie,
  handle_event,
}
use protobase.Poller.{Poller, enable_reading, enable_writing, disable_writing, disable_all, remove}
use protobase.Buffer.Fd.{
  ReadResult, received, read_failed, WriteResult, took, write_failed, write_fd,
}

pub data ConnectionState : Type 0 where
  k_connecting : ConnectionState
  k_connected : ConnectionState
  k_disconnecting : ConnectionState
  k_disconnected : ConnectionState

abbrev pub is_connected : ConnectionState → Bool
is_connected k_connecting = false
is_connected k_connected = true
is_connected k_disconnecting = false
is_connected k_disconnected = false

abbrev pub is_disconnecting : ConnectionState → Bool
is_disconnecting k_connecting = false
is_disconnecting k_connected = false
is_disconnecting k_disconnecting = true
is_disconnecting k_disconnected = false

abbrev pub is_disconnected : ConnectionState → Bool
is_disconnected k_connecting = false
is_disconnected k_connected = false
is_disconnected k_disconnecting = false
is_disconnected k_disconnected = true

-- The `errno` that a send looks at.
pub data Errno : Type 0 where
  would_block : Errno
  broken_pipe : Errno
  connection_reset : Errno
  other_errno : Errno

abbrev pub is_fault : Errno → Bool
is_fault would_block = false
is_fault broken_pipe = true
is_fault connection_reset = true
is_fault other_errno = false

-- The functors that a connection queues in its loop.
pub data Queued : Type 0 where
  write_complete : Queued
  high_water : ℕ → Queued
  send_later : List ℕ → Queued
  shutdown_later : Queued
  force_close_later : Queued

-- The callbacks of the user that ran.
pub data Called : Type 0 where
  connection_called : Called
  message_called : Called
  close_called : Called

-- `wire` is what the kernel took, and `shut` whether `shutdownWrite` was called.
pub record Connection : Type 0 where
  pub channel : Channel
  pub poller : Poller
  pub state : ConnectionState
  pub has_connection : Bool
  pub has_message : Bool
  pub has_write_complete : Bool
  pub has_high_water : Bool
  pub has_close : Bool
  pub high_water_mark : ℕ
  pub input : List ℕ
  pub output : List ℕ
  pub wire : List ℕ
  pub shut : Bool
  pub queued : List Queued
  pub called : List Called

unfoldable pub create : ℕ → ℤ → Poller → Connection
unfolding protobase.Channel.create
create id fd p = record {
  channel = record (protobase.Channel.create id fd) {
    has_read = true;
    has_write = true;
    has_error = true;
  };
  poller = p;
  state = k_connecting;
  has_connection = false;
  has_message = false;
  has_write_complete = false;
  has_high_water = false;
  has_close = true;
  high_water_mark = 64 * 1024 * 1024;
  input = [];
  output = [];
  wire = [];
  shut = false;
  queued = [];
  called = [];
}

-- A call of the channel for the connection.
abbrev pub on_channel : (Channel → Poller → Channel × Poller) → Connection → Connection
on_channel f c = record c { channel = (f c.channel c.poller).0; poller = (f c.channel c.poller).1 }

abbrev pub queue_if : Bool → Queued → List Queued
queue_if b q = if b then q ∷ [] else []

abbrev pub call_if : Bool → Called → List Called
call_if b k = if b then k ∷ [] else []

abbrev pub nothing_in : List ℕ → Bool
nothing_in [] = true
nothing_in (b ∷ bytes) = false

-- `ssize_t` clipped at 0.
abbrev pub wrote : WriteResult → ℕ
wrote (took n) = n
wrote write_failed = 0
