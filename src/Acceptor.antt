-- ===== src/Acceptor.antt =====
-- src/net/Acceptor.h and src/net/Acceptor.cpp, with `~Channel` of src/net/Channel.cpp for its
-- descriptor. What the kernel answers is an argument: `accept`, `socket`, `bind`, `listen` and
-- `open`. The descriptors that were opened, closed and handed to the new-connection callback are
-- logs. The log lines between a call and the test of `errno` leave it as it is; where the code
-- leaves the process there is no acceptor.
pub mod Descriptors
use protobase.Common.{
  ℕ, ◌≡◌, Bool, true, false, Option, none, some, List, [], ◌∷◌, ◌++◌, if◌then◌else◌, ◌>>=◌,
}
use protobase.Common.Int.{ℤ, pos, negsuc}
use protobase.Channel.{Channel}
use protobase.Poller.{Poller, enable_reading, disable_all, remove}
use protobase.Socket.{Socket, reuse_addr, reuse_port, bind_address, above_zero}

pub record Acceptor : Type 0 where
  pub channel : Channel
  pub poller : Poller
  pub socket : Socket
  pub has_callback : Bool
  pub listening : Bool
  pub idle_fd : ℤ
  pub opened : List ℤ
  pub closed : List ℤ
  pub handed : List ℤ

-- What `accept` answers; at the descriptor limit, also what the second `accept` and the `open` answer.
pub data Answer : Type 0 where
  accepted : ℕ → Answer
  limit_reached : ℤ → ℤ → Answer
  refused : Answer

-- A call that answers a descriptor; below zero there is none.
abbrev pub got : ℤ → List ℤ
got (pos fd) = pos fd ∷ []
got (negsuc n) = []

unfoldable pub create_nonblocking : ℤ → Option ℤ
create_nonblocking (pos fd) = some (pos fd)
create_nonblocking (negsuc n) = none

-- The constructor's body, for the descriptor of `createNonblocking`.
unfoldable pub built : ℕ → ℤ → ℤ → Poller → Socket → Acceptor
unfolding protobase.Channel.create
built id fd idle_fd p s = record {
  channel = record (protobase.Channel.create id fd) { has_read = true };
  poller = p;
  socket = s;
  has_callback = false;
  listening = false;
  idle_fd = idle_fd;
  opened = got fd ++ got idle_fd;
  closed = [];
  handed = [];
}

unfoldable pub create : ℕ → ℤ → ℤ → ℤ → Poller → Option Acceptor
unfolding create_nonblocking built protobase.Socket.create reuse_addr reuse_port bind_address
create id sock_ret idle_ret bind_ret p = create_nonblocking sock_ret >>= λ fd.
    bind_address bind_ret (reuse_port true (reuse_addr true (protobase.Socket.create fd))) >>= λ s.
    some (built id fd idle_ret p s)

unfoldable pub set_new_connection_callback : Acceptor → Acceptor
set_new_connection_callback a = record a { has_callback = true }

abbrev pub on_channel : (Channel → Poller → Channel × Poller) → Acceptor → Acceptor
on_channel f a = record a { channel = (f a.channel a.poller).0; poller = (f a.channel a.poller).1 }

unfoldable pub listen : ℤ → Acceptor → Option Acceptor
unfolding protobase.Socket.listen enable_reading
listen listen_ret a = protobase.Socket.listen listen_ret a.socket >>= λ s.
    some (on_channel enable_reading (record a { listening = true; socket = s }))

-- The branch of EMFILE.
abbrev pub make_room : ℤ → ℤ → Acceptor → Acceptor
make_room second reopened a = record a {
  idle_fd = reopened;
  opened = a.opened ++ got second ++ got reopened;
  closed = a.closed ++ got a.idle_fd ++ got second;
}

unfoldable pub on_read : Answer → Acceptor → Acceptor
on_read (accepted fd) a =
    if a.has_callback
    then record a { opened = a.opened ++ pos fd ∷ []; handed = a.handed ++ pos fd ∷ [] }
    else record a { opened = a.opened ++ pos fd ∷ []; closed = a.closed ++ pos fd ∷ [] }
on_read (limit_reached second reopened) a = make_room second reopened a
on_read refused a = a

-- `~Channel`.
unfoldable pub close_channel : Acceptor → Acceptor
close_channel a =
    if above_zero a.channel.fd
    then record a {
      closed = a.closed ++ a.channel.fd ∷ [];
      channel = record a.channel { fd = negsuc 0 };
    }
    else a

-- `~Acceptor`, where `close` succeeds.
unfoldable pub dispose : Acceptor → Acceptor
unfolding disable_all remove close_channel
dispose a = close_channel (on_channel remove (on_channel disable_all a))
