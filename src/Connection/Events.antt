-- ===== src/Connection/Events.antt =====
-- src/net/Connection.cpp on the events of src/net/Channel.cpp: a hang-up.
use protobase.Common.{◌≡◌, Bool, true, false}
use protobase.Channel.{Channel, Reported}
use protobase.Poller.{Poller}
use protobase.Connection.{Connection}

-- The callbacks that the constructor gives to the channel of a connection: no close callback.
abbrev pub Bound : Channel → Type 0
Bound c = (c.has_close ≡ false) × (c.has_error ≡ true)

-- A connection whose channel has them.
abbrev BoundIn : Connection → Type 0
BoundIn c = Bound c.channel

-- `epoll_wait` reports a hang-up, with an error or without, and nothing to read or write.
abbrev pub hang_up : Bool → Reported
hang_up error = record {
  epoll_in = false;
  epoll_pri = false;
  epoll_out = false;
  epoll_err = error;
  epoll_hup = true;
}

abbrev pub reports : Reported → Connection → Connection
reports e c = record c { channel = record c.channel { reported = e } }
