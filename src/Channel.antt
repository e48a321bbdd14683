-- ===== src/Channel.antt =====
-- src/net/Channel.h and src/net/Channel.cpp: one file descriptor, the events it is interested in and
-- those that arrived. An event mask is its flags: `kReadEvent` is EPOLLIN and EPOLLPRI together, which
-- no code separates, and `kWriteEvent` is EPOLLOUT. A callback is there or not; which ones an event
-- calls is a list, for the owner of the channel to run.
use protobase.Common.{
  Bool, true, false, ◌&&◌, ◌||◌, not, List, [], ◌∷◌, ◌++◌, if◌then◌else◌, ℕ, ltb,
}
use protobase.Common.Int.{ℤ, pos, negsuc}

-- `EpollState`.
pub data Status : Type 0 where
  k_new : Status
  k_added : Status
  k_deleted : Status

pub record Events : Type 0 where
  pub read_event : Bool
  pub write_event : Bool

abbrev pub none_event : Events
none_event = record { read_event = false; write_event = false }

-- What `epoll_wait` reports.
pub record Reported : Type 0 where
  pub epoll_in : Bool
  pub epoll_pri : Bool
  pub epoll_out : Bool
  pub epoll_err : Bool
  pub epoll_hup : Bool

pub data Callback : Type 0 where
  close_callback : Callback
  error_callback : Callback
  read_callback : Callback
  write_callback : Callback

-- `id` is the address of the object. `tied` is `m_tied`.
pub record Channel : Type 0 where
  pub id : ℕ
  pub fd : ℤ
  pub events : Events
  pub reported : Reported
  pub status : Status
  pub tied : Bool
  pub has_read : Bool
  pub has_write : Bool
  pub has_close : Bool
  pub has_error : Bool

abbrev pub nothing_reported : Reported
nothing_reported = record {
  epoll_in = false;
  epoll_pri = false;
  epoll_out = false;
  epoll_err = false;
  epoll_hup = false;
}

unfoldable pub create : ℕ → ℤ → Channel
create id fd = record {
  id = id;
  fd = fd;
  events = none_event;
  reported = nothing_reported;
  status = k_new;
  tied = false;
  has_read = false;
  has_write = false;
  has_close = false;
  has_error = false;
}

abbrev pub is_none_event : Channel → Bool
is_none_event c = not c.events.read_event && not c.events.write_event

abbrev pub is_writing : Channel → Bool
is_writing c = c.events.write_event

abbrev pub is_reading : Channel → Bool
is_reading c = c.events.read_event

unfoldable pub tie : Channel → Channel
tie c = record c { tied = true }

-- `closeFd`, with whether it closes the descriptor.
unfoldable pub close_fd : Channel → Channel × Bool
close_fd c = elim c.fd [
  | pos n ↦ if ltb 0 n then (record c { fd = negsuc 0 }, true) else (c, false)
  | negsuc n ↦ (c, false)
]

abbrev pub called_if : Bool → Callback → List Callback
called_if b k = if b then k ∷ [] else []

unfoldable pub handle_event_with_guard : Channel → List Callback
handle_event_with_guard c =
    called_if (c.reported.epoll_hup && not c.reported.epoll_in && c.has_close) close_callback
    ++ called_if (c.reported.epoll_err && c.has_error) error_callback
    ++ called_if ((c.reported.epoll_in || c.reported.epoll_pri) && c.has_read) read_callback
    ++ called_if (c.reported.epoll_out && c.has_write) write_callback

-- `handleEvent`; `alive` is whether the tied object still exists.
unfoldable pub handle_event : Bool → Channel → List Callback
unfolding handle_event_with_guard
handle_event alive c =
    if c.tied then (if alive then handle_event_with_guard c else []) else handle_event_with_guard c
