-- ===== src/EventLoop/Life.antt =====
-- src/net/EventLoop.cpp: the constructors and the destructor of a loop, with those of
-- src/net/EpollPoller.cpp, and src/net/DefaultPoller.cpp. What `epoll_create1` and `eventfd` answer
-- and whether `USE_POLL` is set are arguments. A loop has its poller before its wake-up channel,
-- and is destroyed the other way round.
pub mod Lives
use protobase.Common.{Bool, true, false, Option, none, some, List, [], ◌∷◌, ◌++◌, if◌then◌else◌, ℕ}
use protobase.Common.Int.{ℤ, pos, negsuc}
use protobase.Socket.{above_zero}
use protobase.Channel.{Channel, create}
use protobase.Poller.{Poller, no_channels, enable_reading, disable_all, remove}

pub record LoopObject : Type 0 where
  pub epoll_fd : ℤ
  pub wake : Channel
  pub poller : Poller

-- One thread: `current` is whether `t_eventLoopInThisThread` is set; the descriptors are logs.
pub record LoopOwner : Type 0 where
  pub current : Bool
  pub loop : Option LoopObject
  pub opened : List ℤ
  pub closed : List ℤ

-- `exit` leaves the process; a call through a null pointer is a fault.
pub data Outcome : Type 0 where
  left : Outcome
  faulted : Outcome
  made : LoopOwner → Outcome

-- `newDefaultPoller`: with `USE_POLL` a null pointer, and else a new `EpollPoller`.
pub data NewPoller : Type 0 where
  null : NewPoller
  failed : NewPoller
  epoll : ℤ → NewPoller

unfoldable pub new_default_poller : Bool → ℤ → NewPoller
new_default_poller true epoll_ret = null
new_default_poller false (pos fd) = epoll (pos fd)
new_default_poller false (negsuc n) = failed

-- The wake-up channel, which has a read callback.
unfoldable pub wake_channel : ℕ → ℤ → Channel
unfolding create
wake_channel id fd = record (create id fd) { has_read = true }

-- The body of the constructor: the test of the thread, and `enableReading` of the wake-up channel.
unfoldable pub register_wake : NewPoller → ℕ → ℤ → LoopOwner → Outcome
unfolding enable_reading
register_wake p id wake_fd o = if o.current then left else elim p [
  | null ↦ faulted
  | failed ↦ left
  | epoll fd ↦
      let r = enable_reading (wake_channel id wake_fd) no_channels in
      made (record {
        current = true;
        loop = some (record { epoll_fd = fd; wake = r.0; poller = r.1 });
        opened = o.opened ++ fd ∷ wake_fd ∷ [];
        closed = o.closed;
      })
]

-- `createEventFd`, and what follows it.
unfoldable pub with_event_fd : NewPoller → ℕ → ℤ → LoopOwner → Outcome
unfolding register_wake
with_event_fd p id (pos fd) o = register_wake p id (pos fd) o
with_event_fd p id (negsuc n) o = left

-- The constructors. A poller that has no descriptor leaves the process before.
unfoldable pub make_loop : Bool → ℤ → ℕ → ℤ → LoopOwner → Outcome
unfolding new_default_poller with_event_fd
make_loop use_poll epoll_ret id event_ret o = elim (new_default_poller use_poll epoll_ret) [
  | null ↦ with_event_fd null id event_ret o
  | failed ↦ left
  | epoll fd ↦ with_event_fd (epoll fd) id event_ret o
]

-- The wake-up channel off the poller.
unfoldable pub unregistered : LoopObject → Channel
unfolding disable_all remove
unregistered l = (remove (disable_all l.wake l.poller).0 (disable_all l.wake l.poller).1).0

-- The destructor, then `~Channel` of the wake-up channel and `~EpollPoller`.
unfoldable pub destroy_loop : LoopOwner → LoopOwner
unfolding unregistered
destroy_loop o = elim o.loop [
  | none ↦ o
  | some l ↦ record {
    current = false;
    loop = none;
    opened = o.opened;
    closed =
        o.closed
        ++ (if above_zero (unregistered l).fd then (unregistered l).fd ∷ [] else [])
        ++ l.epoll_fd ∷ [];
  }
]
