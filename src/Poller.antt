-- ===== src/Poller.antt =====
-- src/net/Poller.h, src/net/Poller.cpp, src/net/EpollPoller.h and src/net/EpollPoller.cpp, with the
-- methods of src/net/Channel.h that reach the poller through the loop. The poller keeps the channels by
-- descriptor; its calls of `epoll_ctl` are a log, the newest first. The code does nothing with their
-- results but log lines.
pub mod Interest
pub mod Descriptors
use protobase.Common.{
  Bool, true, false, ◌&&◌, Option, none, some, List, [], ◌∷◌, ◌++◌, if◌then◌else◌, ℕ, ◌==◌,
}
use protobase.Common.Int.{ℤ, same}
use protobase.Channel.{
  Channel, Status, k_new, k_added, k_deleted, Events, Reported, none_event, is_none_event,
}

pub data Operation : Type 0 where
  ctl_add : Operation
  ctl_mod : Operation
  ctl_del : Operation

pub record Call : Type 0 where
  pub operation : Operation
  pub fd : ℤ
  pub events : Events
  pub channel : ℕ

pub record Poller : Type 0 where
  pub channels : ℤ → Option ℕ
  pub calls : List Call

abbrev pub no_channels : Poller
no_channels = record { channels = λ fd. none; calls = [] }

abbrev pub put : ℤ → Option ℕ → (ℤ → Option ℕ) → ℤ → Option ℕ
put fd entry channels k = if same k fd then entry else channels k

unfoldable pub update : Operation → Channel → Poller → Poller
update operation c p = record p {
  calls = record { operation = operation; fd = c.fd; events = c.events; channel = c.id } ∷ p.calls;
}

unfoldable pub update_channel : Channel → Poller → Channel × Poller
unfolding update
update_channel c p = elim c.status [
  | k_new ↦ (
    record c { status = k_added },
    update ctl_add c (record p { channels = put c.fd (some c.id) p.channels }),
  )
  | k_deleted ↦ (record c { status = k_added }, update ctl_add c p)
  | k_added ↦
      if is_none_event c
      then (record c { status = k_deleted }, update ctl_del c p)
      else (c, update ctl_mod c p)
]

unfoldable pub remove_channel : Channel → Poller → Channel × Poller
unfolding update
remove_channel c p =
    let erased = record p { channels = put c.fd none p.channels } in
    elim c.status [
      | k_added ↦ (record c { status = k_new }, update ctl_del c erased)
      | k_new ↦ (record c { status = k_new }, erased)
      | k_deleted ↦ (record c { status = k_new }, erased)
    ]

unfoldable pub has_channel : Channel → Poller → Bool
has_channel c p = elim (p.channels c.fd) [ none ↦ false | some id ↦ id == c.id ]

-- `fillActiveChannels`: what one `epoll_wait` reported, by the address in `data.ptr`; the channels
-- are a store by address.
unfoldable pub fill_active_channels :
    List (ℕ × Reported) → (ℕ → Channel) → List ℕ → (ℕ → Channel) × List ℕ
fill_active_channels [] store active = (store, active)
fill_active_channels ((id, events) ∷ rest) store active =
    fill_active_channels rest
      (λ k. if k == id then record (store k) { reported = events } else store k) (active ++ id ∷ [])

unfoldable pub enable_reading : Channel → Poller → Channel × Poller
unfolding update_channel
enable_reading c = update_channel (record c { events = record c.events { read_event = true } })

unfoldable pub disable_reading : Channel → Poller → Channel × Poller
unfolding update_channel
disable_reading c = update_channel (record c { events = record c.events { read_event = false } })

unfoldable pub enable_writing : Channel → Poller → Channel × Poller
unfolding update_channel
enable_writing c = update_channel (record c { events = record c.events { write_event = true } })

unfoldable pub disable_writing : Channel → Poller → Channel × Poller
unfolding update_channel
disable_writing c = update_channel (record c { events = record c.events { write_event = false } })

unfoldable pub disable_all : Channel → Poller → Channel × Poller
unfolding update_channel
disable_all c = update_channel (record c { events = none_event })

unfoldable pub remove : Channel → Poller → Channel × Poller
unfolding remove_channel
remove c = remove_channel c
