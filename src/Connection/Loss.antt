-- ===== src/Connection/Loss.antt =====
-- src/net/Connection.cpp: a failed `write` under `onWrite`.
use protobase.Common.{
  ℕ, ◌-◌, ◌<◌, ◌≡◌, ◌∙◌, refl, true, false, ◌&&◌, List, [], ◌++◌, append-nil, ltb, length, if_then,
  size_max, le→ltb_false, arith,
}
use protobase.Channel.{is_writing}
use protobase.Buffer.Fd.{write_failed, write_fd}
use protobase.Poller.{disable_writing}
use protobase.Connection.{Connection, nothing_in, queue_if, write_complete}
use protobase.Connection.Handlers.{skipped, written_out, written, told, on_write}
use protobase.Connection.Queue.{disable_writing-is_writing, written_out-told}

all_skipped : (xs : List ℕ) → length xs < size_max → skipped (write_fd write_failed) xs ≡ []
unfolding write_fd
all_skipped xs small = rw (le→ltb_false (size_max - 1) (length xs) (omega arith)) refl

on_write-told :
    (c : Connection)
    → is_writing c.channel ≡ true
    → length c.output < size_max
    → on_write write_failed c ≡ told (written write_failed c)
unfolding on_write write_fd
on_write-told c w small =
    if_then {b = is_writing c.channel && ltb 0 (write_fd write_failed)} _ _ (rw w refl)
    ∙ if_then {b = nothing_in (written write_failed c).output}
        (written_out (written write_failed c)) (written write_failed c)
        (rw (all_skipped c.output small) refl)
    ∙ written_out-told (written write_failed c)

-- A failed `write` under `onWrite` on a connection that waits to write drops all its output: none of
-- it reaches the kernel, the connection stops waiting to write, and it queues the callback for a
-- completed write if there is one. The output is shorter than 2^64, as any buffer is.
pub on_write_drops :
    (c : Connection)
    → is_writing c.channel ≡ true
    → length c.output < size_max
    → ((on_write write_failed c).output ≡ [])
      × ((on_write write_failed c).wire ≡ c.wire)
      × (is_writing (on_write write_failed c).channel ≡ false)
      × ((on_write write_failed c).queued
          ≡ c.queued ++ queue_if c.has_write_complete write_complete)
unfolding written disable_writing
on_write_drops c w small =
    rw (on_write-told c w small, all_skipped c.output small)
      (refl, append-nil c.wire, disable_writing-is_writing (written write_failed c), refl)
