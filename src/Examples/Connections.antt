-- ===== src/Examples/Connections.antt =====
-- src/net/Connection.cpp on a connection of an empty poller.
use protobase.Common.{◌≡◌, refl, true, false, List, [], ◌∷◌, ◌++◌, arith, if◌then◌else◌}
use protobase.Common.Int.{pos}
use protobase.Channel.{is_writing}
use protobase.Poller.{no_channels}
use protobase.Buffer.Fd.{took, write_failed}
use protobase.Connection.{Connection, would_block, write_complete, create, queue_if}
use protobase.Connection.Send.{send_in_loop, shutdown}
use protobase.Connection.Handlers.{on_write, on_close, on_connection_establish}
use protobase.Connection.Queue.{Carries}
use protobase.Connection.Order.{Sending, sends, drains, run_sending, run_sending-Carries}
use protobase.Connection.Loss.{on_write_drops}
use protobase.Connection.States.{
  Step, to_send, to_shut_down, to_destroy, writable, to_close, Closed, Silent, run, run-Silent,
}
use protobase.Connection.Shutdown.{drain, shutdown_inverted}

-- An established connection with every callback and a mark of four bytes.
abbrev up : Connection
up = record (on_connection_establish (create 1 (pos 5) no_channels)) {
  has_write_complete = true;
  has_high_water = true;
  has_close = true;
  high_water_mark = 4;
}

-- The kernel took one byte of three.
abbrev busy : Connection
busy = send_in_loop (1 ∷ 2 ∷ 3 ∷ []) (took 1) would_block up

half_sent : (busy.wire ≡ 1 ∷ []) × (busy.output ≡ 2 ∷ 3 ∷ []) × (is_writing busy.channel ≡ true)
unfolding create on_connection_establish send_in_loop
half_sent = (refl, refl, refl)

all_sent : (on_write (took 2) busy).wire ≡ 1 ∷ 2 ∷ 3 ∷ []
unfolding create on_connection_establish send_in_loop on_write
all_sent = refl

abbrev steps : List Sending
steps =
    sends (1 ∷ 2 ∷ 3 ∷ []) (took 1) would_block
    ∷ drains (took 1)
    ∷ sends (4 ∷ []) write_failed would_block
    ∷ drains (took 2)
    ∷ []

run_sending-Carries_example : Carries (1 ∷ 2 ∷ 3 ∷ 4 ∷ []) up (run_sending steps up)
unfolding create on_connection_establish
run_sending-Carries_example = run_sending-Carries steps up (λ h. refl) refl (refl, (refl, tt))

on_write_drops_example :
    ((on_write write_failed busy).output ≡ [])
    × ((on_write write_failed busy).wire ≡ busy.wire)
    × (is_writing (on_write write_failed busy).channel ≡ false)
    × ((on_write write_failed busy).queued
        ≡ busy.queued ++ queue_if busy.has_write_complete write_complete)
unfolding create on_connection_establish send_in_loop
on_write_drops_example = on_write_drops busy refl (omega arith)

abbrev closed : Connection
closed = on_close busy

closed-Closed : Closed closed
unfolding create on_connection_establish send_in_loop on_close
closed-Closed = record { closed = refl; quiet = refl }

abbrev after_close : List Step
after_close =
    to_send true (4 ∷ []) (took 1) would_block
    ∷ writable (took 2)
    ∷ to_shut_down true
    ∷ to_close
    ∷ to_destroy
    ∷ []

run-Silent_example : Silent closed (run after_close closed)
run-Silent_example = run-Silent after_close closed closed-Closed

shutdown_inverted_example :
    (drain (took 2 ∷ []) (shutdown true up)).shut
    ≡ (if is_writing up.channel then true else up.shut)
unfolding create on_connection_establish
shutdown_inverted_example = shutdown_inverted (took 2 ∷ []) up refl

-- A connection that has sent, and is hung up.
abbrev talk : List Step
talk = to_send true (1 ∷ 2 ∷ []) (took 1) would_block ∷ writable (took 1) ∷ []

abbrev talked : Connection
talked = run talk (on_connection_establish (create 1 (pos 5) no_channels))
