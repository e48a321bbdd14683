-- ===== src/Connection/Send.antt =====
-- src/net/Connection.cpp: `send` and `shutdown`.
use protobase.Common.{
  ℕ, Bool, true, false, ◌&&◌, not, List, [], ◌∷◌, ◌++◌, if◌then◌else◌, ltb, length, take, drop,
  add_size,
}
use protobase.Channel.{is_writing}
use protobase.Poller.{enable_writing}
use protobase.Buffer.Fd.{WriteResult}
use protobase.Connection.{
  Connection, Errno, high_water, is_connected, is_disconnected, is_fault, k_disconnecting,
  nothing_in, on_channel, queue_if, send_later, shutdown_later, write_complete, wrote,
}

abbrev pub direct : Connection → Bool
direct c = not (is_writing c.channel) && nothing_in c.input

-- The first half of `sendInLoop`: the connection, the bytes not written, and `faultError`.
pub record Attempt : Type 0 where
  pub connection : Connection
  pub rest : List ℕ
  pub fault : Bool

unfoldable pub write_now : List ℕ → WriteResult → Errno → Connection → Attempt
write_now message result errno c =
    if direct c
    then record {
      connection = record c {
        wire = c.wire ++ take (wrote result) message;
        queued =
            c.queued
            ++ queue_if
                (ltb 0 (wrote result)
                  && nothing_in (drop (wrote result) message)
                  && c.has_write_complete)
                write_complete;
      };
      rest = drop (wrote result) message;
      fault = not (ltb 0 (wrote result)) && is_fault errno;
    }
    else record { connection = c; rest = message; fault = false }

unfoldable pub start_writing : Connection → Connection
unfolding enable_writing
start_writing c = if is_writing c.channel then c else on_channel enable_writing c

-- The second half: the rest goes behind the output, and the high-water callback is queued.
abbrev pub behind : List ℕ → Connection → Connection
behind rest c = record c {
  queued =
      c.queued
      ++ queue_if
          (ltb c.high_water_mark (add_size (length c.output) (length rest))
            && ltb (length c.output) c.high_water_mark
            && c.has_high_water)
          (high_water (add_size (length c.output) (length rest)));
  output = c.output ++ rest;
}

unfoldable pub keep_rest : List ℕ → Connection → Connection
unfolding start_writing
keep_rest rest c = if nothing_in rest then c else start_writing (behind rest c)

-- `sendInLoop` and `sendBufferInLoop`.
unfoldable pub send_in_loop : List ℕ → WriteResult → Errno → Connection → Connection
unfolding write_now keep_rest
send_in_loop message result errno c =
    if is_disconnected c.state
    then c
    else (let a = write_now message result errno c in
        if a.fault then a.connection else keep_rest a.rest a.connection)

-- The three `send`s, from the loop's thread or another.
unfoldable pub send : Bool → List ℕ → WriteResult → Errno → Connection → Connection
unfolding send_in_loop
send in_loop message result errno c =
    if is_connected c.state
    then if in_loop
      then send_in_loop message result errno c
      else record c { queued = c.queued ++ send_later message ∷ [] }
    else c

unfoldable pub shutdown_in_loop : Connection → Connection
shutdown_in_loop c = if is_writing c.channel then record c { shut = true } else c

unfoldable pub shutdown : Bool → Connection → Connection
unfolding shutdown_in_loop
shutdown in_loop c =
    if is_connected c.state
    then if in_loop
      then shutdown_in_loop (record c { state = k_disconnecting })
      else record c { state = k_disconnecting; queued = c.queued ++ shutdown_later ∷ [] }
    else c
