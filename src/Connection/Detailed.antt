-- ===== src/Connection/Detailed.antt =====
-- src/net/Connection.cpp with its two buffers as src/base/Buffer.cpp has them, objects over memory.
-- They never share a block, so each has a heap of its own. Where `none` is a fault, `some` is what
-- a method leaves.
pub mod Kept
pub mod Refine
pub mod Handling
pub mod Runs
use protobase.Common.{
  ℕ, Bool, false, ◌&&◌, not, Option, none, some, List, [], ◌∷◌, ◌++◌, if◌then◌else◌, ◌==◌, ◌>>=◌,
  ltb, length, take, drop, add_size,
}
use protobase.Memory.{Heap}
use protobase.Channel.{is_writing}
use protobase.Buffer.{Buffer, readable_bytes, skip}
use protobase.Buffer.Space.{append}
use protobase.Buffer.Fd.{ReadResult, received, read_failed, read_fd, WriteResult, write_fd, offered}
use protobase.Connection.{
  Connection, Errno, is_disconnected, is_fault, nothing_in, queue_if, call_if, write_complete,
  high_water, message_called, wrote,
}
use protobase.Connection.Send.{Attempt, start_writing}
use protobase.Connection.Handlers.{on_close, on_error, written_out}

-- `control` is all of the connection but its buffers: its `input` and `output` are not used.
pub record Detailed : Type 0 where
  pub control : Connection
  pub input : Buffer
  pub input_heap : Heap
  pub output : Buffer
  pub output_heap : Heap

abbrev pub with_control : Connection → Detailed → Detailed
with_control k d = record d { control = k }

-- The first half of `sendInLoop`, with its `write` or without.
abbrev pub direct_attempt : List ℕ → WriteResult → Errno → Connection → Attempt
direct_attempt message result errno k = record {
  connection = record k {
    wire = k.wire ++ take (wrote result) message;
    queued =
        k.queued
        ++ queue_if
            (ltb 0 (wrote result)
              && nothing_in (drop (wrote result) message)
              && k.has_write_complete)
            write_complete;
  };
  rest = drop (wrote result) message;
  fault = not (ltb 0 (wrote result)) && is_fault errno;
}

abbrev pub no_attempt : List ℕ → Connection → Attempt
no_attempt message k = record { connection = k; rest = message; fault = false }

unfoldable pub try_write : List ℕ → WriteResult → Errno → Detailed → Attempt
unfolding readable_bytes
try_write message result errno d =
    if not (is_writing d.control.channel) && (readable_bytes d.input == 0)
    then direct_attempt message result errno d.control
    else no_attempt message d.control

-- The high-water callback, where `old_len` bytes of output get `remain` more.
abbrev pub queue_high_water : ℕ → ℕ → Connection → Connection
queue_high_water old_len remain k = record k {
  queued =
      k.queued
      ++ queue_if
          (ltb k.high_water_mark (add_size old_len remain)
            && ltb old_len k.high_water_mark
            && k.has_high_water)
          (high_water (add_size old_len remain));
}

-- The second half.
unfoldable pub append_rest : List ℕ → Detailed → Option Detailed
unfolding append readable_bytes start_writing
append_rest rest d =
    if nothing_in rest
    then some d
    else (append rest d.output d.output_heap >>= λ r. some (record d {
      control = start_writing (queue_high_water (readable_bytes d.output) (length rest) d.control);
      output = r.0;
      output_heap = r.1;
    }))

abbrev pub after_attempt : Detailed → Attempt → Option Detailed
unfolding append_rest
after_attempt d a =
    if a.fault
    then some (with_control a.connection d)
    else append_rest a.rest (with_control a.connection d)

unfoldable pub send_in_loop : List ℕ → WriteResult → Errno → Detailed → Option Detailed
unfolding try_write after_attempt
send_in_loop message result errno d =
    if is_disconnected d.control.state
    then some d
    else after_attempt d (try_write message result errno d)

-- `writeFd` and `skip`.
unfoldable pub write_out : WriteResult → Detailed → Option Detailed
unfolding offered write_fd skip
write_out result d = offered d.output d.output_heap >>= λ bytes. some (record d {
  control = record d.control { wire = d.control.wire ++ take (wrote result) bytes };
  output = skip (write_fd result) d.output;
})

unfoldable pub on_write : WriteResult → Detailed → Option Detailed
unfolding write_fd write_out readable_bytes written_out
on_write result d =
    if is_writing d.control.channel && ltb 0 (write_fd result)
    then (write_out result d >>= λ d'.
        some
          (if readable_bytes d'.output == 0 then with_control (written_out d'.control) d' else d'))
    else some d

-- `callback` is what the message callback does to the input.
unfoldable pub on_read :
    (Buffer → Heap → Option (Buffer × Heap)) → ReadResult → Detailed → Option Detailed
unfolding read_fd on_close on_error
on_read callback read_failed d = read_fd read_failed d.input d.input_heap >>= λ r.
    some (record d { control = on_error d.control; input = r.0; input_heap = r.1 })
on_read callback (received []) d = read_fd (received []) d.input d.input_heap >>= λ r.
    some (record d { control = on_close d.control; input = r.0; input_heap = r.1 })
on_read callback (received (x ∷ xs)) d = read_fd (received (x ∷ xs)) d.input d.input_heap >>= λ r.
    if d.control.has_message
    then (callback r.0 r.1 >>= λ s. some (record d {
      control = record d.control { called = d.control.called ++ message_called ∷ [] };
      input = s.0;
      input_heap = s.1;
    }))
    else some (record d { input = r.0; input_heap = r.1 })
