-- ===== src/Connection/Handlers.antt =====
-- src/net/Connection.cpp: the handlers of events, the closing of a connection, and its start.
use protobase.Common.{
  ℕ, Bool, ◌&&◌, ◌||◌, List, [], ◌∷◌, ◌++◌, if◌then◌else◌, ltb, length, take, drop,
}
use protobase.Channel.{
  Callback, close_callback, error_callback, read_callback, write_callback, is_writing, tie,
  handle_event,
}
use protobase.Poller.{enable_reading, disable_writing, disable_all, remove}
use protobase.Buffer.Fd.{ReadResult, received, read_failed, WriteResult, write_fd}
use protobase.Connection.{
  Connection, call_if, close_called, connection_called, force_close_later, is_connected,
  is_disconnecting, k_connected, k_disconnected, k_disconnecting, message_called, nothing_in,
  on_channel, queue_if, write_complete, wrote,
}
use protobase.Connection.Send.{shutdown_in_loop}

unfoldable pub on_close : Connection → Connection
unfolding disable_all
on_close c =
    let off = on_channel disable_all c in
    record off { state = k_disconnected; called = c.called ++ call_if c.has_close close_called }

unfoldable pub on_error : Connection → Connection
unfolding disable_all
on_error c =
    let off = on_channel disable_all c in
    record off { state = k_disconnected; called = c.called ++ call_if c.has_close close_called }

unfoldable pub force_close : Connection → Connection
force_close c =
    if is_connected c.state || is_disconnecting c.state
    then record c { state = k_disconnecting; queued = c.queued ++ force_close_later ∷ [] }
    else c

unfoldable pub force_close_in_loop : Connection → Connection
unfolding on_close
force_close_in_loop c = if is_connected c.state || is_disconnecting c.state then on_close c else c

unfoldable pub on_connection_destroy : Connection → Connection
unfolding disable_all remove
on_connection_destroy c = on_channel remove (
    if is_connected c.state
    then record (on_channel disable_all c) { state = k_disconnected }
    else c)

unfoldable pub on_connection_establish : Connection → Connection
unfolding enable_reading tie
on_connection_establish c =
    let tied = record c { state = k_connected; channel = tie c.channel } in
    record (on_channel enable_reading tied) {
      called = c.called ++ call_if c.has_connection connection_called;
    }

-- `consume` is what the message callback leaves of the input.
unfoldable pub on_read : ReadResult → (List ℕ → List ℕ) → Connection → Connection
unfolding on_close on_error
on_read read_failed consume c = on_error c
on_read (received []) consume c = on_close c
on_read (received (b ∷ bytes)) consume c =
    if c.has_message
    then record c {
      input = consume (c.input ++ b ∷ bytes);
      called = c.called ++ message_called ∷ [];
    }
    else record c { input = c.input ++ b ∷ bytes }

-- `Buffer::skip` of the output.
abbrev pub skipped : ℕ → List ℕ → List ℕ
skipped n bytes = if ltb n (length bytes) then drop n bytes else []

-- The end of `onWrite`, where everything is written.
abbrev pub told : Connection → Connection
told c = record (on_channel disable_writing c) {
  queued = c.queued ++ queue_if c.has_write_complete write_complete;
}

unfoldable pub written_out : Connection → Connection
unfolding disable_writing shutdown_in_loop
written_out c = if is_disconnecting c.state then shutdown_in_loop (told c) else told c

-- What `write` and `skip` do. `nWrite` is a `size_t`, -1 included.
unfoldable pub written : WriteResult → Connection → Connection
unfolding write_fd
written result c = record c {
  wire = c.wire ++ take (wrote result) c.output;
  output = skipped (write_fd result) c.output;
}

unfoldable pub on_write : WriteResult → Connection → Connection
unfolding written_out write_fd written
on_write result c =
    if is_writing c.channel && ltb 0 (write_fd result)
    then if nothing_in (written result c).output
      then written_out (written result c)
      else written result c
    else c

-- The callbacks that the constructor gives to the channel; a close callback is not among them.
abbrev pub called_back :
    ReadResult → (List ℕ → List ℕ) → WriteResult → Callback → Connection → Connection
called_back r consume w close_callback c = c
called_back r consume w error_callback c = on_error c
called_back r consume w read_callback c = on_read r consume c
called_back r consume w write_callback c = on_write w c

abbrev pub called_all :
    ReadResult → (List ℕ → List ℕ) → WriteResult → List Callback → Connection → Connection
called_all r consume w [] c = c
called_all r consume w (k ∷ ks) c = called_all r consume w ks (called_back r consume w k c)

-- `handleEvent` of the channel; `alive` is whether the connection that it is tied to exists.
unfoldable pub handle :
    Bool → ReadResult → (List ℕ → List ℕ) → WriteResult → Connection → Connection
unfolding handle_event
handle alive r consume w c = called_all r consume w (handle_event alive c.channel) c
