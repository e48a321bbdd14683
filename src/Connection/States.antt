-- ===== src/Connection/States.antt =====
-- src/net/Connection.cpp: the states of a connection over any sequence of its operations.
use protobase.Common.{
  ℕ, ◌≡◌, ◌∙◌, refl, ap, Bool, true, false, List, [], ◌∷◌, Bool-cases, inl, inr, if_then, if_else,
  ◌&&◌, ◌||◌, ltb,
}
use protobase.Channel.{is_writing}
use protobase.Poller.{disable_all, remove}
use protobase.Poller.Interest.{remove_channel-events}
use protobase.Buffer.Fd.{ReadResult, received, read_failed, WriteResult, write_fd}
use protobase.Connection.{
  Connection, ConnectionState, k_connecting, k_connected, k_disconnecting, k_disconnected,
  is_connected, is_disconnecting, is_disconnected, Errno, on_channel,
}
use protobase.Connection.Send.{send_in_loop, send, shutdown_in_loop, shutdown}
use protobase.Connection.Handlers.{
  on_close, on_error, force_close, force_close_in_loop, on_connection_destroy, on_read, on_write,
}
use protobase.Connection.Queue.{disable_all-is_writing}

-- The operations after the connection is established, those that other threads queue included.
-- `to_close` is `onClose`, which `onRead` and `forceCloseInLoop` call.
pub data Step : Type 0 where
  to_send : Bool → List ℕ → WriteResult → Errno → Step
  to_send_in_loop : List ℕ → WriteResult → Errno → Step
  to_shut_down : Bool → Step
  to_shut_down_in_loop : Step
  to_force_close : Step
  to_force_close_in_loop : Step
  to_destroy : Step
  readable : ReadResult → (List ℕ → List ℕ) → Step
  writable : WriteResult → Step
  to_close : Step
  in_error : Step

unfoldable pub step : Step → Connection → Connection
unfolding send send_in_loop shutdown shutdown_in_loop force_close force_close_in_loop
    on_connection_destroy on_read on_write on_close on_error
step (to_send in_loop m r e) c = send in_loop m r e c
step (to_send_in_loop m r e) c = send_in_loop m r e c
step (to_shut_down in_loop) c = shutdown in_loop c
step to_shut_down_in_loop c = shutdown_in_loop c
step to_force_close c = force_close c
step to_force_close_in_loop c = force_close_in_loop c
step to_destroy c = on_connection_destroy c
step (readable r consume) c = on_read r consume c
step (writable r) c = on_write r c
step to_close c = on_close c
step in_error c = on_error c

unfoldable pub run : List Step → Connection → Connection
unfolding step
run [] c = c
run (s ∷ ss) c = run ss (step s c)

-- A closed connection waits for nothing to write.
pub record Closed (c : Connection) : Type 0 where
  pub closed : is_disconnected c.state ≡ true
  pub quiet : is_writing c.channel ≡ false

-- `c'` is closed and has sent nothing more than `c`.
pub record Silent (c c' : Connection) : Type 0 where
  pub still : Closed c'
  pub wire : c'.wire ≡ c.wire
  pub shut : c'.shut ≡ c.shut
  pub output : c'.output ≡ c.output

not_connected : (s : ConnectionState) → is_disconnected s ≡ true → is_connected s ≡ false
not_connected k_connecting h = refl
not_connected k_connected h = cc
not_connected k_disconnecting h = refl
not_connected k_disconnected h = refl

not_disconnecting : (s : ConnectionState) → is_disconnected s ≡ true → is_disconnecting s ≡ false
not_disconnecting k_connecting h = refl
not_disconnecting k_connected h = refl
not_disconnecting k_disconnecting h = cc
not_disconnecting k_disconnected h = refl

same-Silent : {c : Connection} (c' : Connection) → Closed c → c' ≡ c → Silent c c'
same-Silent c' k e = rw e record { still = k; wire = refl; shut = refl; output = refl }

on_close-Silent : (c : Connection) → Silent c (on_close c)
unfolding on_close
on_close-Silent c = record {
  still = record { closed = refl; quiet = disable_all-is_writing c };
  wire = refl;
  shut = refl;
  output = refl;
}

on_error-Silent : (c : Connection) → Silent c (on_error c)
unfolding on_error
on_error-Silent c = record {
  still = record { closed = refl; quiet = disable_all-is_writing c };
  wire = refl;
  shut = refl;
  output = refl;
}

on_read-Silent :
    (r : ReadResult) (consume : List ℕ → List ℕ) (c : Connection)
    → Closed c
    → Silent c (on_read r consume c)
unfolding on_read
on_read-Silent read_failed consume c k = on_error-Silent c
on_read-Silent (received []) consume c k = on_close-Silent c
on_read-Silent (received (b ∷ bytes)) consume c k = elim (Bool-cases c.has_message) [
  | inl h ↦
      rw (h, on_read)
        record {
          still = record { closed = k.closed; quiet = k.quiet };
          wire = refl;
          shut = refl;
          output = refl;
        }
  | inr h ↦
      rw (h, on_read)
        record {
          still = record { closed = k.closed; quiet = k.quiet };
          wire = refl;
          shut = refl;
          output = refl;
        }
]

remove-is_writing :
    (c : Connection) → is_writing (on_channel remove c).channel ≡ is_writing c.channel
unfolding remove
remove-is_writing c =
    ap (λ e. e.write_event) (remove_channel-events c.channel.status c.channel c.poller)

destroy-Silent : (c : Connection) → Closed c → Silent c (on_connection_destroy c)
unfolding on_connection_destroy
destroy-Silent c k =
    rw
      (ap (on_channel remove) (
        if_else {b = is_connected c.state}
          (record (on_channel disable_all c) { state = k_disconnected }) c
          (not_connected c.state k.closed)))
      record {
        still = record { closed = k.closed; quiet = remove-is_writing c ∙ k.quiet };
        wire = refl;
        shut = refl;
        output = refl;
      }

step-Silent : (s : Step) (c : Connection) → Closed c → Silent c (step s c)
unfolding step send send_in_loop shutdown shutdown_in_loop force_close force_close_in_loop
    on_connection_destroy on_write
step-Silent (to_send in_loop m r e) c k =
    same-Silent _ k (if_else _ _ (not_connected c.state k.closed))
step-Silent (to_send_in_loop m r e) c k = same-Silent _ k (if_then _ _ k.closed)
step-Silent (to_shut_down in_loop) c k =
    same-Silent _ k (if_else _ _ (not_connected c.state k.closed))
step-Silent to_shut_down_in_loop c k = same-Silent _ k (if_else _ _ k.quiet)
step-Silent to_force_close c k = same-Silent _ k (
    if_else {b = is_connected c.state || is_disconnecting c.state} _ _
      (rw (not_connected c.state k.closed, not_disconnecting c.state k.closed) refl))
step-Silent to_force_close_in_loop c k = same-Silent _ k (
    if_else {b = is_connected c.state || is_disconnecting c.state} _ _
      (rw (not_connected c.state k.closed, not_disconnecting c.state k.closed) refl))
step-Silent to_destroy c k = destroy-Silent c k
step-Silent (readable r consume) c k = on_read-Silent r consume c k
step-Silent (writable r) c k =
    same-Silent _ k (if_else {b = is_writing c.channel && ltb 0 (write_fd r)} _ _ (rw k.quiet refl))
step-Silent to_close c k = on_close-Silent c
step-Silent in_error c k = on_error-Silent c

-- A connection that is `kDisconnected` and waits for nothing to write stays so, whatever is called on
-- it or was queued before, short of establishing it again: no byte goes to the kernel, nothing is
-- shut down and the output stays as it is.
pub run-Silent : (ss : List Step) (c : Connection) → Closed c → Silent c (run ss c)
unfolding run
run-Silent [] c k = same-Silent c k refl
run-Silent (s ∷ ss) c k =
    let one = step-Silent s c k in
    let rest = run-Silent ss (step s c) one.still in
    record {
      still = rest.still;
      wire = rest.wire ∙ one.wire;
      shut = rest.shut ∙ one.shut;
      output = rest.output ∙ one.output;
    }
