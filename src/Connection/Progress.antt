-- ===== src/Connection/Progress.antt =====
-- src/net/Connection.cpp: the order of the states of a connection.
use protobase.Common.{
  ℕ, ◌≡◌, ◌≤◌, refl, ap, Bool, true, false, List, [], ◌∷◌, arith, Bool-cases, inl, inr, ◌||◌,
  if◌then◌else◌,
}
use protobase.Channel.{is_writing}
use protobase.Poller.{enable_writing, disable_all}
use protobase.Buffer.Fd.{ReadResult, received, read_failed, WriteResult}
use protobase.Connection.{
  Connection, ConnectionState, k_connecting, k_connected, k_disconnecting, k_disconnected,
  is_connected, is_disconnecting, is_disconnected, Errno, on_channel,
}
use protobase.Connection.Send.{
  write_now, start_writing, keep_rest, behind, direct, send_in_loop, send, shutdown_in_loop,
  shutdown,
}
use protobase.Connection.Handlers.{
  written, on_close, on_error, force_close, force_close_in_loop, on_connection_destroy, on_read,
  on_write,
}
use protobase.Connection.Queue.{on_write-cases}
use protobase.Connection.States.{
  Step, to_send, to_send_in_loop, to_shut_down, to_shut_down_in_loop, to_force_close,
  to_force_close_in_loop, to_destroy, readable, writable, to_close, in_error, step, run,
}

-- The order of the states.
abbrev pub rank : ConnectionState → ℕ
rank k_connecting = 0
rank k_connected = 1
rank k_disconnecting = 2
rank k_disconnected = 3

-- Both branches of a test are at least as far.
if_rank :
    {b : Bool} {n : ℕ} (x y : Connection)
    → (b ≡ true → n ≤ rank x.state)
    → (b ≡ false → n ≤ rank y.state)
    → n ≤ rank (if b then x else y).state
if_rank {b = true} x y f g = f refl
if_rank {b = false} x y f g = g refl

rank-connected : (s : ConnectionState) → is_connected s ≡ true → rank s ≡ 1
rank-connected k_connecting h = cc
rank-connected k_connected h = refl
rank-connected k_disconnecting h = cc
rank-connected k_disconnected h = cc

rank_bound : (s : ConnectionState) → rank s ≤ 3
rank_bound k_connecting = omega arith
rank_bound k_connected = omega arith
rank_bound k_disconnecting = omega arith
rank_bound k_disconnected = omega arith

rank_active : (s : ConnectionState) → (is_connected s || is_disconnecting s) ≡ true → rank s ≤ 2
rank_active k_connecting h = omega arith
rank_active k_connected h = omega arith
rank_active k_disconnecting h = omega arith
rank_active k_disconnected h = cc

start_writing-rank : (c : Connection) → rank c.state ≤ rank (start_writing c).state
unfolding start_writing
start_writing-rank c =
    if_rank {b = is_writing c.channel} c (on_channel enable_writing c) (λ h. omega arith)
      (λ h. omega arith)

keep_rest-rank : (m : List ℕ) (c : Connection) → rank c.state ≤ rank (keep_rest m c).state
unfolding keep_rest
keep_rest-rank [] c = omega arith
keep_rest-rank (b ∷ m) c = start_writing-rank (behind (b ∷ m) c)

write_now-state :
    (m : List ℕ) (r : WriteResult) (e : Errno) (c : Connection)
    → (write_now m r e c).connection.state ≡ c.state
unfolding write_now
write_now-state m r e c = elim (Bool-cases (direct c)) [
  | inl h ↦ rw (h, write_now) refl
  | inr h ↦ rw (h, write_now) refl
]

send_in_loop-rank :
    (m : List ℕ) (r : WriteResult) (e : Errno) (c : Connection)
    → rank c.state ≤ rank (send_in_loop m r e c).state
unfolding send_in_loop
send_in_loop-rank m r e c =
    let a = write_now m r e c in
    let same = write_now-state m r e c in
    if_rank {b = is_disconnected c.state} c
      (if a.fault then a.connection else keep_rest a.rest a.connection) (λ h. omega arith)
      (λ h.
        if_rank {b = a.fault} a.connection (keep_rest a.rest a.connection)
          (λ k. omega (arith, ap rank same))
          (λ k. omega (arith, ap rank same, keep_rest-rank a.rest a.connection)))

shutdown_in_loop-rank : (c : Connection) → rank c.state ≤ rank (shutdown_in_loop c).state
unfolding shutdown_in_loop
shutdown_in_loop-rank c =
    if_rank {b = is_writing c.channel} (record c { shut = true }) c (λ h. omega arith)
      (λ h. omega arith)

send-rank :
    (b : Bool) (m : List ℕ) (r : WriteResult) (e : Errno) (c : Connection)
    → rank c.state ≤ rank (send b m r e c).state
unfolding send
send-rank true m r e c =
    if_rank {b = is_connected c.state} _ c (λ h. send_in_loop-rank m r e c) (λ h. omega arith)
send-rank false m r e c =
    if_rank {b = is_connected c.state} _ c (λ h. omega arith) (λ h. omega arith)

shutdown-rank : (b : Bool) (c : Connection) → rank c.state ≤ rank (shutdown b c).state
unfolding shutdown
shutdown-rank true c =
    if_rank {b = is_connected c.state} _ c
      (λ h. omega (
        arith,
        rank-connected c.state h,
        shutdown_in_loop-rank (record c { state = k_disconnecting }),
      ))
      (λ h. omega arith)
shutdown-rank false c =
    if_rank {b = is_connected c.state} _ c (λ h. omega (arith, rank-connected c.state h))
      (λ h. omega arith)

on_read-rank :
    (r : ReadResult) (consume : List ℕ → List ℕ) (c : Connection)
    → rank c.state ≤ rank (on_read r consume c).state
unfolding on_read on_close on_error
on_read-rank read_failed consume c = rank_bound c.state
on_read-rank (received []) consume c = rank_bound c.state
on_read-rank (received (b ∷ bytes)) consume c =
    if_rank {b = c.has_message} _ _ (λ h. omega arith) (λ h. omega arith)

on_write-rank : (r : WriteResult) (c : Connection) → rank c.state ≤ rank (on_write r c).state
unfolding written
on_write-rank r c = elim (on_write-cases r c) [
  | inl e ↦ omega (arith, ap (λ d. rank d.state) e)
  | inr (w, inl (o, e)) ↦ omega (arith, ap (λ d. rank d.state) e)
  | inr (w, inr e) ↦ omega (arith, ap (λ d. rank d.state) e)
]

step-rank : (s : Step) (c : Connection) → rank c.state ≤ rank (step s c).state
unfolding step force_close force_close_in_loop on_connection_destroy on_close on_error
step-rank (to_send b m r e) c = send-rank b m r e c
step-rank (to_send_in_loop m r e) c = send_in_loop-rank m r e c
step-rank (to_shut_down b) c = shutdown-rank b c
step-rank to_shut_down_in_loop c = shutdown_in_loop-rank c
step-rank to_force_close c =
    if_rank {b = is_connected c.state || is_disconnecting c.state} _ c (λ h. rank_active c.state h)
      (λ h. omega arith)
step-rank to_force_close_in_loop c =
    if_rank {b = is_connected c.state || is_disconnecting c.state} _ c (λ h. rank_bound c.state)
      (λ h. omega arith)
step-rank to_destroy c =
    if_rank {b = is_connected c.state}
      (record (on_channel disable_all c) { state = k_disconnected }) c (λ h. rank_bound c.state)
      (λ h. omega arith)
step-rank (readable r consume) c = on_read-rank r consume c
step-rank (writable r) c = on_write-rank r c
step-rank to_close c = rank_bound c.state
step-rank in_error c = rank_bound c.state

-- No operation on a connection, of the loop or of its users, takes its state back in the order
-- connecting, connected, disconnecting, disconnected, short of establishing it.
pub run-rank : (ss : List Step) (c : Connection) → rank c.state ≤ rank (run ss c).state
unfolding run
run-rank [] c = omega arith
run-rank (s ∷ ss) c = omega (arith, step-rank s c, run-rank ss (step s c))
