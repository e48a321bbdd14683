-- ===== src/Connection/Order.antt =====
-- src/net/Connection.cpp: the bytes of a connection in order, over any number of sends and writes.
use protobase.Common.{ℕ, ◌≡◌, ◌∙◌, false, List, [], ◌∷◌, ◌++◌}
use protobase.Buffer.Fd.{WriteResult, took, write_failed}
use protobase.Connection.{Connection, Errno, is_disconnected}
use protobase.Connection.Send.{send_in_loop}
use protobase.Connection.Handlers.{on_write}
use protobase.Connection.Queue.{
  Idle, Carries, Carries-refl, Carries-trans, Unbroken, send_in_loop-Carries, on_write-Carries,
}

-- What the loop does with the output of a connection.
pub data Sending : Type 0 where
  sends : List ℕ → WriteResult → Errno → Sending
  drains : WriteResult → Sending

abbrev pub run_sending : List Sending → Connection → Connection
run_sending [] c = c
run_sending (sends m r e ∷ rest) c = run_sending rest (send_in_loop m r e c)
run_sending (drains r ∷ rest) c = run_sending rest (on_write r c)

abbrev pub sent : List Sending → List ℕ
sent [] = []
sent (sends m r e ∷ rest) = m ++ sent rest
sent (drains r ∷ rest) = sent rest

-- No `write` meets a broken connection, and none fails under `onWrite`.
abbrev pub Unfailing : List Sending → Type 0
Unfailing [] = Unit {0}
Unfailing (sends m r e ∷ rest) = Unbroken r e × Unfailing rest
Unfailing (drains (took n) ∷ rest) = Unfailing rest
Unfailing (drains write_failed ∷ rest) = ⊥

-- On a connection that is not `kDisconnected` and has output only while it waits to write, any
-- sequence of `sendInLoop`s and `onWrite`s, whatever part the kernel takes each time, keeps every byte
-- in order: what the kernel took followed by the output is what it was before, followed by the sent
-- messages. No `write` may meet a broken connection, and no `write` of `onWrite` may fail.
pub run_sending-Carries :
    (steps : List Sending) (c : Connection)
    → Idle c
    → is_disconnected c.state ≡ false
    → Unfailing steps
    → Carries (sent steps) c (run_sending steps c)
run_sending-Carries [] c idle live ok = Carries-refl c idle
run_sending-Carries (sends m r e ∷ rest) c idle live ok =
    let one = send_in_loop-Carries m r e c idle live ok.0 in
    Carries-trans one
      (run_sending-Carries rest (send_in_loop m r e c) one.idle (one.same_state ∙ live) ok.1)
run_sending-Carries (drains (took n) ∷ rest) c idle live ok =
    let one = on_write-Carries n c idle in
    Carries-trans one
      (run_sending-Carries rest (on_write (took n) c) one.idle (one.same_state ∙ live) ok)
run_sending-Carries (drains write_failed ∷ rest) c idle live ok = absurd ok
