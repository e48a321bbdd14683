-- ===== src/Connection/Shutdown.antt =====
-- src/net/Connection.cpp: `shutdown`, whose test of `isWriting` is the wrong way round.
use protobase.Common.{
  ◌≡◌, ◌∙◌, refl, ap, true, List, [], ◌∷◌, inl, inr, if_then, arith, if◌then◌else◌,
}
use protobase.Channel.{is_writing}
use protobase.Buffer.Fd.{WriteResult}
use protobase.Connection.{Connection, is_connected, k_disconnecting}
use protobase.Connection.Send.{shutdown, shutdown_in_loop}
use protobase.Connection.Handlers.{on_write, written}
use protobase.Connection.Queue.{on_write-cases}

abbrev pub drain : List WriteResult → Connection → Connection
drain [] c = c
drain (r ∷ rs) c = drain rs (on_write r c)

on_write-shut : (r : WriteResult) (c : Connection) → (on_write r c).shut ≡ c.shut
unfolding written
on_write-shut r c = elim (on_write-cases r c) [
  | inl e ↦ ap (λ d. d.shut) e
  | inr (w, inl (o, e)) ↦ ap (λ d. d.shut) e
  | inr (w, inr e) ↦ ap (λ d. d.shut) e
]

drain-shut : (rs : List WriteResult) (c : Connection) → (drain rs c).shut ≡ c.shut
drain-shut [] c = refl
drain-shut (r ∷ rs) c = drain-shut rs (on_write r c) ∙ on_write-shut r c

-- `shutdown` of a connected connection, in the loop's thread, followed by any number of `onWrite`s:
-- `shutdownWrite` is called if the connection waits to write, with its output still to be written,
-- and never if it has nothing to write.
pub shutdown_inverted :
    (rs : List WriteResult) (c : Connection)
    → is_connected c.state ≡ true
    → (drain rs (shutdown true c)).shut ≡ (if is_writing c.channel then true else c.shut)
unfolding shutdown shutdown_in_loop
shutdown_inverted rs c live =
    drain-shut rs (shutdown true c)
    ∙ ap (λ d. d.shut)
        (if_then {b = is_connected c.state}
          (shutdown_in_loop (record c { state = k_disconnecting })) c live)
    ∙ ground arith
