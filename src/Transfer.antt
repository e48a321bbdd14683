-- ===== src/Transfer.antt =====
-- src/net/Connection.cpp at one end of a socket, and `readFd` of src/base/Buffer.cpp with
-- src/codecs/LengthFieldBasedFrameDecoder.cpp at the other. The network delivers the bytes that the
-- sender's kernel took, in their order, in any pieces, and some of them later.
use protobase.Common.{
  ℕ, ◌+◌, ◌<◌, ◌≡◌, ◌∙◌, sym, ap, true, false, some, List, [], ◌++◌, append_assoc, size_max,
}
use protobase.Memory.{Heap}
use protobase.Buffer.{Buffer}
use protobase.Buffer.Valid.{Holds, Counted, content}
use protobase.Connection.{Connection, is_disconnected}
use protobase.Connection.Queue.{Idle}
use protobase.Connection.Order.{Sending, run_sending, sent, Unfailing, run_sending-Carries}
use protobase.Decoder.{FrameDecoder, known_width}
use protobase.Decoder.Stream.{Event, receive, Roomy}
use protobase.Decoder.Stream.Messages.{AllMessages, flatten, arriving}
use protobase.Decoder.Stream.Delivery.{receive_prefix}

-- From a sender that has sent nothing to a receiver that has received nothing: where the sender's
-- `sendInLoop`s send messages, each of them one frame of the receiver's decoder, and the receiver
-- has got the beginning of what the sender's kernel took, the frames that `decode` has given by
-- then are the first of the messages, in order and byte for byte, and no access is a fault. No
-- `write` of the sender meets a broken connection or fails under `onWrite`; the length field has 1,
-- 2, 4 or 8 bytes; the receiver's buffer meets its invariant, and none of the sums of `size_t`
-- wraps.
pub receive-run_sending :
    (d : FrameDecoder) (c : Connection) (steps : List Sending) (es : List Event) (later : List ℕ)
    (ms : List (List ℕ)) (n : ℕ) {b : Buffer} {h : Heap} {bytes : List ℕ}
    → known_width d.length_field_length ≡ true
    → d.max_frame_length < size_max
    → d.length_field_offset + d.length_field_length + d.length_adjustment < size_max
    → c.wire ++ c.output ≡ []
    → Idle c
    → is_disconnected c.state ≡ false
    → Unfailing steps
    → sent steps ≡ flatten ms
    → AllMessages d ms
    → (run_sending steps c).wire ≡ arriving es ++ later
    → Holds b h bytes
    → Counted b h n
    → content b bytes ≡ []
    → Roomy d es b h
    → (got behind : List (List ℕ)) × (b' : Buffer) × (h' : Heap) × (bytes' : List ℕ) × (receive d es
          b h
        ≡ some (got, b', h'))
      × Holds b' h' bytes'
      × (ms ≡ got ++ behind)
      × (content b' bytes' ++ (later ++ (run_sending steps c).output) ≡ flatten behind)
receive-run_sending d c steps es later ms n {b} {bytes = bytes} known limited small nothing idle
      live ok sends all wired v counted empty roomy =
    let s = run_sending steps c in
    let carried = (run_sending-Carries steps c idle live ok).bytes in
    receive_prefix d known limited small es (later ++ s.output) ms n v counted all
      (ap (λ k. k ++ (arriving es ++ (later ++ s.output))) empty
        ∙ sym (append_assoc (arriving es) later s.output)
        ∙ ap (λ k. k ++ s.output) (sym wired)
        ∙ carried
        ∙ ap (λ k. k ++ sent steps) nothing
        ∙ sends)
      roomy
