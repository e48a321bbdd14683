-- ===== src/Examples/Streams.antt =====
-- src/codecs/LengthFieldBasedFrameDecoder.cpp and src/net/Connection.cpp with two messages that arrive in
-- three pieces.
use protobase.Common.{
  ℕ, ◌≡◌, refl, none, some, true, Option, List, [], ◌∷◌, ◌++◌, arith, ◌==◌, if◌then◌else◌,
  replicate,
}
use protobase.Common.Int.{pos}
use protobase.Memory.{Heap}
use protobase.Poller.{no_channels}
use protobase.Buffer.{Buffer}
use protobase.Buffer.Fd.{took, read_fd}
use protobase.Buffer.Read.{number_le}
use protobase.Buffer.Valid.{Holds, Counted, content}
use protobase.Connection.{Connection, would_block, create}
use protobase.Connection.Handlers.{on_connection_establish, on_write}
use protobase.Connection.Order.{Sending, sends, drains, run_sending}
use protobase.Connection.Send.{send_in_loop}
use protobase.Decoder.{FrameDecoder, known_width, decode}
use protobase.Decoder.Frames.{frame_size, announced}
use protobase.Decoder.Stream.{Event, arrives, decodes, receive, NoWrap, Roomy, frames, left, rest}
use protobase.Decoder.Stream.Refine.{Received, receive-frames}
use protobase.Decoder.Stream.Messages.{AllMessages, flatten, arriving}
use protobase.Decoder.Stream.Delivery.{decode_times, receive-messages}
use protobase.Transfer.{receive-run_sending}

-- One byte, the length of the payload, and the payload.
abbrev framing : FrameDecoder
framing = record {
  length_field_offset = 1;
  length_field_length = 1;
  length_adjustment = 0;
  initial_bytes_to_strip = 0;
  max_frame_length = 100;
}

abbrev messages : List (List ℕ)
messages = (7 ∷ 2 ∷ 97 ∷ 98 ∷ []) ∷ (8 ∷ 1 ∷ 99 ∷ []) ∷ []

messages-AllMessages : AllMessages framing messages
unfolding frame_size announced number_le
messages-AllMessages = (
  record { header = omega arith; exact = refl; limit = omega arith },
  (record { header = omega arith; exact = refl; limit = omega arith }, tt),
)

abbrev pieces : List Event
pieces =
    arrives (7 ∷ 2 ∷ 97 ∷ [])
    ∷ decodes
    ∷ arrives (98 ∷ 8 ∷ 1 ∷ [])
    ∷ decodes
    ∷ arrives (99 ∷ [])
    ∷ []

abbrev memory : Heap
memory = record {
  next = 3;
  block = λ p. if p == 1 then some (replicate 24 0) else none;
  count = λ p. if p == 2 then some 1 else none;
  junk = 0;
}

abbrev empty : Buffer
empty = record {
  buffer = 1;
  read_index = 8;
  write_index = 8;
  capacity = 24;
  ref_count = 2;
  own_memory = true;
}

empty-Holds : Holds empty memory (replicate 24 0)
empty-Holds = record {
  front = omega arith;
  order = omega arith;
  room = omega arith;
  small = omega arith;
  not_null = omega arith;
  allocated = omega arith;
  block = refl;
  size = refl;
}

empty-Counted : Counted empty memory 1
empty-Counted = record {
  positive = omega arith;
  not_null = omega arith;
  allocated = omega arith;
  count = refl;
}

pieces_fit : Roomy framing (pieces ++ decode_times 2) empty memory
unfolding Roomy read_fd decode protobase.Buffer.writable_bytes protobase.Common.sub_size
    protobase.Buffer.readable_bytes protobase.Common.add_size
pieces_fit = (omega arith, (omega arith, (omega arith, tt)))

receive-messages_example :
    (b' : Buffer) × (h' : Heap) × (bytes' : List ℕ) × (receive framing
        (pieces ++ decode_times 2)
        empty
        memory
      ≡ some (messages, b', h'))
    × Holds b' h' bytes'
    × (content b' bytes' ≡ [])
unfolding known_width
receive-messages_example =
    receive-messages framing refl (omega arith) (omega arith) pieces messages 2 1 empty-Holds
      empty-Counted messages-AllMessages refl (omega arith) pieces_fit

-- No size wraps on the way.
pieces_small : NoWrap framing pieces []
unfolding NoWrap rest protobase.Decoder.Stream.starts frame_size announced number_le
pieces_small = (omega arith, (omega arith, tt))

first_fit : Roomy framing pieces empty memory
unfolding Roomy read_fd decode protobase.Buffer.writable_bytes protobase.Common.sub_size
    protobase.Buffer.readable_bytes protobase.Common.add_size
first_fit = (omega arith, (omega arith, (omega arith, tt)))

receive-frames_example : Received framing pieces empty memory []
unfolding known_width
receive-frames_example =
    receive-frames framing pieces 1 refl empty-Holds empty-Counted pieces_small first_fit

-- The kernel takes two bytes of the first message, the rest of it later, and the second at once.
abbrev steps : List Sending
steps =
    sends (7 ∷ 2 ∷ 97 ∷ 98 ∷ []) (took 2) would_block
    ∷ drains (took 2)
    ∷ sends (8 ∷ 1 ∷ 99 ∷ []) (took 3) would_block
    ∷ []

abbrev sender : Connection
sender = on_connection_establish (create 1 (pos 5) no_channels)

all_taken : (run_sending steps sender).wire ≡ arriving pieces ++ []
unfolding create on_connection_establish send_in_loop on_write
all_taken = refl

receive-run_sending_example :
    (got behind : List (List ℕ)) × (b' : Buffer) × (h' : Heap) × (bytes' : List ℕ) × (receive
        framing pieces empty memory
      ≡ some (got, b', h'))
    × Holds b' h' bytes'
    × (messages ≡ got ++ behind)
    × (content b' bytes' ++ ([] ++ (run_sending steps sender).output) ≡ flatten behind)
unfolding known_width create on_connection_establish
receive-run_sending_example =
    receive-run_sending framing sender steps pieces [] messages 1 refl (omega arith) (omega arith)
      refl (λ h. refl) refl (refl, (refl, tt)) refl messages-AllMessages all_taken empty-Holds
      empty-Counted refl first_fit
