-- ===== src/Decoder.antt =====
-- src/codecs/LengthFieldBasedFrameDecoder.cpp and .h: frames announced by a length field. The host is
-- little-endian, as the casts to `uint16_t *` and wider suppose. The log lines are left out.
pub mod Frames
pub mod Stream
use protobase.Common.{ℕ, Option, none, some, Bool, if◌then◌else◌, ◌==◌, ltb, ◌>>=◌, add_size, ◌||◌}
use protobase.Memory.{Heap}
use protobase.Buffer.{Buffer, readable_bytes}
use protobase.Buffer.Read.{peek, number_le}
use protobase.Buffer.Slice.{slice_packet}

-- The fields of `LengthFieldBasedFrameDecoder`, each a `size_t`. `decode` never reads
-- `initial_bytes_to_strip`.
pub record FrameDecoder : Type 0 where
  pub length_field_offset : ℕ
  pub length_field_length : ℕ
  pub length_adjustment : ℕ
  pub initial_bytes_to_strip : ℕ
  pub max_frame_length : ℕ

-- The constructor keeps its arguments; a length field of another width is only logged.
unfoldable pub create : ℕ → ℕ → ℕ → ℕ → ℕ → FrameDecoder
create max offset width adjustment strip = record {
  length_field_offset = offset;
  length_field_length = width;
  length_adjustment = adjustment;
  initial_bytes_to_strip = strip;
  max_frame_length = max;
}

-- The cases of the `switch`.
unfoldable pub known_width : ℕ → Bool
known_width w = w == 1 || w == 2 || w == 4 || w == 8

-- `payLoadLength`: the unsigned number in the length field.
unfoldable pub payload_length : FrameDecoder → Buffer → Heap → Option ℕ
unfolding peek number_le
payload_length d b h =
    peek d.length_field_offset d.length_field_length b h >>= λ bytes. some (number_le bytes)

-- `frameLength`: a sum of `size_t`, from left to right.
unfoldable pub frame_length : FrameDecoder → ℕ → ℕ
frame_length d payload =
    add_size (add_size (add_size d.length_field_offset d.length_field_length) payload)
      d.length_adjustment

-- The guards after the length is known.
unfoldable pub take_frame :
    FrameDecoder → ℕ → Buffer → Heap → Option (Option Buffer × Buffer × Heap)
unfolding slice_packet
take_frame d frame b h =
    if ltb d.max_frame_length frame
    then some (none, b, h)
    else if ltb (readable_bytes b) frame
    then some (none, b, h)
    else slice_packet frame b h

-- `decode`: the frame or `nullptr`, the buffer afterwards, and the heap.
unfoldable pub decode : FrameDecoder → Buffer → Heap → Option (Option Buffer × Buffer × Heap)
unfolding payload_length frame_length take_frame known_width
decode d b h =
    if ltb (readable_bytes b) (add_size d.length_field_length d.length_field_offset)
    then some (none, b, h)
    else if known_width d.length_field_length
    then (payload_length d b h >>= λ payload. take_frame d (frame_length d payload) b h)
    else some (none, b, h)
