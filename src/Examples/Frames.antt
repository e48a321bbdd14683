-- ===== src/Examples/Frames.antt =====
-- src/codecs/LengthFieldBasedFrameDecoder.cpp at a small stream.
use protobase.Common.{
  ℕ, ◌≡◌, refl, none, some, true, List, [], ◌∷◌, arith, size_max, drop, ◌==◌, if◌then◌else◌,
}
use protobase.Memory.{Heap}
use protobase.Buffer.{Buffer}
use protobase.Buffer.Read.{number_le}
use protobase.Buffer.Valid.{Holds, Counted, Live, content}
use protobase.Buffer.Views.{Views}
use protobase.Decoder.{FrameDecoder, known_width, decode}
use protobase.Decoder.Frames.{frame_size, announced, decode-frame, decode_no_frame, decode_wraps}

-- A stream of five bytes at the front of a block: a frame with two bytes of payload, and one more.
abbrev stream : List ℕ
stream = 0 ∷ 0 ∷ 0 ∷ 0 ∷ 0 ∷ 0 ∷ 0 ∷ 0 ∷ 7 ∷ 2 ∷ 97 ∷ 98 ∷ 9 ∷ []

-- Eight bytes that announce 2^64 - 8.
abbrev huge : List ℕ
huge = 0 ∷ 0 ∷ 0 ∷ 0 ∷ 0 ∷ 0 ∷ 0 ∷ 0 ∷ 248 ∷ 255 ∷ 255 ∷ 255 ∷ 255 ∷ 255 ∷ 255 ∷ 255 ∷ []

abbrev over : List ℕ → Heap
over bytes = record {
  next = 3;
  block = λ p. if p == 1 then some bytes else none;
  count = λ p. if p == 2 then some 1 else none;
  junk = 0;
}

abbrev holder : ℕ → Buffer
holder size = record {
  buffer = 1;
  read_index = 8;
  write_index = size;
  capacity = size;
  ref_count = 2;
  own_memory = true;
}

stream-Holds : Holds (holder 13) (over stream) stream
stream-Holds = record {
  front = omega arith;
  order = omega arith;
  room = omega arith;
  small = omega arith;
  not_null = omega arith;
  allocated = omega arith;
  block = refl;
  size = refl;
}

huge-Holds : Holds (holder 16) (over huge) huge
huge-Holds = record {
  front = omega arith;
  order = omega arith;
  room = omega arith;
  small = omega arith;
  not_null = omega arith;
  allocated = omega arith;
  block = refl;
  size = refl;
}

over-Counted : (size : ℕ) (bytes : List ℕ) → Counted (holder size) (over bytes) 1
over-Counted size bytes = record {
  positive = omega arith;
  not_null = omega arith;
  allocated = omega arith;
  count = refl;
}

abbrev framing : ℕ → FrameDecoder
framing max = record {
  length_field_offset = 1;
  length_field_length = 1;
  length_adjustment = 0;
  initial_bytes_to_strip = 0;
  max_frame_length = max;
}

abbrev wide : FrameDecoder
wide = record {
  length_field_offset = 0;
  length_field_length = 8;
  length_adjustment = 0;
  initial_bytes_to_strip = 0;
  max_frame_length = 100;
}

stream_size : (max : ℕ) → frame_size (framing max) (drop 8 stream) ≡ 4
unfolding frame_size announced number_le
stream_size max = refl

huge_size : frame_size wide (drop 8 huge) ≡ size_max
unfolding frame_size announced number_le
huge_size = refl

decode-frame_example :
    (view b' : Buffer) × (h' : Heap) × (decode (framing 100) (holder 13) (over stream)
      ≡ some (some view, b', h'))
    × Views stream-Holds 1
        (over-Counted 13 stream)
        0
        (frame_size (framing 100) (drop 8 stream))
        view
        h'
    × Holds b' h' stream
    × (content b' stream ≡ drop (frame_size (framing 100) (drop 8 stream)) (drop 8 stream))
    × Live b' h'
unfolding known_width
decode-frame_example =
    decode-frame (framing 100) stream-Holds refl 1 (over-Counted 13 stream)
      (omega (arith, stream_size 100))
      (record {
        header = omega arith;
        limit = omega (arith, stream_size 100);
        whole = omega (arith, stream_size 100);
      })

decode_no_frame_example :
    decode (framing 3) (holder 13) (over stream) ≡ some (none, holder 13, over stream)
unfolding known_width
decode_no_frame_example =
    decode_no_frame (framing 3) stream-Holds refl (omega (arith, stream_size 3))
      (λ f. omega (arith, f.limit, stream_size 3))

decode_wraps_example :
    (view b' : Buffer) × (h' : Heap) × (decode wide (holder 16) (over huge)
      ≡ some (some view, b', h'))
    × (content view huge ≡ [])
    × Holds b' h' huge
    × Live b' h'
    × (content b' huge ≡ drop 8 huge)
unfolding known_width
decode_wraps_example =
    decode_wraps wide huge-Holds refl 1 (over-Counted 16 huge) (omega arith) huge_size
