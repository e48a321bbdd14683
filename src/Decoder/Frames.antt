-- ===== src/Decoder/Frames.antt =====
-- What `decode` makes of the readable bytes, against a description that does not mention indices,
-- heaps or word sizes.
use protobase.Common.{
  ℕ, ◌+◌, ◌-◌, ◌≤◌, ◌<◌, ◌≡◌, ◌∙◌, ap, inl, inr, none, some, true, false, List, [], arith, length,
  take, drop, ◌⊎◌, lt→ltb, ltb, if_then, if_else, size_max, add_size, add_size-eq, le→ltb_false,
}
use native.Mathlib.Decide.{dec_lt}
use protobase.Memory.{Heap}
use protobase.Buffer.{Buffer, readable_bytes}
use protobase.Buffer.Read.{number_le}
use protobase.Buffer.Slice.{slice_packet}
use protobase.Buffer.Valid.{Holds, Counted, Live, content, readable-eq, length-content}
use protobase.Buffer.Consume.{peek-content}
use protobase.Buffer.Views.{Views, slice_packet-Views}
use protobase.Decoder.{FrameDecoder, known_width, payload_length, frame_length, take_frame, decode}

-- The number in the length field of a stream.
unfoldable pub announced : FrameDecoder → List ℕ → ℕ
announced d c = number_le (take d.length_field_length (drop d.length_field_offset c))

-- The length of the frame that a stream starts with: offset, field, payload and adjustment.
unfoldable pub frame_size : FrameDecoder → List ℕ → ℕ
frame_size d c = d.length_field_offset + d.length_field_length + announced d c + d.length_adjustment

-- The stream holds a length field, the frame is within the limit, and all of it is there.
pub record HasFrame (d : FrameDecoder) (c : List ℕ) : Type 0 where
  pub header : d.length_field_length + d.length_field_offset ≤ length c
  pub limit : frame_size d c ≤ d.max_frame_length
  pub whole : frame_size d c ≤ length c

module _ (d : FrameDecoder) {b : Buffer} {h : Heap} {bytes : List ℕ} (v : Holds b h bytes)
    (known : known_width d.length_field_length ≡ true) where
  abbrev c : List ℕ
  c = content b bytes

  abbrev header_size : ℕ
  header_size = d.length_field_length + d.length_field_offset

  payload_length-eq : header_size ≤ length c → payload_length d b h ≡ some (announced d c)
  unfolding payload_length announced
  payload_length-eq header =
      rw (
        peek-content v d.length_field_offset d.length_field_length
          (omega (arith, length-content v)))

  frame_length-eq : frame_size d c < size_max → frame_length d (announced d c) ≡ frame_size d c
  unfolding frame_length frame_size add_size
  frame_length-eq no_wrap = omega arith

  frame_length_wraps : frame_size d c ≡ size_max → frame_length d (announced d c) ≡ 0
  unfolding frame_length frame_size add_size
  frame_length_wraps wraps = omega arith

  -- Past the header's guard, `decode` goes by the guards on the frame's length.
  decode_past_header :
      header_size ≤ length c → decode d b h ≡ take_frame d (frame_length d (announced d c)) b h
  unfolding decode
  decode_past_header header = rw (
    readable-eq v,
    add_size-eq d.length_field_length d.length_field_offset
        (omega (arith, length-content v, v.room, v.small)),
    le→ltb_false (b.write_index - b.read_index) header_size (omega (arith, length-content v)),
    known,
    payload_length-eq header,
  )

  decode_short : length c < header_size → header_size < size_max → decode d b h ≡ some (none, b, h)
  unfolding decode
  decode_short short small = rw (
    readable-eq v,
    add_size-eq d.length_field_length d.length_field_offset small,
    lt→ltb (b.write_index - b.read_index) header_size (omega (arith, length-content v)),
  )

  take_frame_passes :
      (frame : ℕ)
      → frame ≤ d.max_frame_length
      → frame ≤ length c
      → take_frame d frame b h ≡ slice_packet frame b h
  unfolding take_frame
  take_frame_passes frame limit whole =
      if_else _ _ (le→ltb_false d.max_frame_length frame limit) ∙ if_else _ _ enough
    where
      enough : ltb (readable_bytes b) frame ≡ false
      enough =
          rw (readable-eq v)
            (le→ltb_false (b.write_index - b.read_index) frame (omega (arith, length-content v)))

  take_frame_refuses :
      (frame : ℕ)
      → (d.max_frame_length < frame) ⊎ (length c < frame)
      → take_frame d frame b h ≡ some (none, b, h)
  unfolding take_frame
  take_frame_refuses frame (inl over) = if_then _ _ (lt→ltb d.max_frame_length frame over)
  take_frame_refuses frame (inr short) =
      rw
        (
          readable-eq v,
          lt→ltb (b.write_index - b.read_index) frame (omega (arith, length-content v)),
        )
        (ground arith)

  -- With a length field of 1, 2, 4 or 8 bytes, on a buffer that meets the invariant, and where the
  -- frame's size does not wrap: if the content starts with a whole frame within the limit,
  -- `decode` gives a view of just that frame, and leaves the buffer with the rest and a live count.
  pub decode-frame :
      (n : ℕ) (counted : Counted b h n)
      → frame_size d c < size_max
      → HasFrame d c
      → (view b' : Buffer) × (h' : Heap) × (decode d b h ≡ some (some view, b', h'))
        × Views v n counted 0 (frame_size d c) view h'
        × Holds b' h' bytes
        × (content b' bytes ≡ drop (frame_size d c) c)
        × Live b' h'
  decode-frame n counted no_wrap f =
      let (view, b', h', e, r, s, t, l) =
        slice_packet-Views v n counted (frame_size d c)
          (omega (arith, length-content v, f.whole)) in
      (
        view,
        b',
        h',
        decode_past_header f.header
            ∙ ap (λ k. take_frame d k b h) (frame_length-eq no_wrap)
            ∙ take_frame_passes (frame_size d c) f.limit f.whole
            ∙ e,
        r,
        s,
        t,
        l,
      )

  -- With a length field of 1, 2, 4 or 8 bytes, on a buffer that meets the invariant, and where the
  -- frame's size does not wrap: if the content does not start with a whole frame within the limit,
  -- `decode` gives `nullptr`, and neither the buffer nor the heap changes.
  pub decode_no_frame :
      frame_size d c < size_max → ¬ HasFrame d c → decode d b h ≡ some (none, b, h)
  decode_no_frame no_wrap missing = elim (dec_lt (length c) header_size) [
    | yes short ↦ decode_short short (unfold frame_size in omega (arith, no_wrap))
    | no header ↦
        decode_past_header (omega arith)
        ∙ ap (λ k. take_frame d k b h) (frame_length-eq no_wrap)
        ∙ refused (omega arith)
  ]
    where
      refused : header_size ≤ length c → take_frame d (frame_size d c) b h ≡ some (none, b, h)
      refused header = elim (dec_lt d.max_frame_length (frame_size d c)) [
        | yes over ↦ take_frame_refuses (frame_size d c) (inl over)
        | no limit ↦ elim (dec_lt (length c) (frame_size d c)) [
          | yes short ↦ take_frame_refuses (frame_size d c) (inr short)
          | no whole ↦
              absurd
                (missing (record { header = header; limit = omega arith; whole = omega arith }))
        ]
      ]

  -- With a length field of 1, 2, 4 or 8 bytes that is wholly there, on a buffer that meets the
  -- invariant and whose count is live: where the announced size makes the sum of the sizes 2^64, it
  -- wraps to 0 and passes both guards, under any limit. `decode` gives an empty frame, and the buffer
  -- keeps its invariant, a live count and its whole content.
  pub decode_wraps :
      (n : ℕ) (counted : Counted b h n)
      → header_size ≤ length c
      → frame_size d c ≡ size_max
      → (view b' : Buffer) × (h' : Heap) × (decode d b h ≡ some (some view, b', h'))
        × (content view bytes ≡ [])
        × Holds b' h' bytes
        × Live b' h'
        × (content b' bytes ≡ c)
  decode_wraps n counted header wraps =
      let (view, b', h', e, r, s, t, l) = slice_packet-Views v n counted 0 (omega arith) in
      (
        view,
        b',
        h',
        decode_past_header header
            ∙ ap (λ k. take_frame d k b h) (frame_length_wraps wraps)
            ∙ take_frame_passes 0 (omega arith) (omega arith)
            ∙ e,
        r.bytes_viewed,
        s,
        l,
        t,
      )
