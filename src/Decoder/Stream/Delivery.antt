-- ===== src/Decoder/Stream/Delivery.antt =====
-- Messages that are sent through a socket come out of `readFd` and `decode` as they were sent.
use protobase.Common.{
  ℕ, zero, suc, ◌+◌, ◌≤◌, ◌<◌, ◌≡◌, ◌∙◌, refl, sym, ap, true, some, List, [], ◌∷◌, ◌++◌, arith,
  length, take, drop, append_assoc, append-nil, length-append, size_max,
}
use protobase.Memory.{Heap}
use protobase.Buffer.{Buffer}
use protobase.Buffer.Read.{number_le}
use protobase.Buffer.Valid.{Holds, Counted, content}
use protobase.Decoder.{FrameDecoder, known_width}
use protobase.Decoder.Frames.{frame_size, announced}
use protobase.Decoder.Stream.{
  Event, arrives, decodes, front, rest, frames, left, receive, NoWrap, Roomy,
}
use protobase.Decoder.Stream.Refine.{receive-frames}
use protobase.Decoder.Stream.Messages.{
  AllMessages, flatten, arriving, size-append, size_part, front_message, no_front, step-Stepped,
  frames_split, arrives_one, known_wide,
}

abbrev pub decode_times : ℕ → List Event
decode_times zero = []
decode_times (suc k) = decodes ∷ decode_times k

frames-append :
    (d : FrameDecoder) (es fs : List Event) (c : List ℕ)
    → frames d (es ++ fs) c ≡ frames d es c ++ frames d fs (left d es c)
unfolding frames left
frames-append d [] fs c = refl
frames-append d (arrives xs ∷ es) fs c = frames-append d es fs (c ++ xs)
frames-append d (decodes ∷ es) fs c =
    ap (λ k. front d c ++ k) (frames-append d es fs (rest d c))
    ∙ sym (append_assoc (front d c) (frames d es (rest d c)) (frames d fs (left d es (rest d c))))

left-append :
    (d : FrameDecoder) (es fs : List Event) (c : List ℕ)
    → left d (es ++ fs) c ≡ left d fs (left d es c)
unfolding left
left-append d [] fs c = refl
left-append d (arrives xs ∷ es) fs c = left-append d es fs (c ++ xs)
left-append d (decodes ∷ es) fs c = left-append d es fs (rest d c)

arriving-times : (es : List Event) (k : ℕ) → arriving (es ++ decode_times k) ≡ arriving es
arriving-times [] zero = refl
arriving-times [] (suc k) = arriving-times [] k
arriving-times (arrives xs ∷ es) k = ap (λ ys. xs ++ ys) (arriving-times es k)
arriving-times (decodes ∷ es) k = arriving-times es k

abbrev no_bytes : List ℕ
no_bytes = []

drop_nil : (n : ℕ) → drop n (no_bytes) ≡ no_bytes
drop_nil zero = refl
drop_nil (suc n) = refl

take_nil : (n : ℕ) → take n (no_bytes) ≡ no_bytes
take_nil zero = refl
take_nil (suc n) = refl

module _ (d : FrameDecoder) (known : known_width d.length_field_length ≡ true)
    (limited : d.max_frame_length < size_max)
    (small : d.length_field_offset + d.length_field_length + d.length_adjustment < size_max) where
  wide : 0 < d.length_field_length
  wide = known_wide d.length_field_length known

  size_none : frame_size d [] < size_max
  unfolding frame_size announced number_le
  size_none = omega (
    arith,
    ap (λ k. number_le (take d.length_field_length k)) (drop_nil d.length_field_offset),
    ap number_le (take_nil d.length_field_length),
  )

  -- A stream of messages announces no size that wraps.
  messages-NoWrap :
      (es : List Event) (c later : List ℕ) (ms : List (List ℕ))
      → AllMessages d ms
      → c ++ (arriving es ++ later) ≡ flatten ms
      → NoWrap d es c
  unfolding NoWrap
  messages-NoWrap [] c later ms all e = tt
  messages-NoWrap (arrives xs ∷ es) c later ms all e =
      messages-NoWrap es (c ++ xs) later ms all (arrives_one c xs (arriving es) later ∙ e)
  messages-NoWrap (decodes ∷ es) c later ms all e =
      let s = step-Stepped d wide c (arriving es ++ later) ms all e in
      (no_wrap ms all e, messages-NoWrap es (rest d c) later s.behind s.all s.leaves)
    where
      no_wrap :
          (ms : List (List ℕ))
          → AllMessages d ms
          → c ++ (arriving es ++ later) ≡ flatten ms
          → frame_size d c < size_max
      no_wrap [] all e =
          omega (arith, size_part d c (arriving es ++ later), ap (frame_size d) e, size_none)
      no_wrap (m ∷ ms) all e = omega (
        arith,
        size_part d c (arriving es ++ later),
        ap (frame_size d) e,
        size-append d m (flatten ms) all.0.header,
        all.0.exact,
        all.0.limit,
        limited,
      )

  -- With the whole stream there, one call for each message is enough.
  drains :
      (k : ℕ) (ms : List (List ℕ))
      → AllMessages d ms
      → length ms ≤ k
      → (frames d (decode_times k) (flatten ms) ≡ ms) × (left d (decode_times k) (flatten ms) ≡ [])
  unfolding frames left
  drains zero [] all le = (refl, refl)
  drains zero (m ∷ ms) all le = absurd (omega arith)
  drains (suc k) [] all le =
      let (f, r) = no_front d [] (λ f. omega (arith, f.header, wide)) in
      let (g, q) = drains k [] all (omega arith) in
      (
        ap (λ x. x ++ frames d (decode_times k) (rest d [])) f
            ∙ ap (frames d (decode_times k)) r
            ∙ g,
        ap (left d (decode_times k)) r ∙ q,
      )
  drains (suc k) (m ∷ ms) all le =
      let c = m ++ flatten ms in
      let (f, r) =
        front_message d c [] m (flatten ms) all.0 (append-nil c)
          (omega (arith, length-append m (flatten ms))) in
      let (g, q) = drains k ms all.1 (omega arith) in
      let e = sym (append-nil (rest d c)) ∙ r in
      (
        ap (λ x. x ++ frames d (decode_times k) (rest d c)) f
            ∙ ap (λ x. m ∷ frames d (decode_times k) x) e
            ∙ ap (λ x. m ∷ x) g,
        ap (left d (decode_times k)) e ∙ q,
      )

  -- At any time: where the bytes that arrive are the beginning of a stream of messages, the frames so
  -- far are the first of the messages, and the buffer keeps the beginning of the others.
  pub receive_prefix :
      (es : List Event) (later : List ℕ) (ms : List (List ℕ)) (n : ℕ) {b : Buffer} {h : Heap}
      {bytes : List ℕ}
      → Holds b h bytes
      → Counted b h n
      → AllMessages d ms
      → content b bytes ++ (arriving es ++ later) ≡ flatten ms
      → Roomy d es b h
      → (got behind : List (List ℕ)) × (b' : Buffer) × (h' : Heap) × (bytes' : List ℕ) × (receive d
            es b h
          ≡ some (got, b', h'))
        × Holds b' h' bytes'
        × (ms ≡ got ++ behind)
        × (content b' bytes' ++ later ≡ flatten behind)
  receive_prefix es later ms n {b} {h} {bytes} v counted all sent roomy =
      let c = content b bytes in
      let w =
        receive-frames d es n known v counted (messages-NoWrap es c later ms all sent) roomy in
      let (behind, f, l, a) = frames_split d wide es c later ms all sent in
      (
        frames d es c,
        behind,
        w.b',
        w.h',
        w.bytes',
        w.gives,
        w.holds,
        f,
        ap (λ k. k ++ later) w.remains ∙ l,
      )

  -- Messages, each of them one frame of the decoder, that arrive in any pieces, with `decode`
  -- called any number of times in between, and at the end once for each message or more often, come
  -- out as they were sent, in their order, and leave the buffer empty; no access is a fault. The
  -- length field has 1, 2, 4 or 8 bytes, the decoder's limit and its fixed sizes are below 2^64,
  -- the buffer meets its invariant, its count is live, and its capacity stays small enough for no
  -- sum of `size_t` to wrap.
  pub receive-messages :
      (es : List Event) (ms : List (List ℕ)) (k n : ℕ) {b : Buffer} {h : Heap} {bytes : List ℕ}
      → Holds b h bytes
      → Counted b h n
      → AllMessages d ms
      → content b bytes ++ arriving es ≡ flatten ms
      → length ms ≤ k
      → Roomy d (es ++ decode_times k) b h
      → (b' : Buffer) × (h' : Heap) × (bytes' : List ℕ) × (receive d (es ++ decode_times k) b h
          ≡ some (ms, b', h'))
        × Holds b' h' bytes'
        × (content b' bytes' ≡ [])
  receive-messages es ms k n {b} {h} {bytes} v counted all sent enough roomy =
      let c = content b bytes in
      let fs = es ++ decode_times k in
      let whole = ap (λ x. c ++ x) (append-nil (arriving es)) ∙ sent in
      let no_wrap =
        messages-NoWrap fs c [] ms all (ap (λ x. c ++ (x ++ [])) (arriving-times es k) ∙ whole) in
      let w = receive-frames d fs n known v counted no_wrap roomy in
      let (behind, f, l₀, a) = frames_split d wide es c [] ms all whole in
      let l = sym (append-nil (left d es c)) ∙ l₀ in
      let (g, q) =
        drains k behind a (omega (arith, ap length f, length-append (frames d es c) behind)) in
      (
        w.b',
        w.h',
        w.bytes',
        w.gives
            ∙ ap (λ x. some (x, w.b', w.h'))
                (frames-append d es (decode_times k) c
                  ∙ ap (λ x. frames d es c ++ frames d (decode_times k) x) l
                  ∙ ap (λ x. frames d es c ++ x) g
                  ∙ sym f),
        w.holds,
        w.remains ∙ left-append d es (decode_times k) c ∙ ap (left d (decode_times k)) l ∙ q,
      )
