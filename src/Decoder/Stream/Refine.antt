-- ===== src/Decoder/Stream/Refine.antt =====
-- `decode` on a stream that arrives in pieces, against the description of the stream.
use protobase.Common.{
  ℕ, ◌+◌, ◌≤◌, ◌<◌, ◌≡◌, ◌∙◌, refl, sym, ap, subst, inl, inr, Bool, true, false, ◌&&◌, Option, none,
  some, List, [], ◌∷◌, ◌++◌, if◌then◌else◌, if_then, if_else, Bool-cases, ◌>>=◌, arith, length,
  take, drop, leb, and_true, leb→le, le→leb,
}
use protobase.Memory.{Heap}
use protobase.Buffer.{Buffer}
use protobase.Buffer.Valid.{Holds, Counted, Live, content}
use protobase.Buffer.Access.{load-content}
use protobase.Buffer.Input.{read_fd-content}
use protobase.Decoder.{FrameDecoder, known_width, decode}
use protobase.Decoder.Frames.{frame_size, HasFrame, decode-frame, decode_no_frame}
use protobase.Decoder.Stream.{
  Event, arrives, decodes, frame_bytes, behind_frames, receive, starts, front, rest, frames, left,
  NoWrap, After, Roomy,
}

pub starts-HasFrame : (d : FrameDecoder) (c : List ℕ) → starts d c ≡ true → HasFrame d c
unfolding starts
starts-HasFrame d c h =
    let (p, q) = and_true _ _ h in
    let (q₁, q₂) = and_true _ _ q in
    record { header = leb→le _ _ p; limit = leb→le _ _ q₁; whole = leb→le _ _ q₂ }

pub HasFrame-starts : (d : FrameDecoder) (c : List ℕ) → HasFrame d c → starts d c ≡ true
unfolding starts
HasFrame-starts d c f = rw (le→leb _ _ f.header, le→leb _ _ f.limit, le→leb _ _ f.whole) refl

-- What `receive` is to give.
pub record Received (d : FrameDecoder) (es : List Event) (b : Buffer) (h : Heap) (c : List ℕ)
    : Type 0 where
  pub b' : Buffer
  pub h' : Heap
  pub bytes' : List ℕ
  pub gives : receive d es b h ≡ some (frames d es c, b', h')
  pub holds : Holds b' h' bytes'
  pub remains : content b' bytes' ≡ left d es c

-- `decode` gives the first frame of the content, if there is one, and takes it off.
record Decoded (d : FrameDecoder) (b : Buffer) (h : Heap) (bytes : List ℕ) : Type 0 where
  o : Option Buffer
  b' : Buffer
  h' : Heap
  gives : decode d b h ≡ some (o, b', h')
  frame : frame_bytes o h' ≡ some (front d (content b bytes))
  holds : Holds b' h' bytes
  remains : content b' bytes ≡ rest d (content b bytes)
  live : Live b' h'

decode-Decoded :
    (d : FrameDecoder) (n : ℕ) {b : Buffer} {h : Heap} {bytes : List ℕ} (v : Holds b h bytes)
    → Counted b h n
    → known_width d.length_field_length ≡ true
    → frame_size d (content b bytes) < protobase.Common.size_max
    → Decoded d b h bytes
unfolding frame_bytes front rest
decode-Decoded d n {b} {h} {bytes} v counted known no_wrap =
    elim (Bool-cases (starts d (content b bytes))) [
      | inl e ↦
          let (view, b', h', eq, r, s, t, l) =
            decode-frame d v known n counted no_wrap (starts-HasFrame d (content b bytes) e) in
          record {
            o = some view;
            b' = b';
            h' = h';
            gives = eq;
            frame =
                ap (λ m. m >>= λ xs. some (xs ∷ [])) (load-content r.holds ∙ ap some r.bytes_viewed)
                ∙ ap some (sym (if_then _ _ e));
            holds = s;
            remains = t ∙ sym (if_then _ _ e);
            live = l;
          }
      | inr e ↦ record {
        o = none;
        b' = b;
        h' = h;
        gives =
            decode_no_frame d v known no_wrap
              (λ f. absurd (cc (e, HasFrame-starts d (content b bytes) f)));
        frame = ap some (sym (if_else _ _ e));
        holds = v;
        remains = sym (if_else _ _ e);
        live = (n, counted);
      }
    ]

-- Whatever pieces a stream arrives in, and wherever in between frames are decoded, the frames are those
-- of the stream by its description, in their order and byte for byte, no access is a fault, and the
-- buffer meets its invariant and holds what the description leaves. The length field has 1, 2, 4 or 8
-- bytes, the buffer meets its invariant and its count is live, and no sum of `size_t` wraps.
pub receive-frames :
    (d : FrameDecoder) (es : List Event) (n : ℕ) {b : Buffer} {h : Heap} {bytes : List ℕ}
    → known_width d.length_field_length ≡ true
    → Holds b h bytes
    → Counted b h n
    → NoWrap d es (content b bytes)
    → Roomy d es b h
    → Received d es b h (content b bytes)
unfolding receive frames left NoWrap Roomy
receive-frames d [] n {b} {h} {bytes} known v c ok fits = record {
  b' = b;
  h' = h;
  bytes' = bytes;
  gives = refl;
  holds = v;
  remains = refl;
}
receive-frames d (arrives xs ∷ es) n {b} {h} known v c ok fits =
    let (b', h', bytes', e, r) = read_fd-content v xs n c fits.0 in
    let w =
      receive-frames d es r.live.0 known r.holds r.live.1 (subst (NoWrap d es) (sym r.appended) ok)
        (subst (λ m. After m (λ s. Roomy d es s.0 s.1)) e fits.1) in
    record {
      b' = w.b';
      h' = w.h';
      bytes' = w.bytes';
      gives =
          ap (λ m. m >>= λ s. receive d es s.0 s.1) e
          ∙ w.gives
          ∙ ap (λ k. some (frames d es k, w.b', w.h')) r.appended;
      holds = w.holds;
      remains = w.remains ∙ ap (left d es) r.appended;
    }
receive-frames d (decodes ∷ es) n {b} {h} {bytes} known v c ok fits =
    let r = decode-Decoded d n v c known ok.0 in
    let w =
      receive-frames d es r.live.0 known r.holds r.live.1 (subst (NoWrap d es) (sym r.remains) ok.1)
        (subst (λ m. After m (λ s. Roomy d es s.1 s.2)) r.gives fits) in
    record {
      b' = w.b';
      h' = w.h';
      bytes' = w.bytes';
      gives =
          ap
            (λ m.
              m >>= λ s. frame_bytes s.0 s.2 >>= λ fs. receive d es s.1 s.2 >>= behind_frames fs)
            r.gives
          ∙ ap (λ m. m >>= λ fs. receive d es r.b' r.h' >>= behind_frames fs) r.frame
          ∙ ap (λ m. m >>= behind_frames (front d (content b bytes))) w.gives
          ∙ ap (λ k. some (front d (content b bytes) ++ frames d es k, w.b', w.h')) r.remains;
      holds = w.holds;
      remains = w.remains ∙ ap (left d es) r.remains;
    }
