-- ===== src/Decoder/Stream/Messages.antt =====
-- A stream of messages, each of them one frame.
use protobase.Common.{
  ℕ, zero, suc, ◌+◌, ◌≤◌, ◌<◌, ◌≡◌, ◌∙◌, refl, sym, ap, inl, inr, true, false, List, [], ◌∷◌, ◌++◌,
  if_then, if_else, Bool-cases, arith, length, take, drop, append_assoc, length-append, length-drop,
  drop-append, take-append, drop-append_eq, take-append_within, take-append-drop,
}
use native.Mathlib.Decide.{dec_le}
use protobase.Buffer.Read.{number_le}
use protobase.Decoder.{FrameDecoder, known_width}
use protobase.Decoder.Frames.{announced, frame_size, HasFrame}
use protobase.Decoder.Stream.{Event, arrives, decodes, starts, front, rest, frames, left}
use protobase.Decoder.Stream.Refine.{starts-HasFrame, HasFrame-starts}

-- A message is a frame of its own: its length is the one that it announces, within the limit.
pub record IsMessage (d : FrameDecoder) (m : List ℕ) : Type 0 where
  pub header : d.length_field_length + d.length_field_offset ≤ length m
  pub exact : frame_size d m ≡ length m
  pub limit : length m ≤ d.max_frame_length

abbrev pub AllMessages : FrameDecoder → List (List ℕ) → Type 0
AllMessages d [] = Unit {0}
AllMessages d (m ∷ ms) = IsMessage d m × AllMessages d ms

abbrev pub flatten : List (List ℕ) → List ℕ
flatten [] = []
flatten (m ∷ ms) = m ++ flatten ms

-- The bytes that are to arrive.
abbrev pub arriving : List Event → List ℕ
arriving [] = []
arriving (arrives xs ∷ es) = xs ++ arriving es
arriving (decodes ∷ es) = arriving es

-- What comes behind a whole header does not change the size.
pub size-append :
    (d : FrameDecoder) (c ys : List ℕ)
    → d.length_field_length + d.length_field_offset ≤ length c
    → frame_size d (c ++ ys) ≡ frame_size d c
unfolding frame_size announced
size-append d c ys header =
    ap (λ k. d.length_field_offset + d.length_field_length + number_le k + d.length_adjustment)
      (ap (take d.length_field_length) (drop-append d.length_field_offset c ys (omega arith))
        ∙ take-append_within d.length_field_length (drop d.length_field_offset c) ys
            (omega (arith, length-drop d.length_field_offset c)))

number_take : (n : ℕ) (xs ys : List ℕ) → number_le (take n xs) ≤ number_le (take n (xs ++ ys))
unfolding number_le
number_take zero xs ys = omega arith
number_take (suc n) [] ys = omega arith
number_take (suc n) (x ∷ xs) ys = omega (arith, number_take n xs ys)

drop_prefix : (n : ℕ) (xs ys : List ℕ) → (zs : List ℕ) × (drop n (xs ++ ys) ≡ drop n xs ++ zs)
drop_prefix zero xs ys = (ys, refl)
drop_prefix (suc n) [] ys = (drop (suc n) ys, refl)
drop_prefix (suc n) (x ∷ xs) ys = drop_prefix n xs ys

-- And a part of a stream announces no more than the whole.
pub size_part : (d : FrameDecoder) (c ys : List ℕ) → frame_size d c ≤ frame_size d (c ++ ys)
unfolding frame_size announced
size_part d c ys =
    let (zs, e) = drop_prefix d.length_field_offset c ys in
    omega (
      arith,
      number_take d.length_field_length (drop d.length_field_offset c) zs,
      ap (λ k. number_le (take d.length_field_length k)) e,
    )

not_started : (d : FrameDecoder) (c : List ℕ) → ¬ HasFrame d c → starts d c ≡ false
not_started d c missing = elim (Bool-cases (starts d c)) [
  | inl e ↦ absurd (missing (starts-HasFrame d c e))
  | inr e ↦ e
]

pub no_front : (d : FrameDecoder) (c : List ℕ) → ¬ HasFrame d c → (front d c ≡ []) × (rest d c ≡ c)
unfolding front rest
no_front d c missing =
    (if_else _ _ (not_started d c missing), if_else _ _ (not_started d c missing))

-- A message that is wholly there is the next frame.
pub front_message :
    (d : FrameDecoder) (c later m tail : List ℕ)
    → IsMessage d m
    → c ++ later ≡ m ++ tail
    → length m ≤ length c
    → (front d c ≡ m ∷ []) × (rest d c ++ later ≡ tail)
unfolding front rest
front_message d c later m tail message e there = (
  if_then _ _ started ∙ ap (λ n. take n c ∷ []) size ∙ ap (λ k. k ∷ []) first,
  ap (λ k. k ++ later) (if_then _ _ started ∙ ap (λ n. drop n c) size)
      ∙ sym (drop-append (length m) c later there)
      ∙ ap (drop (length m)) e
      ∙ drop-append_eq (length m) m tail refl,
)
  where
    first : take (length m) c ≡ m
    first =
        sym (take-append_within (length m) c later there)
        ∙ ap (take (length m)) e
        ∙ take-append (length m) m tail refl

    size : frame_size d c ≡ length m
    size =
        ap (frame_size d)
          (sym (take-append-drop (length m) c) ∙ ap (λ k. k ++ drop (length m) c) first)
        ∙ size-append d m (drop (length m) c) message.header
        ∙ message.exact

    started : starts d c ≡ true
    started = HasFrame-starts d c (record {
      header = omega (arith, message.header);
      limit = omega (arith, size, message.limit);
      whole = omega (arith, size);
    })

pub arrives_one : (c xs ys later : List ℕ) → (c ++ xs) ++ (ys ++ later) ≡ c ++ ((xs ++ ys) ++ later)
arrives_one c xs ys later =
    append_assoc c xs (ys ++ later) ∙ ap (λ k. c ++ k) (sym (append_assoc xs ys later))

pub known_wide : (w : ℕ) → known_width w ≡ true → 0 < w
unfolding known_width
known_wide zero known = absurd cc
known_wide (suc w) known = omega arith

module _ (d : FrameDecoder) (wide : 0 < d.length_field_length) where
  -- What one call of `decode` makes of a stream of messages that is partly there.
  pub record Stepped (c later : List ℕ) (ms : List (List ℕ)) : Type 0 where
    pub now : List (List ℕ)
    pub behind : List (List ℕ)
    pub split : ms ≡ now ++ behind
    pub gives : front d c ≡ now
    pub leaves : rest d c ++ later ≡ flatten behind
    pub all : AllMessages d behind

  waits :
      (c later : List ℕ) (ms : List (List ℕ))
      → AllMessages d ms
      → c ++ later ≡ flatten ms
      → ¬ HasFrame d c
      → Stepped c later ms
  waits c later ms all e missing =
      let (f, r) = no_front d c missing in
      record {
        now = [];
        behind = ms;
        split = refl;
        gives = f;
        leaves = ap (λ k. k ++ later) r ∙ e;
        all = all;
      }

  pub step-Stepped :
      (c later : List ℕ) (ms : List (List ℕ))
      → AllMessages d ms
      → c ++ later ≡ flatten ms
      → Stepped c later ms
  step-Stepped c later [] all e =
      waits c later [] all e (λ f. omega (arith, f.header, ap length e, length-append c later))
  step-Stepped c later (m ∷ ms) all e = elim (dec_le (length m) (length c)) [
    | yes there ↦
        let (f, r) = front_message d c later m (flatten ms) all.0 e there in
        record { now = m ∷ []; behind = ms; split = refl; gives = f; leaves = r; all = all.1 }
    | no partial ↦ waits c later (m ∷ ms) all e (λ f. omega (
      arith,
      f.header,
      f.whole,
      partial,
      all.0.exact,
      size-append d c later f.header,
      ap (frame_size d) e,
      size-append d m (flatten ms) all.0.header,
    ))
  ]

  -- The frames are the first messages, in order, and what is left, followed by what is still to come
  -- when the events are over, are the others.
  pub frames_split :
      (es : List Event) (c later : List ℕ) (ms : List (List ℕ))
      → AllMessages d ms
      → c ++ (arriving es ++ later) ≡ flatten ms
      → (behind : List (List ℕ)) × (ms ≡ frames d es c ++ behind)
        × (left d es c ++ later ≡ flatten behind)
        × AllMessages d behind
  unfolding frames left
  frames_split [] c later ms all e = (ms, refl, e, all)
  frames_split (arrives xs ∷ es) c later ms all e =
      frames_split es (c ++ xs) later ms all (arrives_one c xs (arriving es) later ∙ e)
  frames_split (decodes ∷ es) c later ms all e =
      let s = step-Stepped c (arriving es ++ later) ms all e in
      let (behind, f, g, a) = frames_split es (rest d c) later s.behind s.all s.leaves in
      (
        behind,
        s.split
            ∙ ap (λ k. k ++ s.behind) (sym s.gives)
            ∙ ap (λ k. front d c ++ k) f
            ∙ sym (append_assoc (front d c) (frames d es (rest d c)) behind),
        g,
        a,
      )
