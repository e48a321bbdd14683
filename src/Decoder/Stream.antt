-- ===== src/Decoder/Stream.antt =====
-- src/codecs/LengthFieldBasedFrameDecoder.cpp on a buffer that src/base/Buffer.cpp fills from a socket: a
-- stream that arrives in pieces, and is decoded in between. A caller keeps of each frame its bytes.
pub mod Refine
pub mod Messages
pub mod Delivery
use protobase.Common.{
  ℕ, ◌+◌, ◌*◌, ◌<◌, ◌≤◌, ◌≡◌, Bool, true, false, ◌&&◌, Option, none, some, List, [], ◌∷◌, ◌++◌,
  if◌then◌else◌, ◌>>=◌, leb, length, take, drop, size_max,
}
use protobase.Memory.{Heap, load}
use protobase.Buffer.{Buffer, readable_bytes}
use protobase.Buffer.Fd.{received, read_fd}
use protobase.Decoder.{FrameDecoder, decode}
use protobase.Decoder.Frames.{frame_size}

pub data Event : Type 0 where
  arrives : List ℕ → Event
  decodes : Event

-- The bytes of what `decode` gave.
unfoldable pub frame_bytes : Option Buffer → Heap → Option (List (List ℕ))
unfolding load
frame_bytes none h = some []
frame_bytes (some view) h =
    load view.buffer view.read_index (readable_bytes view) h >>= λ xs. some (xs ∷ [])

abbrev pub behind_frames :
    List (List ℕ) → List (List ℕ) × Buffer × Heap → Option (List (List ℕ) × Buffer × Heap)
behind_frames fs (gs, b, h) = some (fs ++ gs, b, h)

-- The frames that come of events, and what they leave.
unfoldable pub receive :
    FrameDecoder → List Event → Buffer → Heap → Option (List (List ℕ) × Buffer × Heap)
unfolding read_fd decode frame_bytes
receive d [] b h = some ([], b, h)
receive d (arrives xs ∷ es) b h = read_fd (received xs) b h >>= λ r. receive d es r.0 r.1
receive d (decodes ∷ es) b h =
    decode d b h >>= λ r. frame_bytes r.0 r.2 >>= λ fs. receive d es r.1 r.2 >>= behind_frames fs

-- The description: of a stream `c`, without indices, heaps or word sizes.
unfoldable pub starts : FrameDecoder → List ℕ → Bool
starts d c =
    leb (d.length_field_length + d.length_field_offset) (length c)
    && (leb (frame_size d c) d.max_frame_length && leb (frame_size d c) (length c))

unfoldable pub front : FrameDecoder → List ℕ → List (List ℕ)
front d c = if starts d c then take (frame_size d c) c ∷ [] else []

unfoldable pub rest : FrameDecoder → List ℕ → List ℕ
rest d c = if starts d c then drop (frame_size d c) c else c

unfoldable pub frames : FrameDecoder → List Event → List ℕ → List (List ℕ)
unfolding front rest
frames d [] c = []
frames d (arrives xs ∷ es) c = frames d es (c ++ xs)
frames d (decodes ∷ es) c = front d c ++ frames d es (rest d c)

unfoldable pub left : FrameDecoder → List Event → List ℕ → List ℕ
unfolding rest
left d [] c = c
left d (arrives xs ∷ es) c = left d es (c ++ xs)
left d (decodes ∷ es) c = left d es (rest d c)

-- No size that is announced where a frame is decoded makes the sum of the sizes wrap.
unfoldable pub NoWrap : FrameDecoder → List Event → List ℕ → Type 0
unfolding rest
NoWrap d [] c = Unit {0}
NoWrap d (arrives xs ∷ es) c = NoWrap d es (c ++ xs)
NoWrap d (decodes ∷ es) c = (frame_size d c < size_max) × NoWrap d es (rest d c)

abbrev pub After {ℓ} : {A : Type ℓ} → Option A → (A → Type 0) → Type 0
After none P = Unit {0}
After (some a) P = P a

-- Wherever bytes arrive, the capacity is small enough for no sum of `size_t` to wrap.
unfoldable pub Roomy : FrameDecoder → List Event → Buffer → Heap → Type 0
unfolding read_fd decode
Roomy d [] b h = Unit {0}
Roomy d (arrives xs ∷ es) b h =
    (b.capacity * 2 + length xs < size_max)
    × After (read_fd (received xs) b h) (λ r. Roomy d es r.0 r.1)
Roomy d (decodes ∷ es) b h = After (decode d b h) (λ r. Roomy d es r.1 r.2)
