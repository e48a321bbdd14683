-- ===== src/Buffer/Sharing.antt =====
-- Several buffers over one block: when it is freed, and who sees whose writes.
use protobase.Common.{
  ℕ, suc, ◌+◌, ◌-◌, ◌≤◌, ◌<◌, ◌≡◌, ◌∙◌, ap, none, some, Option, List, [], ◌∷◌, arith, length, take,
  drop, splice, ◌>>=◌, ◌==◌, if◌then◌else◌, add_size-eq, le→ltb_false, take-splice_before,
  take-splice_within, drop-splice, length-splice,
}
use protobase.Memory.{Heap}
use protobase.Buffer.{Buffer, destroy}
use protobase.Buffer.Release.{released, release-eq}
use protobase.Buffer.Space.{append, ensure_writeable_bytes}
use protobase.Buffer.Append.{write-eq, written, advanced}
use protobase.Buffer.Valid.{Holds, content, writable-eq}

-- Buffers over the block at `p`, counted at `r`.
abbrev pub Share : ℕ → ℕ → List Buffer → Type 0
Share p r [] = Unit {0}
Share p r (b ∷ bs) = (b.buffer ≡ p) × (b.ref_count ≡ r) × Share p r bs

-- The destructors of several buffers, one after another.
unfoldable pub destroy_all : List Buffer → Heap → Option Heap
unfolding destroy
destroy_all [] h = some h
destroy_all (b ∷ bs) h = destroy b h >>= destroy_all bs

destroy-eq :
    (b : Buffer) (h : Heap) (n : ℕ) (bytes : List ℕ)
    → 0 < b.buffer
    → 0 < b.ref_count
    → h.block b.buffer ≡ some bytes
    → h.count b.ref_count ≡ some n
    → destroy b h ≡ some (released b n h)
unfolding destroy
destroy-eq b h n bytes p q e c = ground (arith, release-eq b h n bytes)

-- One or more buffers over a live block are destroyed while `k` more share it, and the count is
-- their total. The destructors run without a fault, and in the end the block is freed and its
-- count deleted when `k` is 0; otherwise the block is untouched and the count stands at `k`.
pub destroy_all-block :
    (p r k : ℕ) (bs : List Buffer) (h : Heap) (bytes : List ℕ)
    → 0 < p
    → 0 < r
    → Share p r bs
    → h.block p ≡ some bytes
    → h.count r ≡ some (length bs + k)
    → 0 < length bs
    → (h' : Heap) × (destroy_all bs h ≡ some h')
      × (h'.block p ≡ (if k == 0 then none else some bytes))
      × (h'.count r ≡ (if k == 0 then none else some k))
unfolding destroy_all
destroy_all-block p r k [] h bytes hp hr s e c pos = absurd (omega arith)
destroy_all-block p r k (b ∷ []) h bytes hp hr s e c pos =
    (released b (1 + k) h, ground (arith, destroy-eq b h (1 + k) bytes), ground arith, ground arith)
destroy_all-block p r k (b ∷ (b₂ ∷ bs)) h bytes hp hr s e c pos =
    let (h', q, t, u) =
      destroy_all-block p r k (b₂ ∷ bs) (released b (suc (suc (length bs)) + k) h) bytes hp hr (s.2)
        (ground arith) (ground arith) (omega arith) in
    (h', rw (first, destroy_all) q, t, u)
  where
    first : destroy b h ≡ some (released b (suc (suc (length bs)) + k) h)
    first = ground (arith, destroy-eq b h (suc (suc (length bs)) + k) bytes)

-- Appends in place, where there is room behind the write index.
module _ {b : Buffer} {h : Heap} {bytes : List ℕ} (v : Holds b h bytes) (xs : List ℕ)
    (fits : length xs ≤ b.capacity - b.write_index) where
  append_in_place : append xs b h ≡ some (advanced v xs, written v xs)
  unfolding append ensure_writeable_bytes
  append_in_place = rw (
    writable-eq v,
    le→ltb_false (b.capacity - b.write_index) (length xs) fits,
    write-eq v xs fits,
    add_size-eq b.write_index (length xs) (omega (arith, v.room, v.small)),
  )

  other-Holds :
      (other : Buffer)
      → Holds other h bytes
      → other.buffer ≡ b.buffer
      → Holds other (written v xs) (splice b.write_index xs bytes)
  other-Holds other w same = record {
    front = w.front;
    order = w.order;
    room = w.room;
    small = w.small;
    not_null = w.not_null;
    allocated = w.allocated;
    block = ground arith;
    size = omega (arith, length-splice b.write_index xs bytes, w.size);
  }

  -- An append for which there is room writes in place, also through a view. Another buffer over
  -- the block whose bytes end where the write begins, or before, keeps its content.
  pub append_keeps_before :
      (other : Buffer)
      → Holds other h bytes
      → other.buffer ≡ b.buffer
      → other.write_index ≤ b.write_index
      → (b' : Buffer) × (h' : Heap) × (bytes' : List ℕ) × (append xs b h ≡ some (b', h'))
        × Holds other h' bytes'
        × (content other bytes' ≡ content other bytes)
  append_keeps_before other w same before = (
    advanced v xs,
    written v xs,
    splice b.write_index xs bytes,
    append_in_place,
    other-Holds other w same,
    ap (drop other.read_index) (take-splice_before other.write_index b.write_index xs bytes before),
  )

  -- An append for which there is room behind the write index overwrites the readable bytes of
  -- another buffer over the block that lie where it writes: the code does not copy on write. The
  -- write begins `k` bytes into the other buffer's content and ends inside it.
  pub append_clobbers :
      (other : Buffer) (k : ℕ)
      → Holds other h bytes
      → other.buffer ≡ b.buffer
      → b.write_index ≡ other.read_index + k
      → b.write_index + length xs ≤ other.write_index
      → (b' : Buffer) × (h' : Heap) × (bytes' : List ℕ) × (append xs b h ≡ some (b', h'))
        × Holds other h' bytes'
        × (content other bytes' ≡ splice k xs (content other bytes))
  append_clobbers other k w same start inside = (
    advanced v xs,
    written v xs,
    splice b.write_index xs bytes,
    append_in_place,
    other-Holds other w same,
    ap (drop other.read_index) (take-splice_within other.write_index b.write_index xs bytes inside)
        ∙ drop-splice other.read_index k b.write_index xs (take other.write_index bytes) start,
  )
