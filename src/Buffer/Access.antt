-- ===== src/Buffer/Access.antt =====
-- Reads and writes that lie within a block of src/base/Buffer.cpp.
use protobase.Common.{
  ℕ, ◌+◌, ◌-◌, ◌≤◌, ◌≡◌, ap, ◌∙◌, some, List, arith, length, take, drop, splice, take-drop, le→leb,
}
use protobase.Memory.{Heap, update, load, store}
use protobase.Buffer.{Buffer, readable_bytes}
use protobase.Buffer.Valid.{Holds, content, readable-eq}

-- A read within a block.
pub load-fits :
    (p off n : ℕ) (bytes : List ℕ) (h : Heap)
    → h.block p ≡ some bytes
    → off + n ≤ length bytes
    → load p off n h ≡ some (take n (drop off bytes))
unfolding load
load-fits p off n bytes h e fits = rw (e, le→leb (off + n) (length bytes) fits)

-- Reading the readable bytes gives the content, in any heap that has the buffer's block.
pub load-content_at :
    {b : Buffer} {h : Heap} {bytes : List ℕ} (h' : Heap)
    → Holds b h bytes
    → h'.block b.buffer ≡ some bytes
    → load b.buffer b.read_index (b.write_index - b.read_index) h' ≡ some (content b bytes)
load-content_at {b} {h} {bytes} h' v e =
    load-fits b.buffer b.read_index n bytes h' e (omega (arith, v.order, v.room, v.size))
    ∙ ap some (take-drop n b.read_index b.write_index bytes (omega (arith, v.order)))
  where
    n : ℕ
    n = b.write_index - b.read_index

pub load-content :
    {b : Buffer} {h : Heap} {bytes : List ℕ}
    → Holds b h bytes
    → load b.buffer b.read_index (readable_bytes b) h ≡ some (content b bytes)
load-content {h = h} v = rw (readable-eq v) (load-content_at h v v.block)

-- A write that fits.
pub store-fits :
    (p off : ℕ) (xs bytes : List ℕ) (h : Heap)
    → h.block p ≡ some bytes
    → off + length xs ≤ length bytes
    → store p off xs h ≡ some (record h { block = update h.block p (some (splice off xs bytes)) })
unfolding store
store-fits p off xs bytes h e fits = rw (e, le→leb (off + length xs) (length bytes) fits)
