-- ===== src/Buffer/Release.antt =====
-- What giving up a share does to the heap.
use protobase.Common.{ℕ, ◌-◌, ◌<◌, ◌≡◌, ◌≢◌, none, some, List, arith, if◌then◌else◌, ◌==◌}
use protobase.Memory.{Heap, update, delete_block, delete_count, sub_ref}
use protobase.Buffer.{Buffer, release}

-- The heap after `n` shares have become one fewer.
abbrev pub released : Buffer → ℕ → Heap → Heap
released b n h =
    if n == 1
    then record h { block = update h.block b.buffer none; count = update h.count b.ref_count none }
    else record h { count = update h.count b.ref_count (some (n - 1)) }

pub release-eq :
    (b : Buffer) (h : Heap) (n : ℕ) (bytes : List ℕ)
    → 0 < b.buffer
    → h.block b.buffer ≡ some bytes
    → h.count b.ref_count ≡ some n
    → release b h ≡ some (released b n h)
unfolding release delete_block delete_count sub_ref
release-eq b h n bytes nn e c = ground arith

-- A block other than the buffer's own is left alone.
pub block-released :
    (b : Buffer) (n : ℕ) (h : Heap) (p : ℕ) → p ≢ b.buffer → (released b n h).block p ≡ h.block p
block-released b n h p ne = ground arith

pub count-released :
    (b : Buffer) (n : ℕ) (h : Heap) (p : ℕ) → p ≢ b.ref_count → (released b n h).count p ≡ h.count p
count-released b n h p ne = ground arith

pub next-released : (b : Buffer) (n : ℕ) (h : Heap) → (released b n h).next ≡ h.next
next-released b n h = ground arith
