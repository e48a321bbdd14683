-- ===== src/Buffer/Valid.antt =====
-- The invariant of a buffer in use, and the bytes that it holds.
use protobase.Common.{
  ℕ, ◌-◌, ◌≤◌, ◌<◌, ◌≡◌, ◌∙◌, ap, some, List, arith, length, take, drop, size_max, sub_size,
  length-take, length-drop,
}
use protobase.Memory.{Heap}
use protobase.Buffer.{Buffer, readable_bytes, writable_bytes}

-- `b` is a buffer over the live block `bytes`: 8 ≤ read ≤ write ≤ capacity = the block's size.
pub record Holds (b : Buffer) (h : Heap) (bytes : List ℕ) : Type 0 where
  pub front : 8 ≤ b.read_index
  pub order : b.read_index ≤ b.write_index
  pub room : b.write_index ≤ b.capacity
  pub small : b.capacity < size_max
  pub not_null : 0 < b.buffer
  pub allocated : b.buffer < h.next
  pub block : h.block b.buffer ≡ some bytes
  pub size : length bytes ≡ b.capacity

-- The count that `b` shares is live, and stands at `n`.
pub record Counted (b : Buffer) (h : Heap) (n : ℕ) : Type 0 where
  pub positive : 0 < n
  pub not_null : 0 < b.ref_count
  pub allocated : b.ref_count < h.next
  pub count : h.count b.ref_count ≡ some n

-- The count of `b` is live.
abbrev pub Live : Buffer → Heap → Type 0
Live b h = (n : ℕ) × Counted b h n

-- A step that leaves the count and only allocates.
pub keep_Live :
    {b : Buffer} {h : Heap} {n : ℕ} (b' : Buffer) (h' : Heap)
    → Counted b h n
    → b'.ref_count ≡ b.ref_count
    → h.next ≤ h'.next
    → h'.count b.ref_count ≡ h.count b.ref_count
    → Live b' h'
keep_Live {n} b' h' c e le same = (
  n,
  record {
    positive = c.positive;
    not_null = omega (arith, e, c.not_null);
    allocated = omega (arith, e, le, c.allocated);
    count = ap h'.count e ∙ same ∙ c.count;
  },
)

-- The readable bytes.
abbrev pub content : Buffer → List ℕ → List ℕ
content b bytes = drop b.read_index (take b.write_index bytes)

module _ {b : Buffer} {h : Heap} {bytes : List ℕ} (v : Holds b h bytes) where
  pub readable-eq : readable_bytes b ≡ b.write_index - b.read_index
  unfolding readable_bytes sub_size
  readable-eq = omega arith

  pub writable-eq : writable_bytes b ≡ b.capacity - b.write_index
  unfolding writable_bytes sub_size
  writable-eq = omega arith

  pub length-content : length (content b bytes) ≡ b.write_index - b.read_index
  length-content =
      omega (
        arith,
        length-drop b.read_index (take b.write_index bytes),
        length-take b.write_index bytes,
      )
