-- ===== src/Buffer.antt =====
-- src/base/Buffer.h and src/base/Buffer.cpp: the object, its constructors and the shared ownership of its
-- block. A method takes the object (and the heap) and returns the object that it leaves, beside its
-- result. The children hold the methods that move bytes, and the proofs.
pub mod Space
pub mod Read
pub mod Slice
pub mod Fd
pub mod Valid
pub mod Release
pub mod Access
pub mod Room
pub mod Ensure
pub mod Append
pub mod Consume
pub mod Views
pub mod Endian
pub mod Input
pub mod Sharing
pub mod Growth
use protobase.Common.{
  ℕ, suc, ◌+◌, ◌-◌, Option, none, some, Bool, true, false, if◌then◌else◌, ◌==◌, ltb, ◌>>=◌,
  add_size, sub_size,
}
use protobase.Memory.{Heap, new_block, new_count, delete_block, delete_count, add_ref, sub_ref}

abbrev pub prepend_size : ℕ
prepend_size = 8

abbrev pub initial_size : ℕ
initial_size = 1450

pub record Buffer : Type 0 where
  pub buffer : ℕ
  pub read_index : ℕ
  pub write_index : ℕ
  pub capacity : ℕ
  pub ref_count : ℕ
  pub own_memory : Bool

-- `Buffer(size_t initialSize)`
unfoldable pub create : ℕ → Heap → Buffer × Heap
unfolding new_block new_count
create initial_size h =
    let h' = new_block (add_size prepend_size initial_size) h in
    (
      record {
        buffer = h.next;
        read_index = prepend_size;
        write_index = prepend_size;
        capacity = add_size prepend_size initial_size;
        ref_count = h'.next;
        own_memory = true;
      },
      new_count h',
    )

-- `Buffer(buffer, capacity, readIndex, writeIndex, refCount)`: a view of a block in use.
unfoldable pub view_of : ℕ → ℕ → ℕ → ℕ → ℕ → Heap → Option (Buffer × Heap)
unfolding add_ref
view_of buffer capacity read_index write_index ref_count h = add_ref ref_count h >>= λ h'. some (
  record {
    buffer = buffer;
    read_index = read_index;
    write_index = write_index;
    capacity = capacity;
    ref_count = ref_count;
    own_memory = false;
  },
  h',
)

-- `if (fetch_sub(1) == 1) { delete[] m_buffer; delete m_refCount; }`
unfoldable pub release : Buffer → Heap → Option Heap
unfolding delete_block delete_count sub_ref
release b h = h.count b.ref_count >>= λ n.
    if n == 1 then delete_block b.buffer h >>= delete_count b.ref_count else sub_ref b.ref_count h

-- The guard `if (m_refCount)` before it.
unfoldable pub release_if_held : Buffer → Heap → Option Heap
unfolding release
release_if_held b h = if b.ref_count == 0 then some h else release b h

-- `~Buffer()`; the object is gone afterwards.
unfoldable pub destroy : Buffer → Heap → Option Heap
unfolding release_if_held
destroy b h = release_if_held b h

-- `Buffer(const Buffer& other)`
unfoldable pub copy : Buffer → Heap → Option (Buffer × Heap)
unfolding add_ref
copy other h = add_ref other.ref_count h >>= λ h'. some (record other { own_memory = false }, h')

-- `operator=(const Buffer& other)` at an object other than `other`
unfoldable pub assign : Buffer → Buffer → Heap → Option (Buffer × Heap)
unfolding release_if_held add_ref
assign this other h = release_if_held this h >>= λ h'.
    add_ref other.ref_count h' >>= λ h''. some (record other { own_memory = false }, h'')

-- What a move leaves in its source; `m_ownMemory` stays.
unfoldable pub moved_from : Buffer → Buffer
moved_from other = record other {
  buffer = 0;
  capacity = 0;
  read_index = prepend_size;
  write_index = prepend_size;
  ref_count = 0;
}

-- `Buffer(Buffer&& other)`: the new object, and the source as it is left.
unfoldable pub move : Buffer → Buffer × Buffer
unfolding moved_from
move other = (other, moved_from other)

-- `operator=(Buffer&& other)` at an object other than `other`
unfoldable pub move_assign : Buffer → Buffer → Heap → Option (Buffer × Buffer × Heap)
unfolding release_if_held moved_from
move_assign this other h = release_if_held this h >>= λ h'. some (other, moved_from other, h')

-- `swap`: the reference counts and the ownership flags stay behind.
unfoldable pub swap : Buffer → Buffer → Buffer × Buffer
swap this other = (
  record this {
    buffer = other.buffer;
    capacity = other.capacity;
    read_index = other.read_index;
    write_index = other.write_index;
  },
  record other {
    buffer = this.buffer;
    capacity = this.capacity;
    read_index = this.read_index;
    write_index = this.write_index;
  },
)

unfoldable pub readable_bytes : Buffer → ℕ
readable_bytes b = sub_size b.write_index b.read_index

unfoldable pub writable_bytes : Buffer → ℕ
writable_bytes b = sub_size b.capacity b.write_index

unfoldable pub prependable_bytes : Buffer → ℕ
prependable_bytes b = b.read_index

unfoldable pub reset : Buffer → Buffer
reset b = record b { read_index = prepend_size; write_index = prepend_size }

unfoldable pub read_all : Buffer → Buffer
read_all b = record b { read_index = prepend_size; write_index = prepend_size }

unfoldable pub skip : ℕ → Buffer → Buffer
unfolding read_all
skip len b =
    if ltb len (readable_bytes b)
    then record b { read_index = add_size b.read_index len }
    else read_all b

unfoldable pub write_n : ℕ → Buffer → Buffer
write_n len b = record b { write_index = add_size b.write_index len }
