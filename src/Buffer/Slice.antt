-- ===== src/Buffer/Slice.antt =====
-- src/base/Buffer.cpp: views of a part of the readable bytes. The inner option is the `BufferPtr`, with
-- `none` for `nullptr`; the outer one is a fault.
use protobase.Common.{ℕ, Option, none, some, ◌||◌, if◌then◌else◌, ltb, ◌>>=◌, add_size, ◌==◌}
use protobase.Common.Int.{ℤ, pos, negsuc}
use protobase.Memory.{Heap}
use protobase.Buffer.{Buffer, readable_bytes, view_of}

unfoldable pub slice : ℕ → ℕ → Buffer → Heap → Option (Option Buffer × Heap)
unfolding view_of
slice offset len b h =
    if ltb (readable_bytes b) offset || ltb (readable_bytes b) (add_size offset len)
    then some (none, h)
    else view_of b.buffer b.capacity (add_size b.read_index offset)
        (add_size (add_size b.read_index offset) len) b.ref_count h
      >>= λ (view, h'). some (some view, h')

-- `slicePacket`: the bytes leave the buffer. The second part is the object afterwards.
unfoldable pub slice_packet : ℕ → Buffer → Heap → Option (Option Buffer × Buffer × Heap)
unfolding view_of
slice_packet len b h =
    if ltb (readable_bytes b) len
    then some (none, b, h)
    else view_of b.buffer b.capacity b.read_index (add_size b.read_index len) b.ref_count h
      >>= λ (view, h'). some (some view, record b { read_index = add_size b.read_index len }, h')

-- `readBuffer(int len)`
unfoldable pub read_buffer : ℤ → Buffer → Heap → Option (Option Buffer × Buffer × Heap)
unfolding slice_packet
read_buffer (negsuc n) b h = some (none, b, h)
read_buffer (pos len) b h =
    if len == 0 || ltb (readable_bytes b) len then some (none, b, h) else slice_packet len b h
