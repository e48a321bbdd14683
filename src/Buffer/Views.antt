-- ===== src/Buffer/Views.antt =====
-- Views of a buffer's bytes: `slicePacket` and `slice`.
use protobase.Common.{
  ℕ, suc, ◌+◌, ◌-◌, ◌≤◌, ◌<◌, ◌^◌, ◌≡◌, ◌∙◌, refl, sym, ap, none, some, false, List, arith, take,
  drop, size_max, add_size, add_size-eq, add_size_back, sub_size_past, drop-drop, take-drop,
  take-take, le→ltb_false, lt→ltb,
}
use protobase.Memory.{Heap, update, add_ref}
use protobase.Buffer.{Buffer, readable_bytes, view_of}
use protobase.Buffer.Slice.{slice, slice_packet}
use protobase.Buffer.Valid.{Holds, Counted, Live, content, readable-eq}

module _ {b : Buffer} {h : Heap} {bytes : List ℕ} (v : Holds b h bytes) (n : ℕ)
    (c : Counted b h n) where
  abbrev view_from : ℕ → ℕ → Buffer
  view_from offset len = record b {
    read_index = b.read_index + offset;
    write_index = b.read_index + offset + len;
    own_memory = false;
  }

  abbrev shared : Heap
  shared = record h { count = update h.count b.ref_count (some (suc n)) }

  -- What a view of `len` bytes from `offset` on promises, in the heap where it is counted: it
  -- meets the invariant over the same block, holds just those bytes, and is a share more.
  pub record Views (offset len : ℕ) (view : Buffer) (h' : Heap) : Type 0 where
    pub holds : Holds view h' bytes
    pub counted : Counted view h' (suc n)
    pub bytes_viewed : content view bytes ≡ take len (drop offset (content b bytes))
    pub not_owner : view.own_memory ≡ false

  view-Views :
      (offset len : ℕ)
      → offset + len ≤ b.write_index - b.read_index
      → Views offset len (view_from offset len) shared
  view-Views offset len fits = record {
    holds = record {
      front = omega (arith, v.front);
      order = omega arith;
      room = omega (arith, v.order, v.room);
      small = v.small;
      not_null = v.not_null;
      allocated = v.allocated;
      block = v.block;
      size = v.size;
    };
    counted = record {
      positive = omega arith;
      not_null = c.not_null;
      allocated = c.allocated;
      count = ground arith;
    };
    bytes_viewed =
        ap (drop (b.read_index + offset)) (
          sym
            (take-take (b.read_index + offset + len) b.write_index bytes (omega (arith, v.order))))
        ∙ sym (
            take-drop len (b.read_index + offset) (b.read_index + offset + len)
              (take b.write_index bytes) (omega arith))
        ∙ ap (take len) (
            sym (
              drop-drop offset b.read_index (b.read_index + offset) (take b.write_index bytes)
                (omega arith)));
    not_owner = refl;
  }

  -- On a buffer that meets the invariant and whose count is live, `slice(offset, length)` inside
  -- the readable bytes gives a view of those bytes, which meets the invariant and is counted; the
  -- buffer is not touched.
  pub slice-Views :
      (offset len : ℕ)
      → offset + len ≤ b.write_index - b.read_index
      → (view : Buffer) × (h' : Heap) × (slice offset len b h ≡ some (some view, h'))
        × Views offset len view h'
        × Holds b h' bytes
  unfolding slice view_of add_ref
  slice-Views offset len fits = (
    view_from offset len,
    shared,
    rw (
      readable-eq v,
      add_size-eq offset len (omega (arith, v.room, v.small)),
      le→ltb_false (b.write_index - b.read_index) offset (omega arith),
      le→ltb_false (b.write_index - b.read_index) (offset + len) fits,
      add_size-eq b.read_index offset (omega (arith, v.order, v.room, v.small)),
      add_size-eq (b.read_index + offset) len (omega (arith, v.order, v.room, v.small)),
      c.count,
    ),
    view-Views offset len fits,
    record {
      front = v.front;
      order = v.order;
      room = v.room;
      small = v.small;
      not_null = v.not_null;
      allocated = v.allocated;
      block = v.block;
      size = v.size;
    },
  )

  -- On a buffer that meets the invariant and whose count is live, `slicePacket(length)` of at most
  -- the readable bytes gives a counted view of the first `length` of them, and leaves the buffer,
  -- under its invariant and with a live count, with the others.
  pub slice_packet-Views :
      (len : ℕ)
      → len ≤ b.write_index - b.read_index
      → (view b' : Buffer) × (h' : Heap) × (slice_packet len b h ≡ some (some view, b', h'))
        × Views 0 len view h'
        × Holds b' h' bytes
        × (content b' bytes ≡ drop len (content b bytes))
        × Live b' h'
  unfolding slice_packet view_of add_ref
  slice_packet-Views len fits = (
    view_from 0 len,
    record b { read_index = b.read_index + len },
    shared,
    rw
        (
          readable-eq v,
          le→ltb_false (b.write_index - b.read_index) len fits,
          add_size-eq b.read_index len (omega (arith, v.order, v.room, v.small)),
          c.count,
        )
        (ground arith),
    view-Views 0 len (omega arith),
    record {
      front = omega (arith, v.front);
      order = omega (arith, v.order);
      room = v.room;
      small = v.small;
      not_null = v.not_null;
      allocated = v.allocated;
      block = v.block;
      size = v.size;
    },
    sym (drop-drop len b.read_index (b.read_index + len) (take b.write_index bytes) (omega arith)),
    (
      suc n,
      record {
        positive = omega arith;
        not_null = c.not_null;
        allocated = c.allocated;
        count = ground arith;
      },
    ),
  )

  -- `slicePacket` of more than the readable bytes gives `nullptr` and changes nothing.
  pub slice_packet_short :
      (len : ℕ) → b.write_index - b.read_index < len → slice_packet len b h ≡ some (none, b, h)
  unfolding slice_packet
  slice_packet_short len short = rw (readable-eq v, lt→ltb (b.write_index - b.read_index) len short)

  -- The guard of `slice` adds two `size_t`. On a buffer that meets the invariant, with a live count
  -- and a capacity below 2^63, at any offset from 1 to the readable bytes, the length
  -- 2^64 - offset wraps round and passes, and the view claims 2^64 - offset readable bytes, more
  -- than the block has.
  pub slice_wraps :
      (offset : ℕ)
      → 0 < offset
      → offset ≤ b.write_index - b.read_index
      → b.capacity < 2 ^ 63
      → (view : Buffer) × (h' : Heap) × (slice offset (size_max - offset) b h
          ≡ some (some view, h'))
        × (readable_bytes view ≡ size_max - offset)
        × (b.capacity < readable_bytes view)
  unfolding slice view_of add_ref
  slice_wraps offset pos fits small = (
    record b { read_index = b.read_index + offset; write_index = b.read_index; own_memory = false },
    shared,
    rw (
      readable-eq v,
      le→ltb_false (b.write_index - b.read_index) offset fits,
      wrapped,
      le→ltb_false (b.write_index - b.read_index) 0 (omega arith),
      add_size-eq b.read_index offset (omega (arith, v.order, v.room, v.small)),
      back,
      c.count,
    ),
    claimed,
    omega (arith, claimed, v.order, v.room),
  )
    where
      zero_offset : offset ≡ 0 + offset
      zero_offset = omega arith

      wrapped : add_size offset (size_max - offset) ≡ 0
      wrapped =
          ap (λ k. add_size k (size_max - offset)) zero_offset
          ∙ add_size_back 0 offset (omega arith) (omega (arith, v.room, v.small))

      back : add_size (b.read_index + offset) (size_max - offset) ≡ b.read_index
      back =
          add_size_back b.read_index offset (omega (arith, v.order, v.room))
            (omega (arith, v.room, v.small))

      claimed :
          readable_bytes (record b {
            read_index = b.read_index + offset;
            write_index = b.read_index;
            own_memory = false;
          })
          ≡ size_max - offset
      claimed =
          unfold readable_bytes in
          sub_size_past b.read_index offset pos (omega (arith, v.room, v.small))
