-- ===== src/Buffer/Growth.antt =====
-- Growing the block of an owner that others share.
use protobase.Common.{
  ℕ, ◌+◌, ◌-◌, ◌*◌, ◌≤◌, ◌<◌, ◌≡◌, ◌∙◌, refl, none, some, true, List, arith, length, ltb, size_max,
  add_size, add_size-eq, lt→ltb, if_then, replicate, length-replicate, length-splice, splice,
}
use protobase.Memory.{Heap, update, load}
use protobase.Buffer.{Buffer, writable_bytes, prependable_bytes}
use protobase.Buffer.Space.{append, ensure_writeable_bytes, make_space}
use protobase.Buffer.Read.{peek}
use protobase.Buffer.Access.{store-fits}
use protobase.Buffer.Room.{grow-eq, grown, grown_heap}
use protobase.Buffer.Valid.{Holds, content, writable-eq, length-content}

module _ (xs : List ℕ) {b : Buffer} {h : Heap} {bytes : List ℕ} (v : Holds b h bytes)
    (small : b.capacity * 2 + length xs < size_max) (owner : b.own_memory ≡ true)
    (tight : b.capacity - b.write_index + b.read_index < length xs + 8) where
  ensure-grown :
      ensure_writeable_bytes (length xs) b h
      ≡ some (grown (length xs) v small, grown_heap (length xs) v small)
  unfolding ensure_writeable_bytes make_space prependable_bytes
  ensure-grown =
      if_then _ _ wanting ∙ if_then _ _ owner ∙ if_then _ _ no_slide ∙ grow-eq (length xs) v small
    where
      wanting : ltb (writable_bytes b) (length xs) ≡ true
      wanting =
          rw (writable-eq v)
            (lt→ltb (b.capacity - b.write_index) (length xs) (omega (arith, tight, v.front)))

      no_slide : ltb (add_size (writable_bytes b) b.read_index) (add_size (length xs) 8) ≡ true
      no_slide =
          rw
            (
              writable-eq v,
              add_size-eq (b.capacity - b.write_index) b.read_index
                  (omega (arith, v.order, v.room, v.small)),
              add_size-eq (length xs) 8 (omega (arith, v.front, v.order, v.room)),
            )
            (lt→ltb (b.capacity - b.write_index + b.read_index) (length xs + 8) tight)

  -- An owner, under the invariant and with no sum that wraps, whose block is too small for an
  -- append, even with the bytes before the read index, takes a new block and deletes the old one,
  -- whatever its count says, and no count changes: a read of any bytes through any other buffer
  -- over the old block is then a use of freed memory.
  pub append_frees_views :
      (view : Buffer) (offset n : ℕ)
      → view.buffer ≡ b.buffer
      → (b' : Buffer) × (h' : Heap) × (append xs b h ≡ some (b', h'))
        × (h'.count ≡ h.count)
        × (peek offset n view h' ≡ none)
  unfolding append peek load
  append_frees_views view offset n same = (
    record (grown (length xs) v small) { write_index = 8 + length (content b bytes) + length xs },
    record (grown_heap (length xs) v small) {
      block =
          update (grown_heap (length xs) v small).block h.next
            (some (splice (8 + length (content b bytes)) xs stored));
    },
    rw (
      ensure-grown,
      store-fits h.next (8 + length (content b bytes)) xs stored (grown_heap (length xs) v small)
          (ground (arith, v.allocated)) inside,
      add_size-eq (8 + length (content b bytes)) (length xs)
          (omega (arith, length-content v, v.front, v.order, v.room)),
    ),
    refl,
    ground (arith, v.allocated),
  )
    where
      fresh : List ℕ
      fresh = replicate (b.capacity * 2 + length xs) h.junk

      stored : List ℕ
      stored = splice 8 (content b bytes) fresh

      inside : 8 + length (content b bytes) + length xs ≤ length stored
      inside = omega (
        arith,
        length-content v,
        v.front,
        v.order,
        v.room,
        length-splice 8 (content b bytes) fresh,
        length-replicate (b.capacity * 2 + length xs) h.junk,
      )
