-- ===== src/Buffer/Room.antt =====
-- Room for writing: whichever way `ensureWriteableBytes` finds it, the readable bytes are kept.
use protobase.Common.{
  ℕ, suc, ◌+◌, ◌-◌, ◌*◌, ◌≤◌, ◌<◌, ◌≡◌, refl, ap, ◌∙◌, inl, inr, none, some, List, arith, length,
  take, drop, splice, replicate, ltb, Bool-cases, size_max, add_size-eq, length-take, length-splice,
  length-replicate, take-splice, drop-append_eq,
}
use protobase.Memory.{Heap, update, new_block, delete_block}
use protobase.Buffer.{Buffer, prependable_bytes}
use protobase.Buffer.Space.{grow, slide, make_space}
use protobase.Buffer.Valid.{
  Holds, Counted, Live, keep_Live, content, readable-eq, writable-eq, length-content,
}
use protobase.Buffer.Access.{load-content, store-fits}

-- A block that starts with 8 unused bytes and then holds `xs` has them as its content.
pub content-front :
    (xs fresh : List ℕ) (w : ℕ)
    → w ≡ 8 + length xs
    → w ≤ length fresh
    → drop 8 (take w (splice 8 xs fresh)) ≡ xs
content-front xs fresh w e fits =
    ap (drop 8) (take-splice w 8 xs fresh e fits)
    ∙ drop-append_eq 8 (take 8 fresh) xs (omega (arith, length-take 8 fresh))

-- What `ensureWriteableBytes(len)` promises: room for `len` bytes, and the same content.
pub record Ensured (len : ℕ) (b b' : Buffer) (bytes : List ℕ) (h' : Heap) (bytes' : List ℕ)
    : Type 0 where
  pub holds : Holds b' h' bytes'
  pub same : content b' bytes' ≡ content b bytes
  pub fits : len ≤ b'.capacity - b'.write_index
  pub live : Live b' h'

slide-Ensured :
    (len n : ℕ) {b : Buffer} {h : Heap} {bytes : List ℕ}
    → Holds b h bytes
    → Counted b h n
    → len + 8 ≤ b.capacity - b.write_index + b.read_index
    → (b' : Buffer) × (h' : Heap) × (bytes' : List ℕ) × (slide b h ≡ some (b', h'))
      × Ensured len b b' bytes h' bytes'
unfolding slide
slide-Ensured len n {b} {h} {bytes} v c roomy = (
  record b { read_index = 8; write_index = 8 + length xs },
  record h { block = update h.block b.buffer (some (splice 8 xs bytes)) },
  splice 8 xs bytes,
  rw
      (
        load-content v,
        readable-eq v,
        store-fits b.buffer 8 xs bytes h v.block (omega (arith, length-content v)),
      )
      (ground (arith, length-content v, add_size-eq 8 (b.write_index - b.read_index))),
  record {
    holds = record {
      front = omega arith;
      order = omega arith;
      room = omega (arith, length-content v);
      small = v.small;
      not_null = v.not_null;
      allocated = v.allocated;
      block = ground arith;
      size = omega (arith, length-splice 8 xs bytes, v.size);
    };
    same = content-front xs bytes (8 + length xs) refl (omega (arith, length-content v));
    fits = omega (arith, length-content v);
    live = keep_Live _ _ c refl (omega arith) refl;
  },
)
  where
    xs : List ℕ
    xs = content b bytes

-- The object and the heap that `grow` leaves.
module _ (len : ℕ) {b : Buffer} {h : Heap} {bytes : List ℕ} (v : Holds b h bytes)
    (small : b.capacity * 2 + len < size_max) where
  abbrev pub fresh_block : List ℕ
  fresh_block = replicate (b.capacity * 2 + len) h.junk

  abbrev pub grown : Buffer
  grown = record b {
    buffer = h.next;
    read_index = 8;
    write_index = 8 + length (content b bytes);
    capacity = b.capacity * 2 + len;
  }

  abbrev pub grown_heap : Heap
  grown_heap = record h {
    next = suc h.next;
    block =
        update
          (update (update h.block h.next (some fresh_block)) h.next
            (some (splice 8 (content b bytes) fresh_block)))
          b.buffer none;
  }

  roomy : 8 + length (content b bytes) ≤ length fresh_block
  roomy = omega (
    arith,
    v.front,
    v.order,
    v.room,
    length-content v,
    length-replicate (b.capacity * 2 + len) h.junk,
  )

  pub grow-eq : grow len b h ≡ some (grown, grown_heap)
  unfolding grow new_block delete_block
  grow-eq =
      rw
        (
          load-content v,
          readable-eq v,
          add_size-eq (b.capacity * 2) len small,
          store-fits h.next 8 (content b bytes) fresh_block (new_block (b.capacity * 2 + len) h)
              (ground arith) roomy,
        )
        (ground (
          arith,
          length-content v,
          v.block,
          v.allocated,
          v.not_null,
          add_size-eq (b.write_index - b.read_index) 8,
        ))

  grow-Ensured :
      (n : ℕ)
      → Counted b h n
      → (b' : Buffer) × (h' : Heap) × (bytes' : List ℕ) × (grow len b h ≡ some (b', h'))
        × Ensured len b b' bytes h' bytes'
  grow-Ensured n c = (
    grown,
    grown_heap,
    splice 8 (content b bytes) fresh_block,
    grow-eq,
    record {
      holds = record {
        front = omega arith;
        order = omega arith;
        room = omega (arith, roomy, length-replicate (b.capacity * 2 + len) h.junk);
        small = small;
        not_null = omega (arith, v.not_null, v.allocated);
        allocated = omega arith;
        block = ground (arith, v.allocated);
        size = omega (
          arith,
          length-splice 8 (content b bytes) fresh_block,
          length-replicate (b.capacity * 2 + len) h.junk,
        );
      };
      same = content-front (content b bytes) fresh_block (8 + length (content b bytes)) refl roomy;
      fits = omega (arith, length-content v, v.front, v.order, v.room);
      live = keep_Live grown grown_heap c refl (omega arith) refl;
    },
  )

  -- The block that the object had is gone from the heap.
  pub block-grown : grown_heap.block b.buffer ≡ none
  block-grown = ground arith

pub make_space-Ensured :
    (len n : ℕ) {b : Buffer} {h : Heap} {bytes : List ℕ}
    → Holds b h bytes
    → Counted b h n
    → b.capacity * 2 + len < size_max
    → (b' : Buffer) × (h' : Heap) × (bytes' : List ℕ) × (make_space len b h ≡ some (b', h'))
      × Ensured len b b' bytes h' bytes'
unfolding make_space prependable_bytes
make_space-Ensured len n {b} {h} v c small =
    rw
      (
        writable-eq v,
        add_size-eq (b.capacity - b.write_index) b.read_index
            (omega (arith, v.order, v.room, v.small)),
        add_size-eq len 8 (omega (arith, v.front, v.order, v.room)),
      )
      (elim (Bool-cases (ltb (b.capacity - b.write_index + b.read_index) (len + 8))) [
        | inl e ↦ rw e (grow-Ensured len v small n c)
        | inr e ↦ rw e (slide-Ensured len n v c (ground arith))
      ])
