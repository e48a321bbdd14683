-- ===== src/Buffer/Ensure.antt =====
-- `makeOwnBuffer` and `ensureWriteableBytes` of src/base/Buffer.cpp keep the readable bytes.
use protobase.Common.{
  ℕ, suc, ◌+◌, ◌-◌, ◌*◌, ◌<◌, ◌≡◌, refl, ◌∙◌, inl, inr, true, Option, some, List, arith, length,
  splice, replicate, ltb, Bool-cases, if_then, if_else, size_max, add_size-eq, length-splice,
  length-replicate,
}
use protobase.Memory.{Heap, update, load, new_block, new_count}
use protobase.Buffer.{Buffer, writable_bytes}
use protobase.Buffer.Space.{make_own_buffer, ensure_writeable_bytes}
use protobase.Buffer.Release.{released, release-eq, block-released, count-released, next-released}
use protobase.Buffer.Valid.{Holds, Counted, content, readable-eq, writable-eq, length-content}
use protobase.Buffer.Access.{load-content_at, store-fits}
use protobase.Buffer.Room.{Ensured, content-front, make_space-Ensured}

make_own_buffer-Ensured :
    (len n : ℕ) {b : Buffer} {h : Heap} {bytes : List ℕ}
    → Holds b h bytes
    → Counted b h n
    → b.capacity * 2 + len < size_max
    → (b' : Buffer) × (h' : Heap) × (bytes' : List ℕ) × (make_own_buffer len b h ≡ some (b', h'))
      × Ensured len b b' bytes h' bytes'
unfolding make_own_buffer new_block new_count
make_own_buffer-Ensured len n {b} {h} {bytes} v c small = (
  record {
    buffer = h.next;
    read_index = 8;
    write_index = 8 + length xs;
    capacity = cap;
    ref_count = suc h.next;
    own_memory = true;
  },
  released b n h₂,
  splice 8 xs fresh,
  rw
      (
        readable-eq v,
        add_size-eq (b.write_index - b.read_index) len (omega (arith, v.room)),
        add_size-eq 8 (b.write_index - b.read_index + len) (omega (arith, v.room, v.front)),
        load-kept,
        store-fits h.next 8 xs fresh h₁ (ground arith)
            (omega (arith, length-content v, length-fresh)),
        release-eq b h₂ n bytes v.not_null (ground (arith, v.block, v.allocated))
            (ground (arith, c.count, c.allocated)),
      )
      (rw (
        length-content v,
        add_size-eq 8 (b.write_index - b.read_index) (omega (arith, v.room, v.small, v.front)),
      )),
  record {
    holds = record {
      front = omega arith;
      order = omega arith;
      room = omega (arith, length-content v);
      small = omega (arith, v.room, v.front);
      not_null = omega (arith, v.not_null, v.allocated);
      allocated = omega (arith, next-released b n h₂);
      block = block-released b n h₂ h.next (omega (arith, v.allocated)) ∙ (ground arith);
      size = omega (arith, length-splice 8 xs fresh, length-fresh);
    };
    same =
        content-front xs fresh (8 + length xs) refl (omega (arith, length-content v, length-fresh));
    fits = omega (arith, length-content v);
    live = (
      1,
      record {
        positive = omega arith;
        not_null = omega arith;
        allocated = omega (arith, next-released b n h₂);
        count = count-released b n h₂ (suc h.next) (omega (arith, c.allocated)) ∙ (ground arith);
      },
    );
  },
)
  where
    xs : List ℕ
    xs = content b bytes

    cap : ℕ
    cap = 8 + (b.write_index - b.read_index + len)

    fresh : List ℕ
    fresh = replicate cap h.junk

    length-fresh : length fresh ≡ cap
    length-fresh = length-replicate cap h.junk

    h₁ : Heap
    h₁ = new_count (new_block cap h)

    h₂ : Heap
    h₂ = record h₁ { block = update h₁.block h.next (some (splice 8 xs fresh)) }

    load-kept : load b.buffer b.read_index (b.write_index - b.read_index) h₁ ≡ some xs
    load-kept = load-content_at h₁ v (ground (arith, v.block, v.allocated))

-- A method's promise carries over along an equation of its calls.
carry_over :
    {len : ℕ} {b : Buffer} {bytes : List ℕ} {m m' : Option (Buffer × Heap)}
    → m ≡ m'
    → ((b' : Buffer) × (h' : Heap) × (bytes' : List ℕ) × (m' ≡ some (b', h'))
        × Ensured len b b' bytes h' bytes')
    → (b' : Buffer) × (h' : Heap) × (bytes' : List ℕ) × (m ≡ some (b', h'))
      × Ensured len b b' bytes h' bytes'
carry_over e (b', h', bytes', q, r) = (b', h', bytes', e ∙ q, r)

-- The cases of `ensureWriteableBytes`: there is room already, or the owner makes some, or a view
-- takes a block of its own.
pub ensure-Ensured :
    (len n : ℕ) {b : Buffer} {h : Heap} {bytes : List ℕ}
    → Holds b h bytes
    → Counted b h n
    → b.capacity * 2 + len < size_max
    → (b' : Buffer) × (h' : Heap) × (bytes' : List ℕ) × (ensure_writeable_bytes len b h
        ≡ some (b', h'))
      × Ensured len b b' bytes h' bytes'
unfolding ensure_writeable_bytes
ensure-Ensured len n {b} {h} {bytes} v c small = elim (Bool-cases (ltb (writable_bytes b) len)) [
  | inr e ↦ (
    b,
    h,
    bytes,
    if_else _ _ e,
    record { holds = v; same = refl; fits = ground (arith, writable-eq v); live = (n, c) },
  )
  | inl e ↦ elim (Bool-cases b.own_memory) [
    | inl o ↦ carry_over (if_then _ _ e ∙ if_then _ _ o) (make_space-Ensured len n v c small)
    | inr o ↦ carry_over (if_then _ _ e ∙ if_else _ _ o) (make_own_buffer-Ensured len n v c small)
  ]
]
