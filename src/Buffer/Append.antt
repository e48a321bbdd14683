-- ===== src/Buffer/Append.antt =====
-- `append`: the bytes come to stand behind those that the buffer held.
use protobase.Common.{
  ℕ, ◌+◌, ◌-◌, ◌*◌, ◌≤◌, ◌<◌, ◌≡◌, ◌∙◌, refl, ap, some, List, ◌++◌, arith, length, take, drop,
  splice, size_max, add_size-eq, length-splice, length-take, take-splice, drop-append,
}
use protobase.Memory.{Heap, update, store}
use protobase.Buffer.{Buffer}
use protobase.Buffer.Space.{ensure_writeable_bytes, append}
use protobase.Buffer.Access.{store-fits}
use protobase.Buffer.Room.{Ensured}
use protobase.Buffer.Ensure.{ensure-Ensured}
use protobase.Buffer.Valid.{Holds, Counted, Live, keep_Live, content}

-- The heap and the object after a write of `data'` at the write index.
module _ {b : Buffer} {h : Heap} {bytes : List ℕ} (v : Holds b h bytes) (xs : List ℕ) where
  abbrev pub written : Heap
  written = record h { block = update h.block b.buffer (some (splice b.write_index xs bytes)) }

  abbrev pub advanced : Buffer
  advanced = record b { write_index = b.write_index + length xs }

  pub write-Holds :
      length xs ≤ b.capacity - b.write_index
      → Holds advanced written (splice b.write_index xs bytes)
  write-Holds fits = record {
    front = v.front;
    order = omega (arith, v.order);
    room = omega (arith, v.room);
    small = v.small;
    not_null = v.not_null;
    allocated = v.allocated;
    block = ground arith;
    size = omega (arith, length-splice b.write_index xs bytes, v.size);
  }

  pub write-content :
      length xs ≤ b.capacity - b.write_index
      → content advanced (splice b.write_index xs bytes) ≡ content b bytes ++ xs
  write-content fits =
      ap (drop b.read_index) (
        take-splice (b.write_index + length xs) b.write_index xs bytes (omega arith)
          (omega (arith, v.room, v.size)))
      ∙ drop-append b.read_index (take b.write_index bytes) xs
          (omega (arith, length-take b.write_index bytes, v.order, v.room, v.size))

  pub write-eq :
      length xs ≤ b.capacity - b.write_index → store b.buffer b.write_index xs h ≡ some written
  write-eq fits =
      store-fits b.buffer b.write_index xs bytes h v.block (omega (arith, v.room, v.size))

-- What a write of `xs` behind the readable bytes promises.
pub record Appended (xs : List ℕ) (b : Buffer) (bytes : List ℕ) (b' : Buffer) (h' : Heap)
    (bytes' : List ℕ) : Type 0 where
  pub holds : Holds b' h' bytes'
  pub appended : content b' bytes' ≡ content b bytes ++ xs
  pub live : Live b' h'

append-after :
    (xs : List ℕ) {b b' : Buffer} (h : Heap) {h' : Heap} {bytes bytes' : List ℕ}
    → ensure_writeable_bytes (length xs) b h ≡ some (b', h')
    → Ensured (length xs) b b' bytes h' bytes'
    → (b'' : Buffer) × (h'' : Heap) × (bytes'' : List ℕ) × (append xs b h ≡ some (b'', h''))
      × Appended xs b bytes b'' h'' bytes''
unfolding append
append-after xs {b' = b'} h {bytes = bytes} {bytes' = bytes'} e r = (
  advanced r.holds xs,
  written r.holds xs,
  splice b'.write_index xs bytes',
  rw (
    e,
    write-eq r.holds xs r.fits,
    add_size-eq b'.write_index (length xs) (omega (arith, r.holds.room, r.holds.small, r.fits)),
  ),
  record {
    holds = write-Holds r.holds xs r.fits;
    appended = write-content r.holds xs r.fits ∙ ap (λ (c : List ℕ). c ++ xs) r.same;
    live = keep_Live _ _ r.live.1 refl (omega arith) refl;
  },
)

-- On a buffer that meets the invariant, whose count is live, and that is small enough for no
-- `size_t` sum to wrap, `append` does not fault, keeps the invariant, and leaves the content
-- followed by the new bytes: with room at hand, after sliding, after growing, and for a view.
pub append-content :
    (xs : List ℕ) (n : ℕ) {b : Buffer} {h : Heap} {bytes : List ℕ}
    → Holds b h bytes
    → Counted b h n
    → b.capacity * 2 + length xs < size_max
    → (b' : Buffer) × (h' : Heap) × (bytes' : List ℕ) × (append xs b h ≡ some (b', h'))
      × Appended xs b bytes b' h' bytes'
append-content xs n {h = h} v c small =
    let (b', h', bytes', e, r) = ensure-Ensured (length xs) n v c small in append-after xs h e r
