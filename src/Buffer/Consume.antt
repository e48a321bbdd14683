-- ===== src/Buffer/Consume.antt =====
-- Reading: `skip` and the reads take bytes off the front of the content.
use protobase.Common.{
  ℕ, ◌+◌, ◌-◌, ◌≤◌, ◌<◌, ◌≡◌, ◌∙◌, sym, ap, some, List, [], arith, take, drop, add_size-eq,
  drop-drop, drop_all, take_all, take-drop, length-take, take-take, lt→ltb, le→ltb_false,
}
use native.Mathlib.Decide.{dec_lt}
use protobase.Memory.{Heap}
use protobase.Buffer.{Buffer, readable_bytes, skip}
use protobase.Buffer.Read.{peek, read_as_string, read_all_as_string}
use protobase.Buffer.Access.{load-fits}
use protobase.Buffer.Valid.{Holds, content, readable-eq, length-content}

module _ {b : Buffer} {h : Heap} {bytes : List ℕ} (v : Holds b h bytes) where
  -- A part of the content, read in place.
  pub peek-content :
      (offset len : ℕ)
      → offset + len ≤ b.write_index - b.read_index
      → peek offset len b h ≡ some (take len (drop offset (content b bytes)))
  unfolding peek
  peek-content offset len fits =
      load-fits b.buffer (b.read_index + offset) len bytes h v.block
        (omega (arith, v.order, v.room, v.size))
      ∙ ap some (
          take-drop len (b.read_index + offset) (b.read_index + offset + len) bytes (omega arith)
          ∙ ap (drop (b.read_index + offset)) (
              sym (
                take-take (b.read_index + offset + len) b.write_index bytes
                  (omega (arith, v.order))))
          ∙ sym (
              take-drop len (b.read_index + offset) (b.read_index + offset + len)
                (take b.write_index bytes) (omega arith))
          ∙ ap (take len) (
              sym (
                drop-drop offset b.read_index (b.read_index + offset) (take b.write_index bytes)
                  (omega arith))))

  skip_within :
      (len : ℕ)
      → len < b.write_index - b.read_index
      → skip len b ≡ record b { read_index = b.read_index + len }
  unfolding skip
  skip_within len small =
      rw (readable-eq v, lt→ltb len (b.write_index - b.read_index) small)
        (ap (λ i. record b { read_index = i })
          (add_size-eq b.read_index len (omega (arith, v.room, v.small))))

  skip_past :
      (len : ℕ)
      → b.write_index - b.read_index ≤ len
      → skip len b ≡ record b { read_index = 8; write_index = 8 }
  unfolding skip
  skip_past len big = rw (readable-eq v, le→ltb_false len (b.write_index - b.read_index) big)

  -- On a buffer that meets the invariant `skip(len)` keeps it and takes `len` bytes off the
  -- content, all of them if `len` is as large as the content or larger.
  pub skip-content :
      (len : ℕ)
      → Holds (skip len b) h bytes × (content (skip len b) bytes ≡ drop len (content b bytes))
  skip-content len = elim (dec_lt len (b.write_index - b.read_index)) [
    | yes small ↦ rw (skip_within len small) (
      record {
        front = omega (arith, v.front);
        order = omega arith;
        room = v.room;
        small = v.small;
        not_null = v.not_null;
        allocated = v.allocated;
        block = v.block;
        size = v.size;
      },
      sym (
          drop-drop len b.read_index (b.read_index + len) (take b.write_index bytes) (omega arith)),
    )
    | no big ↦ rw (skip_past len (omega arith)) (
      record {
        front = omega arith;
        order = omega arith;
        room = omega (arith, v.front, v.order, v.room);
        small = v.small;
        not_null = v.not_null;
        allocated = v.allocated;
        block = v.block;
        size = v.size;
      },
      drop_all 8 (take 8 bytes) (omega (arith, length-take 8 bytes))
          ∙ sym (drop_all len (content b bytes) (omega (arith, length-content v))),
    )
  ]

  -- On a buffer that meets the invariant `readAsString(len)` for at most the readable bytes returns
  -- the first `len` of them and leaves the rest, under the invariant.
  pub read_as_string-content :
      (len : ℕ)
      → len ≤ b.write_index - b.read_index
      → (b' : Buffer) × (read_as_string len b h ≡ some (take len (content b bytes), b'))
        × Holds b' h bytes
        × (content b' bytes ≡ drop len (content b bytes))
  unfolding read_as_string
  read_as_string-content len fits = (
    skip len b,
    rw (peek-content 0 len (omega arith)),
    (skip-content len).0,
    (skip-content len).1,
  )

  -- `readAllAsString()` returns the whole content and leaves none.
  pub read_all_as_string-content :
      (b' : Buffer) × (read_all_as_string b h ≡ some (content b bytes, b'))
      × Holds b' h bytes
      × (content b' bytes ≡ [])
  unfolding read_all_as_string
  read_all_as_string-content =
      let (b', e, keeps, rest) =
        read_as_string-content (readable_bytes b) (omega (arith, readable-eq v)) in
      (
        b',
        e
            ∙ ap (λ c. some (c, b'))
                (take_all (readable_bytes b) (content b bytes)
                  (omega (arith, readable-eq v, length-content v))),
        keeps,
        rest
            ∙ drop_all (readable_bytes b) (content b bytes)
                (omega (arith, readable-eq v, length-content v)),
      )
