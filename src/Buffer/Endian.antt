-- ===== src/Buffer/Endian.antt =====
-- Integers in a buffer: what is appended in a byte order is read back in that order.
use protobase.Common.{
  ℕ, ◌+◌, ◌-◌, ◌*◌, ◌^◌, ◌<◌, ◌≡◌, ◌∙◌, sym, ap, some, List, arith, length, take, drop, ◌>>=◌,
  size_max, length-append, drop-append_eq, drop-drop, take-drop,
}
use protobase.Memory.{Heap}
use protobase.Buffer.{Buffer}
use protobase.Buffer.Space.{
  append, append_u16_le, append_u16_be, append_u32_le, append_u32_be, bytes_u16_le, bytes_u16_be,
  bytes_u32_le, bytes_u32_be,
}
use protobase.Buffer.Read.{
  peek, number_le, number_be_from, peek_u16_le, peek_u16_be, peek_u32_le, peek_u32_be,
}
use protobase.Buffer.Access.{load-fits}
use protobase.Buffer.Append.{Appended, append-content}
use protobase.Buffer.Valid.{Holds, Counted, content, length-content}

-- What was appended is what `peek` finds behind the earlier content.
pub peek-Appended :
    (xs : List ℕ) {b b' : Buffer} {h h' : Heap} {bytes bytes' : List ℕ}
    → Holds b h bytes
    → Appended xs b bytes b' h' bytes'
    → peek (b.write_index - b.read_index) (length xs) b' h' ≡ some xs
unfolding peek
peek-Appended xs {b} {b'} {h' = h'} {bytes = bytes} {bytes' = bytes'} v r =
    load-fits b'.buffer (b'.read_index + k) (length xs) bytes' h' r.holds.block
      (omega (arith, total, r.holds.order, r.holds.room, r.holds.size))
    ∙ ap some (
        take-drop (length xs) (b'.read_index + k) b'.write_index bytes'
          (omega (arith, total, r.holds.order))
        ∙ sym (
            drop-drop k b'.read_index (b'.read_index + k) (take b'.write_index bytes')
              (omega arith))
        ∙ ap (drop k) r.appended
        ∙ drop-append_eq k (content b bytes) xs (sym (length-content v)))
  where
    k : ℕ
    k = b.write_index - b.read_index

    total : b'.write_index - b'.read_index ≡ k + length xs
    total = omega (
      arith,
      length-content r.holds,
      ap length r.appended,
      length-append (content b bytes) xs,
      length-content v,
    )

number_le-bytes_u16 : (n : ℕ) → n < 2 ^ 16 → number_le (bytes_u16_le n) ≡ n
unfolding number_le bytes_u16_le
number_le-bytes_u16 n h = omega arith

number_be-bytes_u16 : (n : ℕ) → n < 2 ^ 16 → number_be_from 0 (bytes_u16_be n) ≡ n
unfolding number_be_from bytes_u16_be
number_be-bytes_u16 n h = omega arith

number_le-bytes_u32 : (n : ℕ) → n < 2 ^ 32 → number_le (bytes_u32_le n) ≡ n
unfolding number_le bytes_u32_le
number_le-bytes_u32 n h = omega arith

number_be-bytes_u32 : (n : ℕ) → n < 2 ^ 32 → number_be_from 0 (bytes_u32_be n) ≡ n
unfolding number_be_from bytes_u32_be
number_be-bytes_u32 n h = omega arith

module _ {b : Buffer} {h : Heap} {bytes : List ℕ} (v : Holds b h bytes) (n : ℕ)
    (c : Counted b h n) where
  -- Decoding, by `read`, the bytes that `append` put behind the content.
  abbrev DecodesTo : List ℕ → (List ℕ → ℕ) → ℕ → Type 0
  DecodesTo xs read x =
      (b' : Buffer) × (h' : Heap) × (append xs b h ≡ some (b', h'))
      × ((peek (b.write_index - b.read_index) (length xs) b' h' >>= λ ys. some (read ys)) ≡ some x)

  decode_appended :
      (xs : List ℕ) (read : List ℕ → ℕ) (x : ℕ)
      → b.capacity * 2 + length xs < size_max
      → read xs ≡ x
      → DecodesTo xs read x
  decode_appended xs read x small e =
      let (b', h', bytes', q, r) = append-content xs n v c small in
      (b', h', q, rw (peek-Appended xs v r) (ap some e))

  -- A 16-bit number appended to a buffer that meets the invariant is read back by the peek of the
  -- same byte order at the offset where the earlier content ends, for little-endian and for
  -- big-endian order, as long as no `size_t` sum wraps.
  pub peek-append_u16 :
      (x : ℕ)
      → x < 2 ^ 16
      → b.capacity * 2 + 2 < size_max
      → ((b' : Buffer) × (h' : Heap) × (append_u16_le x b h ≡ some (b', h'))
          × (peek_u16_le (b.write_index - b.read_index) b' h' ≡ some x))
        × ((b' : Buffer) × (h' : Heap) × (append_u16_be x b h ≡ some (b', h'))
            × (peek_u16_be (b.write_index - b.read_index) b' h' ≡ some x))
  unfolding append_u16_le append_u16_be peek_u16_le peek_u16_be
  peek-append_u16 x range small = (
    decode_appended (bytes_u16_le x) number_le x small (number_le-bytes_u16 x range),
    decode_appended (bytes_u16_be x) (number_be_from 0) x small (number_be-bytes_u16 x range),
  )

  -- A 32-bit number appended to a buffer that meets the invariant is read back by the peek of the
  -- same byte order at the offset where the earlier content ends, for little-endian and for
  -- big-endian order, as long as no `size_t` sum wraps.
  pub peek-append_u32 :
      (x : ℕ)
      → x < 2 ^ 32
      → b.capacity * 2 + 4 < size_max
      → ((b' : Buffer) × (h' : Heap) × (append_u32_le x b h ≡ some (b', h'))
          × (peek_u32_le (b.write_index - b.read_index) b' h' ≡ some x))
        × ((b' : Buffer) × (h' : Heap) × (append_u32_be x b h ≡ some (b', h'))
            × (peek_u32_be (b.write_index - b.read_index) b' h' ≡ some x))
  unfolding append_u32_le append_u32_be peek_u32_le peek_u32_be
  peek-append_u32 x range small = (
    decode_appended (bytes_u32_le x) number_le x small (number_le-bytes_u32 x range),
    decode_appended (bytes_u32_be x) (number_be_from 0) x small (number_be-bytes_u32 x range),
  )
