-- ===== src/Buffer/Input.antt =====
-- `readFd`: the bytes that the kernel scatters come to stand behind the content.
use protobase.Common.{
  ℕ, ◌+◌, ◌-◌, ◌*◌, ◌≤◌, ◌<◌, ◌≡◌, ◌∙◌, refl, ap, some, List, ◌++◌, arith, length, take, drop,
  splice, size_max, add_size-eq, le→leb, lt→leb_false, take_all, length-take, length-drop,
  take-append-drop, append_assoc,
}
use native.Mathlib.Decide.{dec_le}
use protobase.Memory.{Heap}
use protobase.Buffer.{Buffer}
use protobase.Buffer.Space.{append}
use protobase.Buffer.Fd.{received, read_fd}
use protobase.Buffer.Append.{
  Appended, append-content, write-Holds, write-content, write-eq, written, advanced,
}
use protobase.Buffer.Valid.{Holds, Counted, keep_Live, content, writable-eq}

module _ {b : Buffer} {h : Heap} {bytes : List ℕ} (v : Holds b h bytes) where
  abbrev room : ℕ
  room = b.capacity - b.write_index

  read_within :
      (xs : List ℕ)
      → length xs ≤ room
      → read_fd (received xs) b h ≡ some (advanced v xs, written v xs)
  unfolding read_fd
  read_within xs fits = rw (
    writable-eq v,
    take_all room xs fits,
    write-eq v xs fits,
    le→leb (length xs) room fits,
    add_size-eq b.write_index (length xs) (omega (arith, v.room, v.small)),
  )

  length_first : (xs : List ℕ) → room < length xs → length (take room xs) ≡ room
  length_first xs over = omega (arith, length-take room xs)

  full :
      (xs : List ℕ)
      → room < length xs
      → advanced v (take room xs) ≡ record b { write_index = b.capacity }
  full xs over =
      ap (λ i. record b { write_index = i }) (omega (arith, length_first xs over, v.room))

  read_past :
      (xs : List ℕ)
      → room < length xs
      → read_fd (received xs) b h
        ≡ append (drop room xs) (advanced v (take room xs)) (written v (take room xs))
  unfolding read_fd
  read_past xs over = rw (
    writable-eq v,
    write-eq v (take room xs) (omega (arith, length_first xs over)),
    lt→leb_false (length xs) room over,
    full xs over,
  )

  -- Whatever number of bytes `readv` delivers, whether they fit behind the content or overflow into
  -- `extraBuf`, `readFd` leaves the buffer, under its invariant, with the content followed by all
  -- of them in order. The buffer meets the invariant, its count is live and no `size_t` sum wraps.
  pub read_fd-content :
      (xs : List ℕ) (n : ℕ)
      → Counted b h n
      → b.capacity * 2 + length xs < size_max
      → (b' : Buffer) × (h' : Heap) × (bytes' : List ℕ) × (read_fd (received xs) b h
          ≡ some (b', h'))
        × Appended xs b bytes b' h' bytes'
  read_fd-content xs n c small = elim (dec_le (length xs) room) [
    | yes fits ↦ (
      advanced v xs,
      written v xs,
      splice b.write_index xs bytes,
      read_within xs fits,
      record {
        holds = write-Holds v xs fits;
        appended = write-content v xs fits;
        live = keep_Live _ _ c refl (omega arith) refl;
      },
    )
    | no over ↦ past (omega arith)
  ]
    where
      past :
          room < length xs
          → (b' : Buffer) × (h' : Heap) × (bytes' : List ℕ) × (read_fd (received xs) b h
              ≡ some (b', h'))
            × Appended xs b bytes b' h' bytes'
      past over =
          let small_first : length (take room xs) ≤ room = omega (arith, length_first xs over) in
          let (b', h', bytes', e, r) =
            append-content (drop room xs) n (write-Holds v (take room xs) small_first)
              (record {
                positive = c.positive;
                not_null = c.not_null;
                allocated = c.allocated;
                count = c.count;
              })
              (omega (arith, length-drop room xs)) in
          (
            b',
            h',
            bytes',
            read_past xs over ∙ e,
            record {
              holds = r.holds;
              appended =
                  r.appended
                  ∙ ap (λ (p : List ℕ). p ++ drop room xs)
                      (write-content v (take room xs) small_first)
                  ∙ append_assoc (content b bytes) (take room xs) (drop room xs)
                  ∙ ap (λ (p : List ℕ). content b bytes ++ p) (take-append-drop room xs);
              live = r.live;
            },
          )
