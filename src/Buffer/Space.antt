-- ===== src/Buffer/Space.antt =====
-- src/base/Buffer.cpp: room for writing, and the appends.
use protobase.Common.{
  ℕ, suc, ◌*◌, ◌/◌, ◌%◌, ◌^◌, Option, some, List, [], ◌∷◌, true, if◌then◌else◌, ltb, ◌>>=◌,
  add_size, length,
}
use protobase.Memory.{Heap, new_block, new_count, delete_block, load, store}
use protobase.Buffer.{
  Buffer, prepend_size, release, readable_bytes, writable_bytes, prependable_bytes,
}

-- The branch of `makeSpace` that takes a larger block. The count is kept: a view made earlier goes
-- on sharing it, but not the block.
unfoldable pub grow : ℕ → Buffer → Heap → Option (Buffer × Heap)
unfolding new_block load store delete_block
grow len b h =
    let resized = add_size (b.capacity * 2) len in
    let readable = readable_bytes b in
    load b.buffer b.read_index readable h >>= λ bytes.
    store h.next prepend_size bytes (new_block resized h) >>= λ h'.
    delete_block b.buffer h' >>= λ h''. some (
      record b {
        buffer = h.next;
        read_index = prepend_size;
        write_index = add_size readable prepend_size;
        capacity = resized;
      },
      h'',
    )

-- The branch of `makeSpace` that moves the readable bytes to the front.
unfoldable pub slide : Buffer → Heap → Option (Buffer × Heap)
unfolding load store
slide b h =
    let readable = readable_bytes b in
    load b.buffer b.read_index readable h >>= λ bytes. store b.buffer prepend_size bytes h >>= λ h'.
    some (record b { read_index = prepend_size; write_index = add_size prepend_size readable }, h')

unfoldable pub make_space : ℕ → Buffer → Heap → Option (Buffer × Heap)
unfolding grow slide prependable_bytes
make_space len b h =
    if ltb (add_size (writable_bytes b) (prependable_bytes b)) (add_size len prepend_size)
    then grow len b h
    else slide b h

unfoldable pub make_own_buffer : ℕ → Buffer → Heap → Option (Buffer × Heap)
unfolding new_block new_count load store release
make_own_buffer additional b h =
    let readable = readable_bytes b in
    let capacity = add_size prepend_size (add_size readable additional) in
    let h₁ = new_count (new_block capacity h) in
    load b.buffer b.read_index readable h₁ >>= λ bytes. store h.next prepend_size bytes h₁ >>= λ h₂.
    release b h₂ >>= λ h₃. some (
      record {
        buffer = h.next;
        read_index = prepend_size;
        write_index = add_size prepend_size readable;
        capacity = capacity;
        ref_count = suc h.next;
        own_memory = true;
      },
      h₃,
    )

unfoldable pub ensure_writeable_bytes : ℕ → Buffer → Heap → Option (Buffer × Heap)
unfolding make_space make_own_buffer
ensure_writeable_bytes len b h =
    if ltb (writable_bytes b) len
    then if b.own_memory then make_space len b h else make_own_buffer len b h
    else some (b, h)

-- `append(const char *, size_t)`, and through it `append(const void *, size_t)`
unfoldable pub append : List ℕ → Buffer → Heap → Option (Buffer × Heap)
unfolding ensure_writeable_bytes store
append bytes b h = ensure_writeable_bytes (length bytes) b h >>= λ (b', h').
    store b'.buffer b'.write_index bytes h' >>= λ h''.
    some (record b' { write_index = add_size b'.write_index (length bytes) }, h'')

-- `append(const unsigned char *, size_t)` returns early on no bytes.
unfoldable pub append_unsigned : List ℕ → Buffer → Heap → Option (Buffer × Heap)
unfolding append
append_unsigned [] b h = some (b, h)
append_unsigned (x ∷ xs) b h = append (x ∷ xs) b h

-- `htole16`, `htobe16` and their 32-bit forms, by the bytes that they leave in memory.
unfoldable pub bytes_u16_le : ℕ → List ℕ
bytes_u16_le v = v % 2 ^ 8 ∷ (v / 2 ^ 8 % 2 ^ 8) ∷ []

unfoldable pub bytes_u16_be : ℕ → List ℕ
bytes_u16_be v = (v / 2 ^ 8 % 2 ^ 8) ∷ v % 2 ^ 8 ∷ []

unfoldable pub bytes_u32_le : ℕ → List ℕ
bytes_u32_le v = v % 2 ^ 8 ∷ (v / 2 ^ 8 % 2 ^ 8) ∷ (v / 2 ^ 16 % 2 ^ 8) ∷ (v / 2 ^ 24 % 2 ^ 8) ∷ []

unfoldable pub bytes_u32_be : ℕ → List ℕ
bytes_u32_be v = (v / 2 ^ 24 % 2 ^ 8) ∷ (v / 2 ^ 16 % 2 ^ 8) ∷ (v / 2 ^ 8 % 2 ^ 8) ∷ v % 2 ^ 8 ∷ []

unfoldable pub append_u16_le : ℕ → Buffer → Heap → Option (Buffer × Heap)
unfolding append bytes_u16_le
append_u16_le v b h = append (bytes_u16_le v) b h

unfoldable pub append_u16_be : ℕ → Buffer → Heap → Option (Buffer × Heap)
unfolding append bytes_u16_be
append_u16_be v b h = append (bytes_u16_be v) b h

unfoldable pub append_u32_le : ℕ → Buffer → Heap → Option (Buffer × Heap)
unfolding append bytes_u32_le
append_u32_le v b h = append (bytes_u32_le v) b h

unfoldable pub append_u32_be : ℕ → Buffer → Heap → Option (Buffer × Heap)
unfolding append bytes_u32_be
append_u32_be v b h = append (bytes_u32_be v) b h

-- `appendChar`; the overload taken is `const char *`.
unfoldable pub append_char : ℕ → Buffer → Heap → Option (Buffer × Heap)
unfolding append
append_char c b h = append (c ∷ []) b h

-- `appendU8`; the overload taken is `const unsigned char *`.
unfoldable pub append_u8 : ℕ → Buffer → Heap → Option (Buffer × Heap)
unfolding append_unsigned
append_u8 v b h = append_unsigned (v ∷ []) b h
