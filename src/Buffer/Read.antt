-- ===== src/Buffer/Read.antt =====
-- src/base/Buffer.cpp: peeks and reads. The host is little-endian, as the casts of `peekU16LE` and
-- `peekU32LE` suppose. Offsets are not negative.
use protobase.Common.{
  ℕ, ◌+◌, ◌*◌, ◌/◌, ◌%◌, ◌^◌, Option, some, List, [], ◌∷◌, if◌then◌else◌, ltb, ◌>>=◌,
}
use protobase.Memory.{Heap, load}
use protobase.Buffer.{Buffer, readable_bytes, skip}

-- `n` bytes at `peek(offset)`. They need not be readable: what lies past `m_writeIndex` is read too.
unfoldable pub peek : ℕ → ℕ → Buffer → Heap → Option (List ℕ)
unfolding load
peek offset n b h = load b.buffer (b.read_index + offset) n h

-- The number that bytes spell, least significant first.
unfoldable pub number_le : List ℕ → ℕ
number_le [] = 0
number_le (x ∷ xs) = x + 2 ^ 8 * number_le xs

-- The shifts and the `|` of `peekU16BE` and `peekU32BE`: the shifted bytes share no bits.
unfoldable pub number_be_from : ℕ → List ℕ → ℕ
number_be_from acc [] = acc
number_be_from acc (x ∷ xs) = number_be_from (acc * 2 ^ 8 + x) xs

unfoldable pub peek_u8 : ℕ → Buffer → Heap → Option ℕ
unfolding peek number_le
peek_u8 offset b h = peek offset 1 b h >>= λ bytes. some (number_le bytes)

unfoldable pub peek_u16_le : ℕ → Buffer → Heap → Option ℕ
unfolding peek number_le
peek_u16_le offset b h = peek offset 2 b h >>= λ bytes. some (number_le bytes)

unfoldable pub peek_u16_be : ℕ → Buffer → Heap → Option ℕ
unfolding peek number_be_from
peek_u16_be offset b h = peek offset 2 b h >>= λ bytes. some (number_be_from 0 bytes)

unfoldable pub peek_u32_le : ℕ → Buffer → Heap → Option ℕ
unfolding peek number_le
peek_u32_le offset b h = peek offset 4 b h >>= λ bytes. some (number_le bytes)

unfoldable pub peek_u32_be : ℕ → Buffer → Heap → Option ℕ
unfolding peek number_be_from
peek_u32_be offset b h = peek offset 4 b h >>= λ bytes. some (number_be_from 0 bytes)

-- `readU8`, and `readChar` for the same byte as a `char`
unfoldable pub read_u8 : Buffer → Heap → Option (ℕ × Buffer)
unfolding peek_u8 skip
read_u8 b h = peek_u8 0 b h >>= λ v. some (v, skip 1 b)

unfoldable pub read_u16_le : Buffer → Heap → Option (ℕ × Buffer)
unfolding peek_u16_le skip
read_u16_le b h = peek_u16_le 0 b h >>= λ v. some (v, skip 2 b)

unfoldable pub read_u32_le : Buffer → Heap → Option (ℕ × Buffer)
unfolding peek_u32_le skip
read_u32_le b h = peek_u32_le 0 b h >>= λ v. some (v, skip 4 b)

-- `readU16BE` and `readU32BE` return 0 and consume nothing.
unfoldable pub read_u16_be : Buffer → Heap → Option (ℕ × Buffer)
read_u16_be b h = some (0, b)

unfoldable pub read_u32_be : Buffer → Heap → Option (ℕ × Buffer)
read_u32_be b h = some (0, b)

unfoldable pub read_as_string : ℕ → Buffer → Heap → Option (List ℕ × Buffer)
unfolding peek skip
read_as_string len b h = peek 0 len b h >>= λ bytes. some (bytes, skip len b)

unfoldable pub read_all_as_string : Buffer → Heap → Option (List ℕ × Buffer)
unfolding read_as_string
read_all_as_string b h = read_as_string (readable_bytes b) b h

-- `std::hex << std::uppercase`
unfoldable pub hex_digit : ℕ → ℕ
hex_digit n = if ltb n 10 then b'0' + n else n + 55

-- `std::setw(2) << std::setfill('0')`
unfoldable pub hex_of : List ℕ → List ℕ
unfolding hex_digit
hex_of [] = []
hex_of (x ∷ xs) = hex_digit (x / 16) ∷ hex_digit (x % 16) ∷ hex_of xs

unfoldable pub read_as_hex_string : ℕ → Buffer → Heap → Option (List ℕ × Buffer)
unfolding peek skip hex_of
read_as_hex_string len b h = peek 0 len b h >>= λ bytes. some (hex_of bytes, skip len b)

unfoldable pub read_all_as_hex_string : Buffer → Heap → Option (List ℕ × Buffer)
unfolding read_as_hex_string
read_all_as_hex_string b h = read_as_hex_string (readable_bytes b) b h
