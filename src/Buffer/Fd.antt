-- ===== src/Buffer/Fd.antt =====
-- src/base/Buffer.cpp: `readFd` and `writeFd`. What the kernel does is an argument: the bytes that
-- `readv` scatters, or how many of the offered bytes `write` takes.
use protobase.Common.{
  ℕ, ◌-◌, Option, some, List, if◌then◌else◌, leb, ◌>>=◌, add_size, length, take, drop, size_max,
}
use protobase.Memory.{Heap, load, store}
use protobase.Buffer.{Buffer, readable_bytes, writable_bytes}
use protobase.Buffer.Space.{append}

-- `readv` returned the number of these bytes, or -1.
pub data ReadResult : Type 0 where
  received : List ℕ → ReadResult
  read_failed : ReadResult

-- The buffer first, then `extraBuf`. The kernel fills the second `iovec` only where `iovcnt` is 2;
-- it then returns at most `writableBytes() + sizeof extraBuf`.
unfoldable pub read_fd : ReadResult → Buffer → Heap → Option (Buffer × Heap)
unfolding store append
read_fd read_failed b h = some (b, h)
read_fd (received bytes) b h =
    let writeable = writable_bytes b in
    store b.buffer b.write_index (take writeable bytes) h >>= λ h'.
    if leb (length bytes) writeable
    then some (record b { write_index = add_size b.write_index (length bytes) }, h')
    else append (drop writeable bytes) (record b { write_index = b.capacity }) h'

-- `write` took this many bytes, or returned -1.
pub data WriteResult : Type 0 where
  took : ℕ → WriteResult
  write_failed : WriteResult

-- The bytes offered to `write`.
unfoldable pub offered : Buffer → Heap → Option (List ℕ)
unfolding load
offered b h = load b.buffer b.read_index (readable_bytes b) h

-- `writeFd` returns the `ssize_t` as a `size_t`: -1 is the largest one.
unfoldable pub write_fd : WriteResult → ℕ
write_fd (took n) = n
write_fd write_failed = size_max - 1
