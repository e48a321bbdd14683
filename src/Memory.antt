-- ===== src/Memory.antt =====
-- The part of the C++ memory that src/base/Buffer.h and src/base/Buffer.cpp work on: `new char[n]` blocks
-- and the separately allocated `std::atomic<int>` reference counts. Address 0 is `nullptr`.
-- `none` is a fault: a read, a write, a count or a `delete` at memory that is not live, or past a
-- block's end. Fresh blocks hold `junk`, whose value no theorem fixes.
-- Threads: an atomic counter operation is one step.
use protobase.Common.{
  ℕ, suc, ◌+◌, ◌-◌, Option, none, some, List, if◌then◌else◌, ◌==◌, leb, ◌>>=◌, length, take, drop,
  splice, replicate,
}

pub record Heap : Type 0 where
  pub next : ℕ
  pub block : ℕ → Option (List ℕ)
  pub count : ℕ → Option ℕ
  pub junk : ℕ

abbrev pub update {ℓ} : {A : Type ℓ} → (ℕ → Option A) → ℕ → Option A → ℕ → Option A
update f p v q = if p == q then v else f q

-- `new char[n]`: the address is the `next` of the heap before.
unfoldable pub new_block : ℕ → Heap → Heap
new_block n h = record h {
  next = suc h.next;
  block = update h.block h.next (some (replicate n h.junk));
}

-- `new std::atomic<int>(1)`
unfoldable pub new_count : Heap → Heap
new_count h = record h { next = suc h.next; count = update h.count h.next (some 1) }

-- `delete[] p`; nothing happens at `nullptr`.
unfoldable pub delete_block : ℕ → Heap → Option Heap
delete_block p h =
    if p == 0 then some h else h.block p >>= λ _. some (record h { block = update h.block p none })

unfoldable pub delete_count : ℕ → Heap → Option Heap
delete_count p h = h.count p >>= λ _. some (record h { count = update h.count p none })

-- `count->fetch_add(1)`
unfoldable pub add_ref : ℕ → Heap → Option Heap
add_ref p h = h.count p >>= λ n. some (record h { count = update h.count p (some (suc n)) })

-- `count->fetch_sub(1)` on a count above 1
unfoldable pub sub_ref : ℕ → Heap → Option Heap
sub_ref p h = h.count p >>= λ n. some (record h { count = update h.count p (some (n - 1)) })

-- The `n` bytes at offset `off` of the block at `p`.
unfoldable pub load : ℕ → ℕ → ℕ → Heap → Option (List ℕ)
load p off n h = h.block p >>= λ bytes.
    if leb (off + n) (length bytes) then some (take n (drop off bytes)) else none

-- `memcpy` or `memmove` of `bytes` to offset `off` of the block at `p`.
unfoldable pub store : ℕ → ℕ → List ℕ → Heap → Option Heap
store p off data' h = h.block p >>= λ bytes.
    if leb (off + length data') (length bytes)
    then some (record h { block = update h.block p (some (splice off data' bytes)) })
    else none
