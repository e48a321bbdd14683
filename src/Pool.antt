-- ===== src/Pool.antt =====
-- src/net/EventLoopThreadPool.h and src/net/EventLoopThreadPool.cpp. A loop is its address; the
-- addresses that `startLoop` of the new threads returns are an argument.
pub mod Rounds
use protobase.Common.{
  ℕ, zero, suc, ◌+◌, ◌-◌, Bool, true, false, Option, none, some, List, [], ◌∷◌, ◌++◌, if◌then◌else◌,
  leb, ◌>>=◌, length, get_elem?, take,
}
use protobase.Common.Int.{ℤ, pos, negsuc}

-- `initialised` is a log: the loops that the callback of `start` ran on.
pub record Pool : Type 0 where
  pub base : ℕ
  pub started : Bool
  pub num_threads : ℤ
  pub next : ℕ
  pub loops : List ℕ
  pub initialised : List ℕ

unfoldable pub create : ℕ → ℤ → Pool
create base threads = record {
  base = base;
  started = false;
  num_threads = threads;
  next = 0;
  loops = [];
  initialised = [];
}

unfoldable pub set_thread_num : ℤ → Pool → Pool
set_thread_num n p = record p { num_threads = n }

-- The loop of `start`: a thread for each, whose loop calls the callback before it is returned.
abbrev pub rounds_of : ℤ → ℕ
rounds_of (pos n) = n
rounds_of (negsuc n) = 0

abbrev pub is_zero : ℤ → Bool
is_zero (pos zero) = true
is_zero (pos (suc n)) = false
is_zero (negsuc n) = false

-- The loops of the threads from the `i`th on.
abbrev pub spawned : ℕ → ℕ → (ℕ → ℕ) → List ℕ
spawned i zero fresh = []
spawned i (suc n) fresh = fresh i ∷ spawned (i + 1) n fresh

-- `has_callback` is whether there is a callback, `fresh` the loop of each new thread.
unfoldable pub start : Bool → (ℕ → ℕ) → Pool → Pool
start has_callback fresh p =
    let new = spawned 0 (rounds_of p.num_threads) fresh in
    record p {
      started = true;
      loops = p.loops ++ new;
      initialised =
          p.initialised
          ++ (if has_callback
              then new ++ (if is_zero p.num_threads then p.base ∷ [] else [])
              else []);
    }

-- `none` is an index out of range.
unfoldable pub get_next_loop : Pool → Option (ℕ × Pool)
get_next_loop p = elim p.loops [
  | [] ↦ some (p.base, p)
  | l ∷ ls ↦ get_elem? (l ∷ ls) p.next >>= λ loop.
      some (loop, record p { next = if leb (length (l ∷ ls)) (p.next + 1) then 0 else p.next + 1 })
]

-- The loops of `n` calls.
unfoldable pub next_loops : ℕ → Pool → Option (List ℕ × Pool)
unfolding get_next_loop
next_loops zero p = some ([], p)
next_loops (suc n) p = get_next_loop p >>= λ r. next_loops n r.1 >>= λ rs. some (r.0 ∷ rs.0, rs.1)
