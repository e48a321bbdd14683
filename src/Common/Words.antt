-- ===== src/Common/Words.antt =====
-- `size_t` arithmetic: 64-bit words, with their wrap-around.
use Prim.Native.Nat.{ℕ, ◌+◌, ◌-◌, ◌%◌, ◌^◌, ◌≤◌, ◌<◌}
use mathlib.Core.Path.{◌≡◌}
use native.Mathlib.Omega.{arith}

abbrev pub size_max : ℕ
size_max = 2 ^ 64

unfoldable pub add_size : ℕ → ℕ → ℕ
add_size a b = (a + b) % size_max

-- `-` on ℕ stops at 0, so the modulus is added first.
unfoldable pub sub_size : ℕ → ℕ → ℕ
sub_size a b = (a + size_max - b) % size_max

pub add_size-eq : (a b : ℕ) → a + b < size_max → add_size a b ≡ a + b
unfolding add_size
add_size-eq a b h = omega arith

pub sub_size-eq : (a b : ℕ) → b ≤ a → a < size_max → sub_size a b ≡ a - b
unfolding sub_size
sub_size-eq a b h k = omega arith

-- Sums and differences that wrap.
pub add_size_back : (r o : ℕ) → r < size_max → o ≤ size_max → add_size (r + o) (size_max - o) ≡ r
unfolding add_size
add_size_back r o h k = omega arith

pub sub_size_past : (r o : ℕ) → 0 < o → r + o < size_max → sub_size r (r + o) ≡ size_max - o
unfolding sub_size
sub_size_past r o h k = omega arith
