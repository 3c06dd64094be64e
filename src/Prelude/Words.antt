-- ===== src/Prelude/Words.antt =====
-- Unsigned machine words as numbers that wrap at their width.
use Prim.Native.Nat.{ℕ, ◌+◌, ◌-◌, ◌%◌, ◌^◌}

-- `++x` and `fetch_add(1)` on `uint64_t` and `uint32_t`.
unfoldable pub increment64 : ℕ → ℕ
increment64 x = (x + 1) % 2 ^ 64

unfoldable pub increment32 : ℕ → ℕ
increment32 x = (x + 1) % 2 ^ 32

-- `x + y` on `uint64_t`.
unfoldable pub add64 : ℕ → ℕ → ℕ
add64 x y = (x + y) % 2 ^ 64

-- `x - y` on `uint64_t`.
unfoldable pub sub64 : ℕ → ℕ → ℕ
sub64 x y = (x + 2 ^ 64 - y) % 2 ^ 64
