-- ===== src/Prelude/Words.antt =====
-- The arithmetic of `uarch_t`, which is 32 bits wide and wraps.
use Prim.Native.Nat.{ℕ, ◌+◌, ◌-◌, ◌^◌, ◌%◌}

abbrev pub add_uarch : ℕ → ℕ → ℕ
add_uarch a b = (a + b) % 2 ^ 32

abbrev pub sub_uarch : ℕ → ℕ → ℕ
sub_uarch a b = (a + 2 ^ 32 - b) % 2 ^ 32
