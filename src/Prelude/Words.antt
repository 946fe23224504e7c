-- ===== src/Prelude/Words.antt =====
-- Unsigned machine words: wrap-around written out.
use Prim.Native.Nat.{ℕ, ◌+◌, ◌%◌, ◌^◌}

abbrev pub u8 : ℕ → ℕ
u8 n = n % 2 ^ 8

abbrev pub u16 : ℕ → ℕ
u16 n = n % 2 ^ 16

abbrev pub u64 : ℕ → ℕ
u64 n = n % 2 ^ 64

-- `++counter` on a `uint64_t`.
abbrev pub bump : ℕ → ℕ
bump n = u64 (n + 1)
