-- ===== src/Prelude/Words.antt =====
-- Unsigned machine words of C as native numbers, with the wrap-around written out.
use Prim.Native.Nat.{ℕ, ◌+◌, ◌-◌, ◌%◌, ◌^◌}

abbrev pub u8 : ℕ → ℕ
u8 n = n % 2 ^ 8

abbrev pub u16 : ℕ → ℕ
u16 n = n % 2 ^ 16

abbrev pub u32 : ℕ → ℕ
u32 n = n % 2 ^ 32

abbrev pub u64 : ℕ → ℕ
u64 n = n % 2 ^ 64

-- `a - b` on words that are in range: the modulus is added first, since `-` on ℕ stops at 0.
abbrev pub sub_u32 : ℕ → ℕ → ℕ
sub_u32 a b = (a + 2 ^ 32 - b) % 2 ^ 32

abbrev pub sub_u64 : ℕ → ℕ → ℕ
sub_u64 a b = (a + 2 ^ 64 - b) % 2 ^ 64

-- `~a` on 32 and on 64 bits.
abbrev pub not_u32 : ℕ → ℕ
not_u32 a = 2 ^ 32 - 1 - a

abbrev pub not_u64 : ℕ → ℕ
not_u64 a = 2 ^ 64 - 1 - a
