-- ===== src/Base/Words.antt =====
-- Unsigned machine words as native numbers: the casts of C cut off the high bits.
use Prim.Native.Nat.{ℕ, ◌+◌, ◌-◌, ◌%◌, ◌^◌}

abbrev pub u8 : ℕ → ℕ
u8 n = n % 2 ^ 8

abbrev pub u16 : ℕ → ℕ
u16 n = n % 2 ^ 16

abbrev pub u32 : ℕ → ℕ
u32 n = n % 2 ^ 32

abbrev pub u64 : ℕ → ℕ
u64 n = n % 2 ^ 64

-- 0xFFFFFFFFFFFFFFFF, also `~0ULL`.
abbrev pub all_ones : ℕ
all_ones = 0xffff_ffff_ffff_ffff

-- `~x` of a `uint64_t`.
abbrev pub not64 : ℕ → ℕ
not64 x = all_ones - x

-- `a - b` of two `uint64_t`.
abbrev pub sub64 : ℕ → ℕ → ℕ
sub64 a b = (a + 2 ^ 64 - b) % 2 ^ 64

-- `1ULL << bit`, for a shift below 64.
abbrev pub one_bit : ℕ → ℕ
one_bit bit = 2 ^ bit % 2 ^ 64
