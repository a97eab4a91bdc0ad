-- ===== src/Prelude/Words.antt =====
-- Machine words as natural numbers with their wrap-around.
use Prim.Native.Nat.{ℕ, ◌+◌, ◌-◌, ◌*◌, ◌/◌, ◌%◌, ◌^◌}

-- A result stored in a `uint64_t` or, on the 64-bit hosts that the library is built for, a `size_t`.
abbrev pub u64 : ℕ → ℕ
u64 n = n % 2 ^ 64

-- `a - b` in that width.
abbrev pub sub64 : ℕ → ℕ → ℕ
sub64 a b = (a + 2 ^ 64 - b) % 2 ^ 64

-- `numeric_limits<uint64_t>::max()`
abbrev pub u64_max : ℕ
u64_max = 2 ^ 64 - 1

-- `a >> k` and, in 64 bits, `a << k`.
abbrev pub shr : ℕ → ℕ → ℕ
shr a k = a / 2 ^ k

abbrev pub shl : ℕ → ℕ → ℕ
shl a k = u64 (a * 2 ^ k)

-- A result stored in a 32-bit `unsigned`.
abbrev pub u32 : ℕ → ℕ
u32 n = n % 2 ^ 32
