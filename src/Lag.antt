-- ===== src/Lag.antt =====
-- reactor_lag.h: the histogram of a loop's lateness, `LagSnapshot`. The probe that fills it is in
-- the child `Probe`.
mod Log2
pub mod Edges
pub mod Order
pub mod Snapshot
pub mod Probe
pub mod Quantile
pub mod Reading
use reactor.Prelude.{
  ℕ, zero, suc, ◌+◌, ◌-◌, ◌*◌, ◌/◌, ◌%◌, ◌^◌, List, [], ◌∷◌, if◌then◌else◌, ◌==◌, ltb, leb, u64,
  sub64, shr, shl,
}

-- The number of binary digits of `n`, below the fuel.
pub bit_length : ℕ → ℕ → ℕ
bit_length zero n = 0
bit_length (suc fuel) n = let rest = suc (bit_length fuel (n / 2)) in if n == 0 then 0 else rest

-- `__builtin_clzll`
pub clzll : ℕ → ℕ
unfolding bit_length
clzll n = 64 - bit_length 64 n

abbrev pub buckets : ℕ
buckets = 4 + 30 * 4

pub index_of : ℕ → ℕ
index_of us =
    if ltb us 4
    then us
    else if leb (2 ^ 32) us
    then buckets - 1
    else (let e : ℕ = 63 - clzll us in let sub : ℕ = shr us (e - 2) % 4 in 4 + (e - 2) * 4 + sub)

pub upper_us : ℕ → ℕ
upper_us i =
    if ltb i 4
    then i + 1
    else (let k : ℕ = i - 4 in let e : ℕ = k / 4 + 2 in shl (5 + k % 4) (e - 2))

pub lower_us : ℕ → ℕ
lower_us i = if i == 0 then 0 else upper_us (i - 1)
