-- ===== src/Lag/Log2.antt =====
-- The exponent that `index_of` computes from `__builtin_clzll` is the binary logarithm.
use native.Mathlib.Nat.{pow-suc, div-eq_of_lt-le}
use reactor.Prelude.{ℕ, zero, suc, ◌+◌, ◌-◌, ◌*◌, ◌/◌, ◌%◌, ◌^◌, ◌≤◌, ◌<◌, ◌≡◌, refl, arith, dec_lt}
use reactor.Lag.{bit_length, clzll}

bit_length-zero : (fuel : ℕ) → bit_length fuel 0 ≡ 0
unfolding bit_length
bit_length-zero zero = refl
bit_length-zero (suc fuel) = refl

-- The digits of a positive number that the fuel covers.
pub bit_length_bounds :
    (fuel n : ℕ)
    → n < 2 ^ fuel
    → 0 < n
    → (b : ℕ) × (bit_length fuel n ≡ suc b) × (b < fuel) × (2 ^ b ≤ n) × (n < 2 ^ suc b)
unfolding bit_length
bit_length_bounds zero n h pos = absurd (omega arith)
bit_length_bounds (suc fuel) n h pos = elim (dec_lt 1 n) [
  | yes more ↦
      let (b, e, lt, low, high) =
        bit_length_bounds fuel (n / 2) (omega (arith, pow-suc 2 fuel)) (omega arith) in
      (
        suc b,
        ground (arith, e),
        omega arith,
        omega (arith, pow-suc 2 b),
        omega (arith, pow-suc 2 b, pow-suc 2 (suc b)),
      )
  | no one ↦
      let e : n ≡ 1 = omega arith in
      rw e (0, ground (arith, bit_length-zero fuel), omega arith, omega arith, omega arith)
]

-- The exponent of a 64-bit number: `63 - clzll n` is the greatest `e` with `2 ^ e ≤ n`.
pub clzll_bounds :
    (n : ℕ)
    → 0 < n
    → n < 2 ^ 64
    → (63 - clzll n < 64) × (2 ^ (63 - clzll n) ≤ n) × (n < 2 ^ suc (63 - clzll n))
unfolding clzll
clzll_bounds n pos h =
    let (b, e, lt, low, high) = bit_length_bounds 64 n h pos in
    let exponent : 63 - (64 - bit_length 64 n) ≡ b = omega (arith, e) in rw exponent (lt, low, high)

pub pow_mono : (a b : ℕ) → a ≤ b → 2 ^ a ≤ 2 ^ b
pow_mono a zero h = let e : a ≡ 0 = omega arith in rw e (omega arith)
pow_mono a (suc b) h = elim (dec_lt a (suc b)) [
  | yes lt ↦ omega (arith, pow-suc 2 b, pow_mono a b (omega arith))
  | no ge ↦ let e : a ≡ suc b = omega arith in rw e (omega arith)
]

exponent_split :
    (e n : ℕ)
    → 2 ^ e ≤ n
    → n < 2 ^ suc e
    → 4 ≤ n
    → n < 2 ^ 32
    → (k : ℕ) × (e ≡ k + 2) × (k < 30) × (4 * 2 ^ k ≤ n) × (n < 8 * 2 ^ k)
exponent_split zero n le lt low high = absurd (omega arith)
exponent_split (suc zero) n le lt low high = absurd (omega arith)
exponent_split (suc (suc k)) n le lt low high = (
  k,
  omega arith,
  elim (dec_lt k 30) [
    | yes below ↦ below
    | no above ↦ absurd (omega (arith, pow_mono 30 k, pow-suc 2 k, pow-suc 2 (suc k)))
  ],
  omega (arith, pow-suc 2 k, pow-suc 2 (suc k)),
  omega (arith, pow-suc 2 k, pow-suc 2 (suc k), pow-suc 2 (suc (suc k))),
)

-- Below `2 ^ 32` and from 4 on, the exponent is `k + 2` with `k` below 30, and the number lies in
-- the four buckets of width `2 ^ k`.
pub exponent_range :
    (n : ℕ)
    → 4 ≤ n
    → n < 2 ^ 32
    → (k : ℕ) × (63 - clzll n ≡ k + 2) × (k < 30) × (4 * 2 ^ k ≤ n) × (n < 8 * 2 ^ k)
exponent_range n low high =
    let (_, le, lt) = clzll_bounds n (omega arith) (omega arith) in
    exponent_split (63 - clzll n) n le lt low high

-- The quotient by a width, where the number lies in the four buckets of that width.
pub quotient_range :
    (n p : ℕ)
    → 4 * p ≤ n
    → n < 8 * p
    → (s : ℕ) × (n / p % 4 ≡ s) × (s < 4) × ((4 + s) * p ≤ n) × (n < (5 + s) * p)
quotient_range n p low high = elim (dec_lt n (5 * p)) [
  | yes a ↦ (0, rw (div-eq_of_lt-le {k = 4} p low a), omega arith, low, a)
  | no a ↦ elim (dec_lt n (6 * p)) [
    | yes b ↦ (1, rw (div-eq_of_lt-le {k = 5} p (omega arith) b), omega arith, omega arith, b)
    | no b ↦ elim (dec_lt n (7 * p)) [
      | yes c ↦ (2, rw (div-eq_of_lt-le {k = 6} p (omega arith) c), omega arith, omega arith, c)
      | no c ↦
          (3, rw (div-eq_of_lt-le {k = 7} p (omega arith) high), omega arith, omega arith, high)
    ]
  ]
]
