-- ===== src/Lag/Edges.antt =====
-- The edges of the buckets of `LagSnapshot`.
use native.Mathlib.Nat.{mod-eq_of_lt, pow-suc}
use reactor.Prelude.{
  ℕ, zero, suc, ◌+◌, ◌-◌, ◌*◌, ◌/◌, ◌%◌, ◌^◌, ◌≤◌, ◌<◌, ◌≡◌, refl, ◌⊎◌, inl, inr, arith, dec_lt,
  ltb, leb, false, ◌==◌,
}
use reactor.Lag.{buckets, clzll, index_of, upper_us, lower_us}
use reactor.Lag.Log2.{exponent_range, quotient_range, pow_mono}

-- The upper edge of the bucket `s` among the four of width `2 ^ k`.
pub upper_us_lem : (k s : ℕ) → k < 30 → s < 4 → upper_us (4 + k * 4 + s) ≡ (5 + s) * 2 ^ k
unfolding upper_us
upper_us_lem k s hk hs =
    let a : (4 + k * 4 + s - 4) / 4 + 2 - 2 ≡ k = omega arith in
    let b : (4 + k * 4 + s - 4) % 4 ≡ s = omega arith in
    let fits : (5 + s) * 2 ^ k < 2 ^ 64 = grind (arith, pow_mono k 29 (omega arith)) in
    let above : ltb (4 + k * 4 + s) 4 ≡ false = ground arith in rw (above, a, b) (mod-eq_of_lt fits)

-- And its lower edge.
pub lower_us_lem : (k s : ℕ) → k < 30 → s < 4 → lower_us (4 + k * 4 + s) ≡ (4 + s) * 2 ^ k
unfolding lower_us upper_us
lower_us_lem zero zero hk hs = refl
lower_us_lem (suc k) zero hk hs =
    let below : 4 + suc k * 4 + 0 - 1 ≡ 4 + k * 4 + 3 = omega arith in
    let positive : (4 + suc k * 4 + 0 == 0) ≡ false = ground arith in
    rw (positive, below, upper_us_lem k 3 (omega arith) (omega arith)) (omega (arith, pow-suc 2 k))
lower_us_lem k (suc s) hk hs =
    let below : 4 + k * 4 + suc s - 1 ≡ 4 + k * 4 + s = omega arith in
    let positive : (4 + k * 4 + suc s == 0) ≡ false = ground arith in
    rw (positive, below, upper_us_lem k s hk (omega arith)) (omega arith)

index_of_small : (us : ℕ) → us < 4 → index_of us ≡ us
unfolding index_of
index_of_small us h = ground arith

index_of_large : (us : ℕ) → 2 ^ 32 ≤ us → index_of us ≡ buckets - 1
unfolding index_of
index_of_large us h = ground arith

index_of_lem :
    (us k s : ℕ)
    → 4 ≤ us
    → us < 2 ^ 32
    → 63 - clzll us ≡ k + 2
    → us / 2 ^ k % 4 ≡ s
    → index_of us ≡ 4 + k * 4 + s
unfolding index_of
index_of_lem us k s low high e sub =
    let a : ltb us 4 ≡ false = ground arith in
    let b : leb (2 ^ 32) us ≡ false = ground arith in
    let c : k + 2 - 2 ≡ k = omega arith in rw (a, b, e, c, sub)

pub small_edges : (us : ℕ) → us < 4 → (lower_us us ≤ us) × (us < upper_us us)
unfolding lower_us upper_us
small_edges us h = ground arith

-- Below `2 ^ 32` microseconds, a lateness lies between the edges of the bucket that counts it:
-- from the lower edge on, and below the upper one. Beyond that it is counted in the last bucket.
pub index_of_edges :
    (us : ℕ)
    → (index_of us < buckets)
      × (((us < 2 ^ 32) × (lower_us (index_of us) ≤ us) × (us < upper_us (index_of us)))
          ⊎ ((2 ^ 32 ≤ us) × (index_of us ≡ buckets - 1)))
index_of_edges us = elim (dec_lt us 4) [
  | yes small ↦
      rw (index_of_small us small)
        (omega arith, inl (omega arith, (small_edges us small).0, (small_edges us small).1))
  | no four ↦ elim (dec_lt us (2 ^ 32)) [
    | no big ↦
        let last : index_of us ≡ buckets - 1 = index_of_large us (omega arith) in
        rw last (omega arith, inr (omega arith, refl))
    | yes mid ↦
        let (k, e, hk, low, high) = exponent_range us (omega arith) mid in
        let (s, sub, hs, le, lt) = quotient_range us (2 ^ k) low high in
        rw
          (
            index_of_lem us k s (omega arith) mid e sub,
            lower_us_lem k s hk hs,
            upper_us_lem k s hk hs,
          )
          (omega arith, inl (mid, le, lt))
  ]
]
