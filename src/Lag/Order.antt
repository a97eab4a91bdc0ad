-- ===== src/Lag/Order.antt =====
-- The buckets of `LagSnapshot` in order, and how wide they are.
use native.Mathlib.Nat.{one-le-pow}
use reactor.Prelude.{ℕ, zero, suc, ◌+◌, ◌-◌, ◌*◌, ◌/◌, ◌%◌, ◌^◌, ◌≤◌, ◌<◌, ◌≡◌, arith, dec_lt}
use reactor.Lag.{buckets, index_of, upper_us, lower_us}
use reactor.Lag.Edges.{upper_us_lem, lower_us_lem, small_edges, index_of_edges}

-- The place of a bucket from 4 on among the groups of four.
record Place (i : ℕ) : Type 0 where
  group : ℕ
  sub : ℕ
  here : i ≡ 4 + group * 4 + sub
  group_lt : group < 30
  sub_lt : sub < 4
  pos : 1 ≤ 2 ^ group

place : (i : ℕ) → 4 ≤ i → i < buckets → Place i
place i low high = record {
  group = (i - 4) / 4;
  sub = (i - 4) % 4;
  here = omega arith;
  group_lt = omega arith;
  sub_lt = omega arith;
  pos = one-le-pow ((i - 4) / 4) 2 (omega arith);
}

-- From the fifth bucket on, a bucket's width is at most a quarter of its lower edge and at least
-- an eighth of its upper edge.
pub bucket_width :
    (i : ℕ)
    → 4 ≤ i
    → i < buckets
    → (4 * (upper_us i - lower_us i) ≤ lower_us i) × (upper_us i ≤ 8 * (upper_us i - lower_us i))
bucket_width i low high =
    let p = place i low high in
    rw
      (
        p.here,
        upper_us_lem p.group p.sub p.group_lt p.sub_lt,
        lower_us_lem p.group p.sub p.group_lt p.sub_lt,
      )
      (grind arith, grind arith)

lower-lt_small : (i : ℕ) → i < 4 → lower_us i < upper_us i
lower-lt_small i h = omega (arith, small_edges i h)

-- A bucket begins where the one before it ends.
lower_us-suc : (i : ℕ) → lower_us (suc i) ≡ upper_us i
unfolding lower_us
lower_us-suc i = let e : suc i - 1 ≡ i = omega arith in rw e (ground arith)

pub lower-lt-upper : (i : ℕ) → i < buckets → lower_us i < upper_us i
lower-lt-upper i h = elim (dec_lt i 4) [
  | yes small ↦ lower-lt_small i small
  | no mid ↦
      let p = place i (omega arith) h in
      let up = upper_us_lem p.group p.sub p.group_lt p.sub_lt in
      let low = lower_us_lem p.group p.sub p.group_lt p.sub_lt in
      rw (p.here, up, low) (omega (arith, p.pos))
]

upper_mono : (i j : ℕ) → i ≤ j → j < buckets → upper_us i ≤ upper_us j
upper_mono i zero h b = let e : i ≡ 0 = omega arith in rw e (omega arith)
upper_mono i (suc j) h b = elim (dec_lt i (suc j)) [
  | yes lt ↦
      omega (
        arith,
        upper_mono i j (omega arith) (omega arith),
        lower-lt-upper (suc j) b,
        lower_us-suc j,
      )
  | no ge ↦ let e : i ≡ suc j = omega arith in rw e (omega arith)
]

-- A greater lateness is never counted in a lower bucket.
pub index_of_mono : (us vs : ℕ) → us ≤ vs → index_of us ≤ index_of vs
index_of_mono us vs h = ground (
  arith,
  index_of_edges us,
  index_of_edges vs,
  lower_us-suc (index_of us - 1),
  upper_mono (index_of vs) (index_of us - 1),
)
