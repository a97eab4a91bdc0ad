-- ===== src/Examples/Probes.antt =====
-- reactor_lag.h: latenesses around the edges of buckets, and a probe that is started and fires.
use reactor.Prelude.{
  ◌+◌, ℕ, zero, suc, ◌-◌, ◌*◌, ◌/◌, ◌^◌, ◌≤◌, ◌<◌, ◌≡◌, ◌⊎◌, refl, true, false, List, [], ◌∷◌,
  arith, ltb, replicate, if◌then◌else◌, ◌==◌,
}
use reactor.Lag.{buckets, index_of, lower_us, upper_us}
use reactor.Lag.Edges.{index_of_edges}
use reactor.Lag.Snapshot.{empty, add_wakes, since, IsValid, since_lem}
use reactor.Lag.Quantile.{Double, quantile_upper_us, quantile_rank, IsLeast, HasRank, sum}
use reactor.Lag.Probe.{Operation, Event, starts, stops, notes, fires}
use reactor.Lag.Reading.{Store, tick_stores, nth, snapshot}
use reactor.Lag.Reading.Bounds.{Bounds, snapshot-Bounds}
use reactor.Lag.Probe.Slot as Slot

index_of_edges_example :
    (index_of 1000 < buckets)
    × (((1000 < 2 ^ 32) × (lower_us (index_of 1000) ≤ 1000) × (1000 < upper_us (index_of 1000)))
        ⊎ ((2 ^ 32 ≤ 1000) × (index_of 1000 ≡ buckets - 1)))
index_of_edges_example = index_of_edges 1000

empty-IsValid : IsValid empty
unfolding empty
empty-IsValid = record {
  count = ground arith;
  length = refl;
  wakes = omega arith;
  sum_us = omega arith;
}

since_lem_example :
    since (add_wakes empty (3 ∷ 1000 ∷ [])) empty
    ≡ record (add_wakes empty (3 ∷ 1000 ∷ [])) { max_us = (add_wakes empty (3 ∷ 1000 ∷ [])).max_us }
since_lem_example = since_lem empty (3 ∷ 1000 ∷ []) empty-IsValid

halves-times-le : (q : ℕ) → q ≤ 2 → (n : ℕ) → n < 2 ^ 53 → ltb (2 * n) (q * (2 * n) / 2) ≡ false
halves-times-le zero h n b = ground arith
halves-times-le (suc zero) h n b = ground arith
halves-times-le (suc (suc zero)) h n b = ground arith
halves-times-le (suc (suc (suc q))) h n b = absurd (omega arith)

halves-cut_below : (x m : ℕ) → m < x / 2 → ltb (2 * m) x ≡ true
halves-cut_below x m h = ground arith

halves-cut_above : (x : ℕ) → ltb (2 * (x / 2 + 1)) x ≡ false
halves-cut_above x = ground arith

-- Numbers counted in halves.
abbrev halves : Double
halves = record {
  Real = ℕ;
  IsFraction = λ q. q ≤ 2;
  of_u64 = λ n. 2 * n;
  to_u64 = λ r. r / 2;
  times = λ q x. q * x / 2;
  less = ltb;
  times-le = halves-times-le;
  cut_below = λ q f n m h. halves-cut_below (q * (2 * n) / 2) m;
  cut_above = λ q f n h. halves-cut_above (q * (2 * n) / 2);
}

quantile_rank_example :
    ((sum (1 ∷ 0 ∷ 3 ∷ []) ≡ 0) × (quantile_upper_us halves 1 (1 ∷ 0 ∷ 3 ∷ []) ≡ 0))
    ⊎ ((need : ℕ) × (i : ℕ) × IsLeast halves 1 4 need
        × HasRank (1 ∷ 0 ∷ 3 ∷ []) need i
        × (quantile_upper_us halves 1 (1 ∷ 0 ∷ 3 ∷ []) ≡ upper_us i))
quantile_rank_example = quantile_rank halves 1 (1 ∷ 0 ∷ 3 ∷ []) (omega arith) (omega arith)

abbrev wait_op : Operation
wait_op = record { bytes = 96; alignment = 8; max_alignment = 16 }

abbrev events : List Event
events = starts 0 ∷ starts 5 ∷ notes ∷ fires false 100000000 100000500 ∷ stops ∷ fires true 0 0 ∷ []

nth-replicate : (n i : ℕ) → nth (replicate n 0) i ≡ 0
nth-replicate zero i = refl
nth-replicate (suc n) zero = refl
nth-replicate (suc n) (suc i) = nth-replicate n i

-- The loop wakes between the loads of buckets 4 and 5.
abbrev wakes_at_5 : ℕ → List Store
wakes_at_5 k = if k == 5 then tick_stores 1000 else []

snapshot-Bounds_example :
    Bounds buckets empty (snapshot wakes_at_5 empty).0 (snapshot wakes_at_5 empty).1
snapshot-Bounds_example = snapshot-Bounds wakes_at_5 empty (
    unfold empty in
    record {
      count = λ i. let e : nth (replicate 124 0) i ≡ 0 = nth-replicate 124 i in omega (arith, e);
      wakes = omega arith;
      sum_us = omega arith;
    })
