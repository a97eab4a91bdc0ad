-- ===== src/Lag/Probe/Counting.antt =====
-- The counters of `LagProbe` add up.
use reactor.Prelude.{ℕ, zero, suc, ◌+◌, ◌<◌, ◌≡◌, List, [], ◌∷◌, arith, length, total, u64}
use reactor.Lag.{buckets, index_of}
use reactor.Lag.Edges.{index_of_edges}
use reactor.Lag.Snapshot.{Snapshot, add_wake, bump_at}
use reactor.Lag.Probe.{Probe, Event, starts, stops, notes, fires, lateness, step, run}

abbrev sum : List ℕ → ℕ
sum = total (λ c. c)

bump_at-sum :
    (cs : List ℕ) (i : ℕ)
    → i < length cs
    → (length (bump_at cs i) ≡ length cs) × (u64 (sum (bump_at cs i)) ≡ u64 (sum cs + 1))
unfolding bump_at
bump_at-sum [] i h = absurd (omega arith)
bump_at-sum (c ∷ cs) zero h = omega arith
bump_at-sum (c ∷ cs) (suc i) h = omega (arith, bump_at-sum cs i (omega arith))

-- The buckets together hold as many wakes as the probe counts, in 64 bits.
pub record AddsUp (s : Snapshot) : Type 0 where
  pub size : length s.count ≡ buckets
  pub sum_counts : u64 (sum s.count) ≡ s.wakes

add_wake-AddsUp : (s : Snapshot) (us : ℕ) → AddsUp s → AddsUp (add_wake s us)
unfolding add_wake
add_wake-AddsUp s us v =
    omega (arith, bump_at-sum s.count (index_of us) (omega (arith, (index_of_edges us).0)))

step-AddsUp : (p : Probe) (e : Event) → AddsUp p.counters → AddsUp (step p e).counters
unfolding step
step-AddsUp p (starts now) v = ground arith
step-AddsUp p stops v = ground arith
step-AddsUp p notes v = ground arith
step-AddsUp p (fires error now again) v =
    ground (arith, add_wake-AddsUp p.counters (lateness now p))

-- Whatever is called on a probe and however its timer fires, its 124 buckets together hold as
-- many wakes as it counts.
pub run-AddsUp : (p : Probe) (es : List Event) → AddsUp p.counters → AddsUp (run p es).counters
unfolding run
run-AddsUp p [] v = v
run-AddsUp p (e ∷ es) v = run-AddsUp (step p e) es (step-AddsUp p e v)
