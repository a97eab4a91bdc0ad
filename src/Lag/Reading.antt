-- ===== src/Lag/Reading.antt =====
-- reactor_lag.h: `LagProbe::snapshot` on another thread than the loop's, whose `tick` stores between
-- the loads.
pub mod Bounds
use reactor.Prelude.{
  ℕ, zero, suc, ◌+◌, ◌≡◌, refl, List, [], ◌∷◌, ◌++◌, none, some, if◌then◌else◌, ltb, u64, get_elem?,
}
use reactor.Lag.{buckets, index_of}
use reactor.Lag.Snapshot.{Snapshot, empty, bump_at, add_wake}

-- A store of `tick` to a counter. The loop is their only writer, so that a load and the store
-- after it are one step: `bump`, or the update of `max_us`.
pub data Store : Type 0 where
  bucket : (i : ℕ) → Store
  wake : Store
  lateness : (us : ℕ) → Store
  greatest : (us : ℕ) → Store

unfoldable pub store : Snapshot → Store → Snapshot
unfolding bump_at
store s (bucket i) = record s { count = bump_at s.count i }
store s wake = record s { wakes = u64 (s.wakes + 1) }
store s (lateness us) = record s { sum_us = u64 (s.sum_us + us) }
store s (greatest us) = record s { max_us = if ltb s.max_us us then us else s.max_us }

unfoldable pub stores : Snapshot → List Store → Snapshot
unfolding store
stores s [] = s
stores s (x ∷ xs) = stores (store s x) xs

-- The stores of `tick` for a wake that is `us` late.
abbrev pub tick_stores : ℕ → List Store
tick_stores us = bucket (index_of us) ∷ wake ∷ lateness us ∷ greatest us ∷ []

tick_stores_lem : (s : Snapshot) (us : ℕ) → stores s (tick_stores us) ≡ add_wake s us
unfolding stores add_wake
tick_stores_lem s us = refl

abbrev pub nth : List ℕ → ℕ → ℕ
nth cs i = elim (get_elem? cs i) [ none ↦ 0 | some c ↦ c ]

-- The loads of `n` buckets from bucket `i` on, and the counters after the last one. `between k` is what
-- the loop stores before load `k`.
pub read_counts : (between : ℕ → List Store) → (n i : ℕ) → Snapshot → List ℕ × Snapshot
unfolding stores
read_counts between zero i s = ([], s)
read_counts between (suc n) i s =
    let now : Snapshot = stores s (between i) in
    let (cs, last) = read_counts between n (i + 1) now in (nth now.count i ∷ cs, last)

-- The body of `snapshot()` for `n` buckets, and the counters after its last load.
unfoldable pub load_all : (n : ℕ) → (between : ℕ → List Store) → Snapshot → Snapshot × Snapshot
unfolding read_counts
load_all n between s =
    let (cs, at_counts) = read_counts between n 0 s in
    let at_wakes : Snapshot = stores at_counts (between n) in
    let at_sum : Snapshot = stores at_wakes (between (n + 1)) in
    let at_max : Snapshot = stores at_sum (between (n + 2)) in
    (
      record { count = cs; wakes = at_wakes.wakes; sum_us = at_sum.sum_us; max_us = at_max.max_us },
      at_max,
    )

unfoldable pub snapshot : (between : ℕ → List Store) → Snapshot → Snapshot × Snapshot
unfolding load_all
snapshot = load_all buckets
