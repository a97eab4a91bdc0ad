-- ===== src/Lag/Reading/Bounds.antt =====
-- reactor_lag.h: what `LagProbe::snapshot` loads while the loop stores to the counters.
use reactor.Prelude.{
  ℕ, zero, suc, ◌+◌, ◌^◌, ◌≤◌, ◌<◌, ◌≡◌, List, [], ◌∷◌, ◌++◌, arith, length, total,
}
use reactor.Lag.{buckets}
use reactor.Lag.Snapshot.{Snapshot, bump_at}
use reactor.Lag.Reading.{
  Store, bucket, wake, lateness, greatest, store, stores, nth, read_counts, load_all, snapshot,
}

-- Every counter of the one snapshot is at most its counterpart in the other.
pub record Le (s t : Snapshot) : Type 0 where
  pub count : (i : ℕ) → nth s.count i ≤ nth t.count i
  pub wakes : s.wakes ≤ t.wakes
  pub sum_us : s.sum_us ≤ t.sum_us
  pub max_us : s.max_us ≤ t.max_us

abbrev added : Store → ℕ
added (bucket i) = 0
added wake = 0
added (lateness us) = us
added (greatest us) = 0

-- No counter wraps in the stores.
pub record Fits (s : Snapshot) (xs : List Store) : Type 0 where
  pub count : (i : ℕ) → nth s.count i + length xs < 2 ^ 64
  pub wakes : s.wakes + length xs < 2 ^ 64
  pub sum_us : s.sum_us + total added xs < 2 ^ 64

nth-bump_at :
    (cs : List ℕ) (i j : ℕ)
    → nth cs i + 1 < 2 ^ 64
    → (nth cs i ≤ nth (bump_at cs j) i) × (nth (bump_at cs j) i ≤ nth cs i + 1)
unfolding bump_at
nth-bump_at [] i j h = omega arith
nth-bump_at (c ∷ cs) zero zero h = omega arith
nth-bump_at (c ∷ cs) zero (suc j) h = omega arith
nth-bump_at (c ∷ cs) (suc i) zero h = omega arith
nth-bump_at (c ∷ cs) (suc i) (suc j) h = nth-bump_at cs i j h

Le_refl : (s : Snapshot) → Le s s
Le_refl s = ground arith

Le_trans : (s t u : Snapshot) → Le s t → Le t u → Le s u
Le_trans s t u a b = ground (arith, a.count, b.count)

store-Fits :
    (s : Snapshot) (x : Store) (xs : List Store)
    → Fits s (x ∷ xs)
    → Le s (store s x) × Fits (store s x) xs
unfolding store
store-Fits s (bucket j) xs f =
    let b = λ (i : ℕ). nth-bump_at s.count i j (omega (arith, f.count i)) in
    ground (arith, b, f.count)
store-Fits s wake xs f = ground (arith, f.count)
store-Fits s (lateness us) xs f = ground (arith, f.count)
store-Fits s (greatest us) xs f = ground (arith, f.count)

stores-Fits :
    (s : Snapshot) (xs ys : List Store)
    → Fits s (xs ++ ys)
    → Le s (stores s xs) × Fits (stores s xs) ys
unfolding stores
stores-Fits s [] ys f = (Le_refl s, f)
stores-Fits s (x ∷ xs) ys f =
    let (a, g) = store-Fits s x (xs ++ ys) f in
    let (b, h) = stores-Fits (store s x) xs ys g in
    (Le_trans s (store s x) (stores (store s x) xs) a b, h)

-- What the loop stores before loads `i` to `i + n - 1`, and `ys` after them.
abbrev spanned : (between : ℕ → List Store) → (n i : ℕ) → List Store → List Store
spanned between zero i ys = ys
spanned between (suc n) i ys = between i ++ spanned between n (i + 1) ys

-- A bucket is loaded between its value before and its value after.
record Counted (s t : Snapshot) (i : ℕ) (cs : List ℕ) (n : ℕ) : Type 0 where
  before : (k : ℕ) → k < n → nth s.count (i + k) ≤ nth cs k
  after : (k : ℕ) → k < n → nth cs k ≤ nth t.count (i + k)

read_counts-Fits :
    (between : ℕ → List Store) (n i : ℕ) (s : Snapshot) (ys : List Store)
    → Fits s (spanned between n i ys)
    → Le s (read_counts between n i s).1
      × Fits (read_counts between n i s).1 ys
      × Counted s (read_counts between n i s).1 i (read_counts between n i s).0 n
unfolding read_counts
read_counts-Fits between zero i s ys f = (
  Le_refl s,
  f,
  record { before = λ k h. absurd (omega arith); after = λ k h. absurd (omega arith) },
)
read_counts-Fits between (suc n) i s ys f =
    let now : Snapshot = stores s (between i) in
    let (a, g) = stores-Fits s (between i) (spanned between n (i + 1) ys) f in
    let (b, r, c) = read_counts-Fits between n (i + 1) now ys g in
    let last : Snapshot = (read_counts between n (i + 1) now).1 in
    let cs : List ℕ = (read_counts between n (i + 1) now).0 in
    (
      Le_trans s now last a b,
      r,
      record {
        before = Counted_before s now i n cs a c.before;
        after = Counted_after now last i n cs b c.after;
      },
    )
  where
    Counted_before :
        (s now : Snapshot) (i n : ℕ) (cs : List ℕ)
        → Le s now
        → ((k : ℕ) → k < n → nth now.count (i + 1 + k) ≤ nth cs k)
        → (k : ℕ) → k < suc n
        → nth s.count (i + k) ≤ nth (nth now.count i ∷ cs) k
    Counted_before s now i n cs a c zero h = let e : i + 0 ≡ i = omega arith in rw e (a.count i)
    Counted_before s now i n cs a c (suc k) h =
        let e : i + suc k ≡ i + 1 + k = omega arith in
        let le : nth s.count (i + 1 + k) ≤ nth cs k =
          omega (arith, a.count (i + 1 + k), c k (omega arith)) in
        rw e le

    Counted_after :
        (now last : Snapshot) (i n : ℕ) (cs : List ℕ)
        → Le now last
        → ((k : ℕ) → k < n → nth cs k ≤ nth last.count (i + 1 + k))
        → (k : ℕ) → k < suc n
        → nth (nth now.count i ∷ cs) k ≤ nth last.count (i + k)
    Counted_after now last i n cs b c zero h = let e : i + 0 ≡ i = omega arith in rw e (b.count i)
    Counted_after now last i n cs b c (suc k) h =
        let e : i + suc k ≡ i + 1 + k = omega arith in rw e (c k (omega arith))

-- What the loop stores before the loads of a snapshot of `n` buckets.
abbrev meanwhile_of : ℕ → (ℕ → List Store) → List Store
meanwhile_of n between =
    spanned between n 0 (between n ++ (between (n + 1) ++ (between (n + 2) ++ [])))

abbrev pub meanwhile : (ℕ → List Store) → List Store
meanwhile = meanwhile_of buckets

pub record Bounds (n : ℕ) (s r t : Snapshot) : Type 0 where
  pub count : (i : ℕ) → i < n → (nth s.count i ≤ nth r.count i) × (nth r.count i ≤ nth t.count i)
  pub wakes : (s.wakes ≤ r.wakes) × (r.wakes ≤ t.wakes)
  pub sum_us : (s.sum_us ≤ r.sum_us) × (r.sum_us ≤ t.sum_us)
  pub max_us : (s.max_us ≤ r.max_us) × (r.max_us ≤ t.max_us)

load_all-Bounds :
    (n : ℕ) (between : ℕ → List Store) (s : Snapshot)
    → Fits s (meanwhile_of n between)
    → Bounds n s (load_all n between s).0 (load_all n between s).1
unfolding load_all
load_all-Bounds n between s f =
    let ys : List Store = between n ++ (between (n + 1) ++ (between (n + 2) ++ [])) in
    let (a, g, c) = read_counts-Fits between n 0 s ys f in
    let at_counts : Snapshot = (read_counts between n 0 s).1 in
    let at_wakes : Snapshot = stores at_counts (between n) in
    let at_sum : Snapshot = stores at_wakes (between (n + 1)) in
    let (w, g1) =
      stores-Fits at_counts (between n) (between (n + 1) ++ (between (n + 2) ++ [])) g in
    let (u, g2) = stores-Fits at_wakes (between (n + 1)) (between (n + 2) ++ []) g1 in
    let (m, g3) = stores-Fits at_sum (between (n + 2)) [] g2 in
    let from = λ (i : ℕ). let e : 0 + i ≡ i = omega arith in e in
    record {
      count = λ i h. (
        rw (from i) at (c.before i h),
        omega (arith, rw (from i) at (c.after i h), w.count i, u.count i, m.count i),
      );
      wakes = omega (arith, a.wakes, w.wakes, u.wakes, m.wakes);
      sum_us = omega (arith, a.sum_us, w.sum_us, u.sum_us, m.sum_us);
      max_us = omega (arith, a.max_us, w.max_us, u.max_us, m.max_us);
    }

-- Whatever the loop stores between the loads of a snapshot, as long as no counter wraps, each of
-- the 124 buckets, the number of wakes, the sum and the greatest lateness that the snapshot holds
-- is at least what the counter was before the first load and at most what it is after the last.
pub snapshot-Bounds :
    (between : ℕ → List Store) (s : Snapshot)
    → Fits s (meanwhile between)
    → Bounds buckets s (snapshot between s).0 (snapshot between s).1
unfolding snapshot
snapshot-Bounds = load_all-Bounds buckets
