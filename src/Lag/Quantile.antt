-- ===== src/Lag/Quantile.antt =====
-- `LagSnapshot::quantile_upper_us`. The arithmetic of `double` is a parameter.
use reactor.Prelude.{
  ℕ, suc, ◌+◌, ◌-◌, ◌^◌, ◌≤◌, ◌<◌, ◌≡◌, ap, ◌∙◌, List, [], ◌∷◌, Bool, false, arith, if◌then◌else◌,
  ◌==◌, leb, u64, take, length, total, Bool-cases, inl, inr, leb→le, dec_lt, ◌⊎◌, sym, false≢true,
  true, subst,
}
use reactor.Lag.{buckets, upper_us}

-- The operations on `double` that the function uses, with what they do to the product of a fraction
-- between 0 and 1 and a count that a `double` holds exactly: the product is at most the count, and
-- the conversion to an integer cuts it off, so that smaller integers are less than the product and
-- the next integer is not.
pub record Double : Type 1 where
  pub Real : Type 0
  pub IsFraction : Real → Type 0
  pub of_u64 : ℕ → Real
  pub to_u64 : Real → ℕ
  pub times : Real → Real → Real
  pub less : Real → Real → Bool
  pub times-le :
      (q : Real)
      → IsFraction q
      → (n : ℕ) → n < 2 ^ 53
      → less (of_u64 n) (times q (of_u64 n)) ≡ false
  pub cut_below :
      (q : Real)
      → IsFraction q
      → (n m : ℕ) → n < 2 ^ 53
      → m < to_u64 (times q (of_u64 n))
      → less (of_u64 m) (times q (of_u64 n)) ≡ true
  pub cut_above :
      (q : Real)
      → IsFraction q
      → (n : ℕ) → n < 2 ^ 53
      → less (of_u64 (to_u64 (times q (of_u64 n)) + 1)) (times q (of_u64 n)) ≡ false

-- The sum of the counts in a 64-bit variable.
pub sum_counts : ℕ → List ℕ → ℕ
sum_counts acc [] = acc
sum_counts acc (c ∷ cs) = sum_counts (u64 (acc + c)) cs

-- The loop over the buckets from `i` on.
pub find_rank : ℕ → ℕ → ℕ → List ℕ → ℕ
find_rank need seen i [] = upper_us (buckets - 1)
find_rank need seen i (c ∷ cs) =
    let rest = find_rank need (u64 (seen + c)) (i + 1) cs in
    if leb need (u64 (seen + c)) then upper_us i else rest

sum_counts-total :
    (acc : ℕ) (cs : List ℕ)
    → acc + total (λ c. c) cs < 2 ^ 64
    → sum_counts acc cs ≡ acc + total (λ c. c) cs
unfolding sum_counts
sum_counts-total acc [] h = omega arith
sum_counts-total acc (c ∷ cs) h =
    let e : u64 (acc + c) ≡ acc + c = omega arith in
    rw e (omega (arith, sum_counts-total (acc + c) cs))

abbrev pub sum : List ℕ → ℕ
sum = total (λ c. c)

-- Bucket `i` is the one that holds the item of rank `need`, counted from 1.
pub record HasRank (counts : List ℕ) (need i : ℕ) : Type 0 where
  pub bucket : i < length counts
  pub before : sum (take i counts) < need
  pub through : need ≤ sum (take (suc i) counts)

find_rank-HasRank :
    (need seen i : ℕ) (cs : List ℕ)
    → seen + sum cs < 2 ^ 64
    → seen < need
    → need ≤ seen + sum cs
    → (j : ℕ) × (find_rank need seen i cs ≡ upper_us (i + j))
      × (j < length cs)
      × (seen + sum (take j cs) < need)
      × (need ≤ seen + sum (take (suc j) cs))
unfolding find_rank
find_rank-HasRank need seen i [] fits low high = absurd (omega arith)
find_rank-HasRank need seen i (c ∷ cs) fits low high =
    let e : u64 (seen + c) ≡ seen + c = omega arith in
    elim (Bool-cases (leb need (seen + c))) [
      | inl here ↦
          let z : i ≡ i + 0 = omega arith in
          rw (e, here)
            (0, ap upper_us z, omega arith, omega arith, omega (arith, leb→le need (seen + c) here))
      | inr after ↦
          let (j, eq, lt, before, through) =
            find_rank-HasRank need (seen + c) (i + 1) cs (omega arith) (ground arith)
              (omega arith) in
          let z : i + 1 + j ≡ i + suc j = omega arith in
          rw (e, after) (suc j, eq ∙ ap upper_us z, omega arith, omega arith, omega arith)
    ]

module _ (d : Double) where
  open d use {Real, IsFraction, of_u64, to_u64, times, less, times-le, cut_below, cut_above}

  -- The rank that a fraction of `count` items stands for: the product rounded up, at least 1.
  pub need_of : Real → ℕ → ℕ
  need_of q count =
      let x : Real = times q (of_u64 count) in
      let need : ℕ = to_u64 x in
      let rounded : ℕ = if less (of_u64 need) x then u64 (need + 1) else need in
      if rounded == 0 then 1 else rounded

  pub quantile_upper_us : Real → List ℕ → ℕ
  quantile_upper_us q counts =
      let all : ℕ = sum_counts 0 counts in
      if all == 0 then 0 else find_rank (need_of q all) 0 0 counts

  -- The rank of the fraction `q` of `n` items: the least positive one that is not less than the product.
  pub record IsLeast (q : Real) (n need : ℕ) : Type 0 where
    pub positive : 0 < need
    pub covers : less (of_u64 need) (times q (of_u64 n)) ≡ false
    pub least : (m : ℕ) → 0 < m → m < need → less (of_u64 m) (times q (of_u64 n)) ≡ true

  cut-le : (q : Real) (n : ℕ) → IsFraction q → n < 2 ^ 53 → to_u64 (times q (of_u64 n)) ≤ n
  cut-le q n f h = elim (dec_lt n (to_u64 (times q (of_u64 n)))) [
    | yes over ↦ absurd (false≢true (sym (times-le q f n h) ∙ cut_below q f n n h over))
    | no within ↦ omega arith
  ]

  up-IsLeast :
      (q : Real) (n : ℕ)
      → IsFraction q
      → n < 2 ^ 53
      → less (of_u64 (to_u64 (times q (of_u64 n)))) (times q (of_u64 n)) ≡ true
      → IsLeast q n (to_u64 (times q (of_u64 n)) + 1)
  up-IsLeast q n f h up = record {
    positive = omega arith;
    covers = cut_above q f n h;
    least = λ m pos lt. elim (dec_lt m (to_u64 (times q (of_u64 n)))) [
      | yes below ↦ cut_below q f n m h below
      | no same ↦
          let e : m ≡ to_u64 (times q (of_u64 n)) = omega arith in
          subst (λ k. less (of_u64 k) (times q (of_u64 n)) ≡ true) (sym e) up
    ];
  }

  whole-IsLeast :
      (q : Real) (n : ℕ)
      → IsFraction q
      → n < 2 ^ 53
      → 0 < to_u64 (times q (of_u64 n))
      → less (of_u64 (to_u64 (times q (of_u64 n)))) (times q (of_u64 n)) ≡ false
      → IsLeast q n (to_u64 (times q (of_u64 n)))
  whole-IsLeast q n f h pos whole = record {
    positive = pos;
    covers = whole;
    least = λ m p lt. cut_below q f n m h lt;
  }

  zero-IsLeast :
      (q : Real) (n : ℕ)
      → IsFraction q
      → n < 2 ^ 53
      → to_u64 (times q (of_u64 n)) ≡ 0
      → IsLeast q n 1
  zero-IsLeast q n f h none' = record {
    positive = omega arith;
    covers =
        subst (λ c. less (of_u64 (c + 1)) (times q (of_u64 n)) ≡ false) none' (cut_above q f n h);
    least = λ m pos lt. absurd (omega arith);
  }

  need_of_rounded :
      (q : Real) (n : ℕ)
      → to_u64 (times q (of_u64 n)) < 2 ^ 53
      → let c = to_u64 (times q (of_u64 n)) in
        ((less (of_u64 c) (times q (of_u64 n)) ≡ true) × (need_of q n ≡ c + 1))
        ⊎ ((less (of_u64 c) (times q (of_u64 n)) ≡ false) × (0 < c) × (need_of q n ≡ c))
        ⊎ ((c ≡ 0) × (need_of q n ≡ 1))
  unfolding need_of
  need_of_rounded q n small = ground arith

  need_of-IsLeast :
      (q : Real) (n : ℕ)
      → IsFraction q
      → 0 < n
      → n < 2 ^ 53
      → IsLeast q n (need_of q n) × (need_of q n ≤ n)
  need_of-IsLeast q n f pos h =
      let x : Real = times q (of_u64 n) in
      let le : to_u64 x ≤ n = cut-le q n f h in
      elim (need_of_rounded q n (omega arith)) [
        | inl (up, e) ↦
            let apart = λ (same : to_u64 x ≡ n).
              false≢true (sym (times-le q f n h) ∙ subst (λ k. less (of_u64 k) x ≡ true) same up) in
            (
              subst (IsLeast q n) (sym e) (up-IsLeast q n f h up),
              elim (dec_lt (to_u64 x) n) [
                | yes lt ↦ omega (arith, e)
                | no not_lt ↦ absurd (apart (omega arith))
              ],
            )
        | inr (inl (whole, some_items, e)) ↦
            (subst (IsLeast q n) (sym e) (whole-IsLeast q n f h some_items whole), omega (arith, e))
        | inr (inr (none', e)) ↦
            (subst (IsLeast q n) (sym e) (zero-IsLeast q n f h none'), omega (arith, e))
      ]

  -- For a fraction between 0 and 1 of fewer than `2 ^ 53` wakes, the result is the upper edge of
  -- the bucket that holds the wake whose rank is the least positive one that is not less than the
  -- fraction of the wakes; without any wake it is 0.
  pub quantile_rank :
      (q : Real) (counts : List ℕ)
      → IsFraction q
      → sum counts < 2 ^ 53
      → ((sum counts ≡ 0) × (quantile_upper_us q counts ≡ 0))
        ⊎ ((need : ℕ) × (i : ℕ) × IsLeast q (sum counts) need
            × HasRank counts need i
            × (quantile_upper_us q counts ≡ upper_us i))
  unfolding quantile_upper_us
  quantile_rank q counts f h = elim (dec_lt 0 (sum counts)) [
    | no none' ↦
        let e : sum_counts 0 counts ≡ 0 = omega (arith, sum_counts-total 0 counts) in
        inl (omega arith, rw e)
    | yes pos ↦
        let all : sum_counts 0 counts ≡ sum counts = omega (arith, sum_counts-total 0 counts) in
        let (rank, within) = need_of-IsLeast q (sum counts) f pos h in
        let (j, eq, lt, before, through) =
          find_rank-HasRank (need_of q (sum counts)) 0 0 counts (omega arith) rank.positive
            (omega (arith, within)) in
        let z : 0 + j ≡ j = omega arith in
        inr (
          need_of q (sum counts),
          j,
          rank,
          record { bucket = lt; before = omega (arith, before); through = omega (arith, through) },
          rw all (ground (arith, eq, z)),
        )
  ]
