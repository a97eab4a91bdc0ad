-- ===== src/Lag/Snapshot.antt =====
-- The counters of a `LagSnapshot`, what a wake adds to them, and `since`.
use reactor.Prelude.{
  ℕ, zero, suc, ◌+◌, ◌^◌, ◌<◌, ◌≡◌, refl, ap, List, [], ◌∷◌, arith, if◌then◌else◌, ltb, u64, sub64,
  ◌∙◌, replicate, ◌==◌, get_elem?, some, All, length,
}
use reactor.Lag.{buckets, index_of}

pub record Snapshot : Type 0 where
  pub count : List ℕ
  pub wakes : ℕ
  pub sum_us : ℕ
  pub max_us : ℕ

unfoldable pub empty : Snapshot
empty = record { count = replicate buckets 0; wakes = 0; sum_us = 0; max_us = 0 }

-- `bump(count[i], 1)`
unfoldable pub bump_at : List ℕ → ℕ → List ℕ
bump_at [] i = []
bump_at (c ∷ cs) zero = u64 (c + 1) ∷ cs
bump_at (c ∷ cs) (suc i) = c ∷ bump_at cs i

-- What `State::tick` does to the counters for a wake that is `us` late.
unfoldable pub add_wake : Snapshot → ℕ → Snapshot
unfolding bump_at
add_wake s us = record {
  count = bump_at s.count (index_of us);
  wakes = u64 (s.wakes + 1);
  sum_us = u64 (s.sum_us + us);
  max_us = if ltb s.max_us us then us else s.max_us;
}

pub add_wakes : Snapshot → List ℕ → Snapshot
add_wakes s [] = s
add_wakes s (us ∷ rest) = add_wakes (add_wake s us) rest

pub sub_counts : List ℕ → List ℕ → List ℕ
sub_counts (a ∷ as') (b ∷ bs) = sub64 a b ∷ sub_counts as' bs
sub_counts _ _ = []

-- `s.since(earlier)`
pub since : Snapshot → Snapshot → Snapshot
unfolding sub_counts
since s earlier = record {
  count = sub_counts s.count earlier.count;
  wakes = sub64 s.wakes earlier.wakes;
  sum_us = sub64 s.sum_us earlier.sum_us;
  max_us = s.max_us;
}

-- Values of their types.
pub record IsValid (s : Snapshot) : Type 0 where
  pub count : All (λ c. c < 2 ^ 64) s.count
  pub length : length s.count ≡ buckets
  pub wakes : s.wakes < 2 ^ 64
  pub sum_us : s.sum_us < 2 ^ 64

sub_counts-bump_at :
    (cs ds : List ℕ) (i : ℕ)
    → All (λ c. c < 2 ^ 64) ds
    → sub_counts (bump_at cs i) ds ≡ bump_at (sub_counts cs ds) i
unfolding sub_counts bump_at
sub_counts-bump_at [] [] i h = refl
sub_counts-bump_at [] (d ∷ ds) i h = refl
sub_counts-bump_at (c ∷ cs) [] zero h = refl
sub_counts-bump_at (c ∷ cs) [] (suc i) h = refl
sub_counts-bump_at (c ∷ cs) (d ∷ ds) zero h =
    let e : sub64 (u64 (c + 1)) d ≡ u64 (sub64 c d + 1) = omega arith in rw e
sub_counts-bump_at (c ∷ cs) (d ∷ ds) (suc i) h = rw (sub_counts-bump_at cs ds i h.1)

-- The two snapshots differ at most in the greatest lateness.
abbrev pub SameCounts : Snapshot → Snapshot → Type 0
SameCounts s t = (s.count ≡ t.count) × (s.wakes ≡ t.wakes) × (s.sum_us ≡ t.sum_us)

since-add_wake :
    (s e t : Snapshot) (us : ℕ)
    → IsValid e
    → SameCounts (since s e) t
    → SameCounts (since (add_wake s us) e) (add_wake t us)
unfolding since add_wake
since-add_wake s e t us v h = (
  sub_counts-bump_at s.count e.count (index_of us) v.count ∙ ap (λ c. bump_at c (index_of us)) h.0,
  omega (arith, v.wakes, h.1),
  omega (arith, v.sum_us, h.2),
)

since-add_wakes :
    (s e t : Snapshot) (late : List ℕ)
    → IsValid e
    → SameCounts (since s e) t
    → SameCounts (since (add_wakes s late) e) (add_wakes t late)
unfolding add_wakes
since-add_wakes s e t [] v h = h
since-add_wakes s e t (us ∷ late) v h =
    since-add_wakes (add_wake s us) e (add_wake t us) late v (since-add_wake s e t us v h)

sub_counts_self :
    (cs : List ℕ) → All (λ c. c < 2 ^ 64) cs → sub_counts cs cs ≡ replicate (length cs) 0
unfolding sub_counts
sub_counts_self [] h = refl
sub_counts_self (c ∷ cs) h = let e : sub64 c c ≡ 0 = omega arith in rw (e, sub_counts_self cs h.1)

since_self : (s : Snapshot) → IsValid s → SameCounts (since s s) empty
unfolding since empty
since_self s v = (
  sub_counts_self s.count v.count ∙ ap (λ n. replicate n 0) v.length,
  omega (arith, v.wakes),
  omega (arith, v.sum_us),
)

-- The snapshot that `since` returns counts exactly the wakes between its two snapshots, whether
-- or not a 64-bit counter wrapped in between; the greatest lateness stays the later one's.
pub since_lem :
    (s : Snapshot) (late : List ℕ)
    → IsValid s
    → since (add_wakes s late) s
      ≡ record (add_wakes empty late) { max_us = (add_wakes s late).max_us }
unfolding since
since_lem s late v =
    let h = since-add_wakes s s empty late v (since_self s v) in
    λ i. record { count = h.0 i; wakes = h.1 i; sum_us = h.2 i; max_us = (add_wakes s late).max_us }

-- How many of the wakes are counted in bucket `i`.
pub hits : ℕ → List ℕ → ℕ
hits i [] = 0
hits i (us ∷ late) = (if index_of us == i then 1 else 0) + hits i late

get_elem?-bump_at :
    (cs : List ℕ) (i j c : ℕ)
    → get_elem? cs i ≡ some c
    → get_elem? (bump_at cs j) i ≡ some (if j == i then u64 (c + 1) else c)
unfolding bump_at
get_elem?-bump_at [] i j c h = cc
get_elem?-bump_at (x ∷ cs) zero zero c h = ground arith
get_elem?-bump_at (x ∷ cs) zero (suc j) c h = ground arith
get_elem?-bump_at (x ∷ cs) (suc i) zero c h = ground arith
get_elem?-bump_at (x ∷ cs) (suc i) (suc j) c h = ground (arith, get_elem?-bump_at cs i j c h)

get_elem?-add_wakes :
    (s : Snapshot) (late : List ℕ) (i c : ℕ)
    → c < 2 ^ 64
    → get_elem? s.count i ≡ some c
    → get_elem? (add_wakes s late).count i ≡ some (u64 (c + hits i late))
unfolding add_wakes hits add_wake
get_elem?-add_wakes s [] i c b h = let e : u64 (c + 0) ≡ c = omega arith in rw e h
get_elem?-add_wakes s (us ∷ late) i c b h =
    let next : ℕ = if index_of us == i then u64 (c + 1) else c in
    get_elem?-add_wakes (add_wake s us) late i next (ground arith)
      (get_elem?-bump_at s.count i (index_of us) c h)
    ∙ ap some (ground arith)

get_elem?-replicate : (n i v : ℕ) → i < n → get_elem? (replicate n v) i ≡ some v
get_elem?-replicate zero i v h = absurd (omega arith)
get_elem?-replicate (suc n) zero v h = refl
get_elem?-replicate (suc n) (suc i) v h = get_elem?-replicate n i v (omega arith)

-- Each bucket holds the number of wakes whose lateness falls in it, in 64 bits.
pub add_wakes-hits :
    (late : List ℕ) (i : ℕ)
    → i < buckets
    → get_elem? (add_wakes empty late).count i ≡ some (u64 (hits i late))
add_wakes-hits late i h =
    let z : 0 + hits i late ≡ hits i late = omega arith in
    rw z at (
      get_elem?-add_wakes empty late i 0 (omega arith)
        (unfold empty in get_elem?-replicate buckets i 0 h))
