-- ===== src/Gate/Bound.antt =====
-- `AdmissionGate` under any interleaving of its callers.
use reactor.Prelude.{
  ℕ, zero, suc, ◌+◌, ◌-◌, ◌^◌, ◌≤◌, ◌<◌, ◌≡◌, refl, List, [], ◌∷◌, some, arith, get_elem?, set,
  total, total-set, length, length-set, u64,
}
use reactor.Prelude.Threads.{Reach-inv}
use reactor.Gate.{
  Memory, Pc, outside, backing, counting, inside, Move, enter, refuse, take_back, count, release,
  init, idle, Reachable,
}

abbrev pub is_inside : Pc → ℕ
is_inside inside = 1
is_inside _ = 0

abbrev pub is_backing : Pc → ℕ
is_backing backing = 1
is_backing _ = 0

abbrev pub is_counting : Pc → ℕ
is_counting counting = 1
is_counting _ = 0

-- The gate over `n` tasks of which `i` are inside, `b` are taking their increment back and `c` have
-- a refusal to count.
pub record Counts (n bound : ℕ) (m : Memory) (i b c : ℕ) : Type 0 where
  pub limit : m.limit ≡ bound
  pub tasks : i + b + c ≤ n
  pub inflight : m.inflight ≡ i + b
  pub bounded : i ≤ bound
  pub pending : b + c ≤ m.refusals
  pub rejected : m.rejected ≡ u64 (m.refusals - (b + c))

record Sums (p q : Pc) (i b c i' b' c' : ℕ) : Type 0 where
  ins : i' + is_inside p ≡ i + is_inside q
  backs : b' + is_backing p ≡ b + is_backing q
  counts : c' + is_counting p ≡ c + is_counting q

Move-Counts :
    {n bound i b c i' b' c' : ℕ} {m m' : Memory} {p q : Pc}
    → n < 2 ^ 31
    → 0 < bound
    → bound < 2 ^ 31
    → Move m p m' q
    → Sums p q i b c i' b' c'
    → i' + b' + c' ≤ n
    → Counts n bound m i b c
    → Counts n bound m' i' b' c'
Move-Counts small pos lim (enter e) s t k = ground arith
Move-Counts small pos lim (refuse e) s t k = ground arith
Move-Counts small pos lim take_back s t k = ground arith
Move-Counts small pos lim count s t k = ground arith
Move-Counts small pos lim release s t k = ground arith

record Inv (n bound : ℕ) (m : Memory) (ts : List Pc) : Type 0 where
  length : length ts ≡ n
  counts : Counts n bound m (total is_inside ts) (total is_backing ts) (total is_counting ts)

pub roles-le :
    (ts : List Pc) → total is_inside ts + total is_backing ts + total is_counting ts ≤ length ts
roles-le [] = omega arith
roles-le (outside ∷ ts) = omega (arith, roles-le ts)
roles-le (backing ∷ ts) = omega (arith, roles-le ts)
roles-le (counting ∷ ts) = omega (arith, roles-le ts)
roles-le (inside ∷ ts) = omega (arith, roles-le ts)

Move-Inv :
    (n bound : ℕ)
    → n < 2 ^ 31
    → 0 < bound
    → bound < 2 ^ 31
    → (m m' : Memory) (ts : List Pc) (i : ℕ) (p q : Pc) → get_elem? ts i ≡ some p
    → Move m p m' q
    → Inv n bound m ts
    → Inv n bound m' (set ts i q)
Move-Inv n bound small pos lim m m' ts i p q e mv v = record {
  length = omega (arith, length-set ts i q, v.length);
  counts = Move-Counts small pos lim mv s room v.counts;
}
  where
    s :
        Sums p q
          (total is_inside ts)
          (total is_backing ts)
          (total is_counting ts)
          (total is_inside (set ts i q))
          (total is_backing (set ts i q))
          (total is_counting (set ts i q))
    s = record {
      ins = total-set is_inside ts i p q e;
      backs = total-set is_backing ts i p q e;
      counts = total-set is_counting ts i p q e;
    }

    room :
        total is_inside (set ts i q)
          + total is_backing (set ts i q)
          + total is_counting (set ts i q)
        ≤ n
    room = omega (arith, roles-le (set ts i q), length-set ts i q, v.length)

pub idle-zero :
    (n : ℕ)
    → (length (idle n) ≡ n)
      × (total is_inside (idle n) ≡ 0)
      × (total is_backing (idle n) ≡ 0)
      × (total is_counting (idle n) ≡ 0)
idle-zero zero = (refl, refl, refl, refl)
idle-zero (suc n) = omega (arith, idle-zero n)

init-Inv : (n bound : ℕ) → Inv n bound (init bound) (idle n)
init-Inv n bound = record { length = (idle-zero n).0; counts = ground (arith, idle-zero n) }

-- With a positive limit, and fewer callers than an `int` counts, at most `limit` leases are held at
-- once however the calls interleave; `inflight` is the leases held and the refused calls that have
-- yet to take their increment back, and `rejected` is the refusals that have been counted.
pub inside-le-limit :
    (n limit : ℕ) (m : Memory) (ts : List Pc)
    → n < 2 ^ 31
    → 0 < limit
    → limit < 2 ^ 31
    → Reachable n limit m ts
    → (total is_inside ts ≤ limit)
      × (m.inflight ≡ total is_inside ts + total is_backing ts)
      × (m.rejected ≡ u64 (m.refusals - (total is_backing ts + total is_counting ts)))
inside-le-limit n limit m ts small pos lim r =
    (v.counts.bounded, v.counts.inflight, v.counts.rejected)
  where
    v : Inv n limit m ts
    v = Reach-inv (Inv n limit) (Move-Inv n limit small pos lim) (init-Inv n limit) r
