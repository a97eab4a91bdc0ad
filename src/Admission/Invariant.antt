-- ===== src/Admission/Invariant.antt =====
-- The invariant of `ConnectionAdmission` over any number of tasks in any order.
use reactor.Prelude.{
  ℕ, zero, suc, ◌^◌, ◌<◌, ◌≡◌, refl, List, some, arith, get_elem?, set, total, All, total-set,
  All-get, All-set,
}
use reactor.Prelude.Threads.{Reach-inv}
use reactor.Admission.{Memory, Pc, Move, idle, init, Reachable}
use reactor.Admission.Counts.{
  holds, accepting, refusing, tallest, tallest-set, Local, Counts, Sums, Move-Counts, Fits,
  Move-keeps-Local, Move-Local,
}

pub record Inv (bound : ℕ) (m : Memory) (ts : List Pc) : Type 0 where
  pub counts : Counts bound m (total holds ts) (total accepting ts) (total refusing ts) (tallest ts)
  pub locals : All (Local m) ts

sums :
    (ts : List Pc) (i : ℕ) (p q : Pc)
    → get_elem? ts i ≡ some p
    → let after = set ts i q in
      Sums p q
        (total holds ts)
        (total accepting ts)
        (total refusing ts)
        (tallest ts)
        (total holds after)
        (total accepting after)
        (total refusing after)
        (tallest after)
sums ts i p q e = record {
  held = total-set holds ts i p q e;
  accepting_sum = total-set accepting ts i p q e;
  refusing_sum = total-set refusing ts i p q e;
  old = (tallest-set ts i p q e).0;
  new = (tallest-set ts i p q e).1;
}

-- One access of one task keeps the invariant.
pub Move-Inv :
    (bound : ℕ) (m m' : Memory) (ts : List Pc) (i : ℕ) (p q : Pc)
    → get_elem? ts i ≡ some p
    → Move m p m' q
    → Inv bound m ts
    → Inv bound m' (set ts i q)
Move-Inv bound m m' ts i p q e mv v = record {
  counts = Move-Counts mv l (sums ts i p q e) v.counts;
  locals =
      All-set (Local m) (Local m') (Move-keeps-Local mv small l) ts i q v.locals
        (Move-Local mv small (omega (arith, v.counts.active, v.counts.within, v.counts.maximum)) l);
}
  where
    l : Local m p
    l = All-get (Local m) ts i p v.locals e

    small : Fits m
    small = omega (arith, v.counts)

idle-zero :
    (n : ℕ)
    → (total holds (idle n) ≡ 0)
      × (total accepting (idle n) ≡ 0)
      × (total refusing (idle n) ≡ 0)
      × (tallest (idle n) ≡ 0)
idle-zero zero = (refl, refl, refl, refl)
idle-zero (suc n) = omega (arith, idle-zero n)

idle-Local : (m : Memory) (n : ℕ) → All (Local m) (idle n)
idle-Local m zero = tt
idle-Local m (suc n) = (tt, idle-Local m n)

init-Inv : (n bound : ℕ) → bound < 2 ^ 64 → Inv bound (init bound) (idle n)
init-Inv n bound h = record {
  counts = ground (arith, idle-zero n);
  locals = idle-Local (init bound) n;
}

-- The invariant holds in every reachable state.
pub Reachable-Inv :
    (n bound : ℕ) (m : Memory) (ts : List Pc)
    → bound < 2 ^ 64
    → Reachable n bound m ts
    → Inv bound m ts
Reachable-Inv n bound m ts h r = Reach-inv (Inv bound) (Move-Inv bound) (init-Inv n bound h) r
