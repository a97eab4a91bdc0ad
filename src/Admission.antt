-- ===== src/Admission.antt =====
-- connection_admission.h: the bound on live connections, `ConnectionAdmission`. `try_enter` and
-- the release of a `Lease` run on any thread, so their model is a set of tasks that interleave at
-- each atomic access; a compare-exchange may fail though the values are equal (it is the weak one).
mod Counts
mod Invariant
pub mod Safety
pub mod Solo
pub mod Leases
pub mod Finish
use reactor.Prelude.{
  ℕ, zero, suc, ◌+◌, ◌≤◌, ◌<◌, ◌≡◌, ◌≢◌, List, [], ◌∷◌, if◌then◌else◌, ◌==◌, max, u64, sub64,
  u64_max,
}
use reactor.Prelude.Threads.{Reach}

-- `ConnectionAdmission::State`
pub record State : Type 0 where
  pub maximum : ℕ
  pub active : ℕ
  pub high_water : ℕ
  pub accepted : ℕ
  pub rejected : ℕ

-- What `stats` returns, `ConnectionStats`.
pub record ConnectionStats : Type 0 where
  pub active : ℕ
  pub high_water : ℕ
  pub accepted : ℕ
  pub rejected : ℕ

-- The constructor throws `invalid_argument` for a zero bound.
pub data Error : Type 0 where
  zero_bound : Error

pub data Result (A : Type 0) : Type 0 where
  ok : A → Result A
  err : Error → Result A

abbrev pub make : ℕ → Result State
make bound =
    if bound == 0
    then err zero_bound
    else ok (record { maximum = bound; active = 0; high_water = 0; accepted = 0; rejected = 0 })

abbrev pub stats : State → ConnectionStats
stats s = record {
  active = s.active;
  high_water = s.high_water;
  accepted = s.accepted;
  rejected = s.rejected;
}

-- Where a task stands in `try_enter` or with the lease that it got, and its local variables.
pub data Pc : Type 0 where
  outside : Pc  -- no call, and no lease
  admit : (value : ℕ) → Pc  -- the loop on `active`
  refuse : Pc  -- before the load of `rejected` in `increment`
  refuse_loop : (value : ℕ) → Pc
  accept : (value : ℕ) → Pc  -- admitted, before the load of `accepted` in `increment`
  accept_loop : (value counter : ℕ) → Pc
  raise : (value : ℕ) → Pc  -- before the load of `high_water`
  raise_loop : (value high : ℕ) → Pc
  leased : Pc  -- holds the lease that `try_enter` returned

-- The state beside three counts that only the statements read: the greatest value that `active`
-- has had, and how many calls have been admitted and refused.
pub record Memory : Type 0 where
  pub state : State
  pub open state use *
  pub peak : ℕ
  pub entries : ℕ
  pub refusals : ℕ

abbrev pub with_active : Memory → ℕ → Memory
with_active m a = record m { state = record m.state { active = a } }

abbrev pub with_high_water : Memory → ℕ → Memory
with_high_water m h = record m { state = record m.state { high_water = h } }

abbrev pub with_accepted : Memory → ℕ → Memory
with_accepted m c = record m { state = record m.state { accepted = c } }

abbrev pub with_rejected : Memory → ℕ → Memory
with_rejected m c = record m { state = record m.state { rejected = c } }

-- One atomic access of one task.
pub data Move (m : Memory) : Pc → Memory → Pc → Type 0 where
  load_active : Move m outside m (admit m.active)
  full : {v : ℕ} → m.maximum ≤ v → Move m (admit v) (record m { refusals = m.refusals + 1 }) refuse
  enter :
      {v : ℕ}
      → v < m.maximum
      → m.active ≡ v
      → Move m
          (admit v)
          (record (with_active m (u64 (v + 1))) {
            peak = max m.peak (v + 1);
            entries = m.entries + 1;
          })
          (accept v)
  enter_again : {v : ℕ} → v < m.maximum → Move m (admit v) m (admit m.active)
  load_rejected : Move m refuse m (refuse_loop m.rejected)
  reject_saturated : {c : ℕ} → c ≡ u64_max → Move m (refuse_loop c) m outside
  reject_counted :
      {c : ℕ}
      → c ≢ u64_max
      → m.rejected ≡ c
      → Move m (refuse_loop c) (with_rejected m (u64 (c + 1))) outside
  reject_again : {c : ℕ} → c ≢ u64_max → Move m (refuse_loop c) m (refuse_loop m.rejected)
  load_accepted : {v : ℕ} → Move m (accept v) m (accept_loop v m.accepted)
  accept_saturated : {v c : ℕ} → c ≡ u64_max → Move m (accept_loop v c) m (raise v)
  accept_counted :
      {v c : ℕ}
      → c ≢ u64_max
      → m.accepted ≡ c
      → Move m (accept_loop v c) (with_accepted m (u64 (c + 1))) (raise v)
  accept_again : {v c : ℕ} → c ≢ u64_max → Move m (accept_loop v c) m (accept_loop v m.accepted)
  load_high_water : {v : ℕ} → Move m (raise v) m (raise_loop v m.high_water)
  high_enough : {v h : ℕ} → u64 (v + 1) ≤ h → Move m (raise_loop v h) m leased
  high_raised :
      {v h : ℕ}
      → h < u64 (v + 1)
      → m.high_water ≡ h
      → Move m (raise_loop v h) (with_high_water m (u64 (v + 1))) leased
  high_again : {v h : ℕ} → h < u64 (v + 1) → Move m (raise_loop v h) m (raise_loop v m.high_water)
  -- `Lease::reset`, also from the destructor and the move assignment
  release : Move m leased (with_active m (sub64 m.active 1)) outside

-- A fresh admission with this bound.
abbrev pub init : ℕ → Memory
init bound = record {
  state = record { maximum = bound; active = 0; high_water = 0; accepted = 0; rejected = 0 };
  peak = 0;
  entries = 0;
  refusals = 0;
}

abbrev pub idle : ℕ → List Pc
idle zero = []
idle (suc n) = outside ∷ idle n

-- The states that `n` tasks can reach on a fresh admission with this bound.
abbrev pub Reachable : ℕ → ℕ → Memory → List Pc → Type 0
Reachable n bound m ts = Reach Move (init bound) (idle n) m ts
