-- ===== src/Admission/Counts.antt =====
-- What each access of `ConnectionAdmission` does to the counters, as arithmetic over the sums
-- that the tasks contribute.
use reactor.Prelude.{
  ℕ, ◌+◌, ◌-◌, ◌^◌, ◌≤◌, ◌<◌, ◌≡◌, List, [], ◌∷◌, get_elem?, set, some, zero, suc, arith, min, max,
  u64_max,
}
use reactor.Admission.{
  Memory, Pc, outside, admit, refuse, refuse_loop, accept, accept_loop, raise, raise_loop, Move,
  load_active, full, enter, enter_again, load_rejected, reject_saturated, reject_counted,
  reject_again, load_accepted, accept_saturated, accept_counted, accept_again, load_high_water,
  high_enough, high_raised, high_again, release,
}

-- A task with an admission that has not been given back.
abbrev pub holds : Pc → ℕ
holds outside = 0
holds (admit _) = 0
holds refuse = 0
holds (refuse_loop _) = 0
holds _ = 1

-- A task inside `increment(accepted)`, or inside `increment(rejected)`.
abbrev pub accepting : Pc → ℕ
accepting (accept _) = 1
accepting (accept_loop _ _) = 1
accepting _ = 0

abbrev pub refusing : Pc → ℕ
refusing refuse = 1
refusing (refuse_loop _) = 1
refusing _ = 0

-- The value to which a task will yet raise `high_water`.
abbrev pub target : Pc → ℕ
target (accept v) = v + 1
target (accept_loop v _) = v + 1
target (raise v) = v + 1
target (raise_loop v _) = v + 1
target _ = 0

abbrev pub tallest : List Pc → ℕ
tallest [] = 0
tallest (p ∷ ps) = max (target p) (tallest ps)

pub tallest-set :
    (ts : List Pc) (i : ℕ) (p q : Pc)
    → get_elem? ts i ≡ some p
    → (tallest ts ≤ max (target p) (tallest (set ts i q))) × (target q ≤ tallest (set ts i q))
tallest-set [] i p q e = cc
tallest-set (x ∷ ts) zero p q e = ground arith
tallest-set (x ∷ ts) (suc i) p q e = omega (arith, tallest-set ts i p q e)

-- What a task's local variables say about the memory.
abbrev pub Local : Memory → Pc → Type 0
Local m (admit v) = v ≤ m.maximum
Local m (refuse_loop c) = c ≤ m.rejected
Local m (accept v) = (v < m.maximum) × (v + 1 ≤ m.peak)
Local m (accept_loop v c) = (v < m.maximum) × (v + 1 ≤ m.peak) × (c ≤ m.accepted)
Local m (raise v) = (v < m.maximum) × (v + 1 ≤ m.peak)
Local m (raise_loop v h) = (v < m.maximum) × (v + 1 ≤ m.peak) × (h ≤ m.high_water)
Local m _ = Unit

-- The memory, where `h`, `a`, `r` and `t` are what the tasks contribute.
pub record Counts (bound : ℕ) (m : Memory) (h a r t : ℕ) : Type 0 where
  pub size : bound < 2 ^ 64
  pub maximum : m.maximum ≡ bound
  pub active : m.active ≡ h
  pub within : m.active ≤ bound
  pub below_peak : m.active ≤ m.peak
  pub peak : m.peak ≤ bound
  pub high_water : m.high_water ≤ m.peak
  pub covered : m.peak ≤ max m.high_water t
  pub entered : a ≤ m.entries
  pub accepted : m.accepted ≡ min u64_max (m.entries - a)
  pub refused : r ≤ m.refusals
  pub rejected : m.rejected ≡ min u64_max (m.refusals - r)

-- The sums before and after a task goes from `p` to `q`.
pub record Sums (p q : Pc) (h a r t h' a' r' t' : ℕ) : Type 0 where
  pub held : h' + holds p ≡ h + holds q
  pub accepting_sum : a' + accepting p ≡ a + accepting q
  pub refusing_sum : r' + refusing p ≡ r + refusing q
  pub old : t ≤ max (target p) t'
  pub new : target q ≤ t'

pub Move-Counts :
    {bound h a r t h' a' r' t' : ℕ} {m m' : Memory} {p q : Pc}
    → Move m p m' q
    → Local m p
    → Sums p q h a r t h' a' r' t'
    → Counts bound m h a r t
    → Counts bound m' h' a' r' t'
Move-Counts load_active l s c = omega arith
Move-Counts (full g) l s c = omega arith
Move-Counts (enter g e) l s c = omega arith
Move-Counts (enter_again g) l s c = omega arith
Move-Counts load_rejected l s c = omega arith
Move-Counts (reject_saturated e) l s c = omega arith
Move-Counts (reject_counted n e) l s c = omega arith
Move-Counts (reject_again n) l s c = omega arith
Move-Counts load_accepted l s c = omega arith
Move-Counts (accept_saturated e) l s c = omega arith
Move-Counts (accept_counted n e) l s c = omega arith
Move-Counts (accept_again n) l s c = omega arith
Move-Counts load_high_water l s c = omega arith
Move-Counts (high_enough g) l s c = omega arith
Move-Counts (high_raised g e) l s c = omega arith
Move-Counts (high_again g) l s c = omega arith
Move-Counts release l s c = omega arith

-- The counters are values of their types.
abbrev pub Fits : Memory → Type 0
Fits m = (m.maximum < 2 ^ 64) × (m.accepted ≤ u64_max) × (m.rejected ≤ u64_max)

-- The counters that only grow, and the bound that stays.
record Grows (m m' : Memory) : Type 0 where
  maximum : m'.maximum ≡ m.maximum
  accepted : m.accepted ≤ m'.accepted
  rejected : m.rejected ≤ m'.rejected
  high_water : m.high_water ≤ m'.high_water
  peak : m.peak ≤ m'.peak

Move-Grows : {m m' : Memory} {p q : Pc} → Move m p m' q → Fits m → Local m p → Grows m m'
Move-Grows (reject_counted n e) b l = omega arith
Move-Grows (accept_counted n e) b l = omega arith
Move-Grows (high_raised g e) b l = omega arith
Move-Grows _ b l = omega arith

pub Move-keeps-Local :
    {m m' : Memory} {p q : Pc}
    → Move m p m' q
    → Fits m
    → Local m p
    → (r : Pc) → Local m r
    → Local m' r
Move-keeps-Local mv b l r k = ground (arith, Move-Grows mv b l)

pub Move-Local :
    {m m' : Memory} {p q : Pc}
    → Move m p m' q
    → Fits m
    → m.active ≤ m.maximum
    → Local m p
    → Local m' q
Move-Local (enter g e) b w l = omega arith
Move-Local (high_enough g) b w l = omega arith
Move-Local _ b w l = omega arith
