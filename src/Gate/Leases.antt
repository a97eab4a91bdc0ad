-- ===== src/Gate/Leases.antt =====
-- The class `AdmissionGate::Lease`: lease variables that are assigned, moved and reset by one thread,
-- over any number of gates. A lease names its gate (`gate_`) by a number.
pub mod Counted
use reactor.Prelude.{
  ℕ, ◌+◌, ◌-◌, ◌^◌, ◌≤◌, ◌<◌, ◌≡◌, ◌⊎◌, List, [], ◌∷◌, Bool, true, false, Option, none, some, arith,
  if◌then◌else◌, ◌==◌, get_elem?, set, total, total-set, Option-cases, Bool-cases, ◌∙◌, inl, inr,
  false≢true, refl, ap, zero, suc, u64, u32, ◌&&◌, get-lt, get_elem?-set_self, get_elem?-set_ne,
}
use reactor.Gate.{Gate, slt, refuses, pred32}
use reactor.Gate.Single.{try_enter, leave}

abbrev pub Lease : Type 0
Lease = Option ℕ

-- The gates, and the lease variables of the program.
pub record World : Type 0 where
  pub gate : ℕ → Gate
  pub leases : List Lease

abbrev pub update : (ℕ → Gate) → ℕ → Gate → ℕ → Gate
update f a g b = if a == b then g else f b

-- What `reset` of the lease `l` does to the gates.
pub reset : (ℕ → Gate) → Lease → ℕ → Gate
unfolding leave
reset f none = f
reset f (some a) = update f a (leave (f a))

-- `leases[i].reset()`, and the destructor
pub reset_at : World → ℕ → World
unfolding reset
reset_at w i = elim (get_elem? w.leases i) [
  | none ↦ w
  | some old ↦ record { gate = reset w.gate old; leases = set w.leases i none }
]

-- What `std::exchange(leases[j].gate_, nullptr)` reads, with its write.
abbrev pub take : World → ℕ → Lease × World
take w j = (
  elim (get_elem? w.leases j) [ none ↦ none | some l ↦ l ],
  record w { leases = set w.leases j none },
)

abbrev pub assign : World → ℕ → Lease → World
assign w i l = record w { leases = set w.leases i l }

-- `leases[i] = std::move(leases[j])`, with no test for a move onto itself.
pub move_assign : World → ℕ → ℕ → World
unfolding reset_at
move_assign w i j = let (l, taken) = take (reset_at w i) j in assign taken i l

-- `leases[i] = gate[a].enter()`
pub enter_into : World → ℕ → ℕ → World
unfolding try_enter reset_at
enter_into w a i =
    let (g, admitted) = try_enter (w.gate a) in
    assign (reset_at (record w { gate = update w.gate a g }) i) i
      (if admitted then some a else none)

pub data Op : Type 0 where
  enters : (a i : ℕ) → Op
  moves : (i j : ℕ) → Op
  resets : (i : ℕ) → Op

-- The variable exists.
abbrev pub has_var : World → ℕ → Bool
has_var w i = elim (get_elem? w.leases i) [ none ↦ false | some l ↦ true ]

pub step : World → Op → World
unfolding enter_into move_assign reset_at
step w (enters a i) = if has_var w i then enter_into w a i else w
step w (moves i j) = if has_var w i && has_var w j then move_assign w i j else w
step w (resets i) = if has_var w i then reset_at w i else w

pub run : World → List Op → World
unfolding step
run w [] = w
run w (o ∷ os) = run (step w o) os

abbrev pub holds : ℕ → Lease → ℕ
holds a none = 0
holds a (some b) = if a == b then 1 else 0

-- The leases that name gate `a`.
abbrev pub held : World → ℕ → ℕ
held w a = total (holds a) w.leases
