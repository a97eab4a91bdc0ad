-- ===== src/Admission/Leases.antt =====
-- The class `ConnectionAdmission::Lease`: lease variables that are assigned, moved and reset, over
-- any number of admissions. A lease names its admission (`shared_ptr<State>`) by a number.
use reactor.Prelude.{
  ℕ, ◌+◌, ◌^◌, ◌≤◌, ◌<◌, ◌≡◌, List, [], ◌∷◌, Option, none, some, arith, if◌then◌else◌, ◌==◌,
  get_elem?, set, total, total-set, Option-cases, ◌≢◌, ◌∙◌, get_elem?-set_ne, inl, inr,
}
use reactor.Admission.{State}
use reactor.Admission.Solo.{try_enter, leave}

abbrev pub Lease : Type 0
Lease = Option ℕ

-- The admissions, and the lease variables of the program.
pub record World : Type 0 where
  pub admission : ℕ → State
  pub leases : List Lease

abbrev pub update : (ℕ → State) → ℕ → State → ℕ → State
update f a s b = if a == b then s else f b

-- `Lease::reset` on the lease `l`, which is empty afterwards.
pub reset : (ℕ → State) → Lease → ℕ → State
unfolding leave
reset f none = f
reset f (some a) = update f a (leave (f a))

-- `leases[i] = admission[a].try_enter()`
pub enter_into : World → ℕ → ℕ → World
unfolding try_enter reset
enter_into w a i = elim (get_elem? w.leases i) [
  | none ↦ w
  | some old ↦
      let (s, got) = try_enter (w.admission a) in
      record {
        admission = reset (update w.admission a s) old;
        leases = set w.leases i (if got then some a else none);
      }
]

-- `leases[i] = std::move(leases[j])`
pub move_assign : World → ℕ → ℕ → World
unfolding reset
move_assign w i j = elim (get_elem? w.leases i) [
  | none ↦ w
  | some old ↦ elim (get_elem? w.leases j) [
    | none ↦ w
    | some l ↦
        if i == j
        then w
        else record { admission = reset w.admission old; leases = set (set w.leases i l) j none }
  ]
]

-- `leases[i].reset()`, and the destructor
pub reset_at : World → ℕ → World
unfolding reset
reset_at w i = elim (get_elem? w.leases i) [
  | none ↦ w
  | some old ↦ record { admission = reset w.admission old; leases = set w.leases i none }
]

pub data Op : Type 0 where
  enters : (a i : ℕ) → Op
  moves : (i j : ℕ) → Op
  resets : (i : ℕ) → Op

pub step : World → Op → World
unfolding enter_into move_assign reset_at
step w (enters a i) = enter_into w a i
step w (moves i j) = move_assign w i j
step w (resets i) = reset_at w i

pub run : World → List Op → World
unfolding step
run w [] = w
run w (o ∷ os) = run (step w o) os

abbrev pub holds : ℕ → Lease → ℕ
holds a none = 0
holds a (some b) = if a == b then 1 else 0

-- The leases that name admission `a`.
abbrev pub held : World → ℕ → ℕ
held w a = total (holds a) w.leases

-- Each admission counts exactly the leases that name it, within its bound.
pub record IsBalanced (w : World) (a : ℕ) : Type 0 where
  pub size : (w.admission a).maximum < 2 ^ 64
  pub active : (w.admission a).active ≡ held w a
  pub within : (w.admission a).active ≤ (w.admission a).maximum

reset_at-IsBalanced : (w : World) (i a : ℕ) → IsBalanced w a → IsBalanced (reset_at w i) a
unfolding reset_at
reset_at-IsBalanced w i a v = elim (Option-cases (get_elem? w.leases i)) [
  | inl e ↦ ground arith
  | inr (none, e) ↦ ground (arith, total-set (holds a) w.leases i none none e)
  | inr (some b, e) ↦ ground (arith, total-set (holds a) w.leases i (some b) none e)
]

enter_into-IsBalanced :
    (w : World) (a i b : ℕ) → IsBalanced w a → IsBalanced w b → IsBalanced (enter_into w a i) b
unfolding enter_into
enter_into-IsBalanced w a i b u v = elim (Option-cases (get_elem? w.leases i)) [
  | inl e ↦ ground arith
  | inr (none, e) ↦ ground (
    arith,
    total-set (holds b) w.leases i none none e,
    total-set (holds b) w.leases i none (some a) e,
  )
  | inr (some c, e) ↦ ground (
    arith,
    total-set (holds b) w.leases i (some c) none e,
    total-set (holds b) w.leases i (some c) (some a) e,
  )
]

-- The two writes of a move between different variables, as sums.
module _ (a : ℕ) (ls : List Lease) (i j : ℕ) (old l : Lease) where
  moved-sum :
      i ≢ j
      → get_elem? ls i ≡ some old
      → get_elem? ls j ≡ some l
      → total (holds a) (set (set ls i l) j none) + holds a old ≡ total (holds a) ls
  moved-sum ne p q = omega (
    arith,
    total-set (holds a) ls i old l p,
    total-set (holds a) (set ls i l) j l none (get_elem?-set_ne ls i j l ne ∙ q),
  )

move_assign-IsBalanced : (w : World) (i j a : ℕ) → IsBalanced w a → IsBalanced (move_assign w i j) a
unfolding move_assign
move_assign-IsBalanced w i j a v = elim (Option-cases (get_elem? w.leases i)) [
  | inl e ↦ ground arith
  | inr (old, e) ↦ elim (Option-cases (get_elem? w.leases j)) [
    | inl f ↦ ground arith
    | inr (l, f) ↦
        elim old as (λ o. get_elem? w.leases i ≡ some o → IsBalanced (move_assign w i j) a) [
          | none ↦ λ e'. ground (arith, moved-sum a w.leases i j none l)
          | some b ↦ λ e'. ground (arith, moved-sum a w.leases i j (some b) l)
        ]
          e
  ]
]

step-IsBalanced :
    (w : World) (o : Op) → ((a : ℕ) → IsBalanced w a) → (a : ℕ) → IsBalanced (step w o) a
unfolding step
step-IsBalanced w (enters a i) v b = enter_into-IsBalanced w a i b (v a) (v b)
step-IsBalanced w (moves i j) v b = move_assign-IsBalanced w i j b (v b)
step-IsBalanced w (resets i) v b = reset_at-IsBalanced w i b (v b)

-- Whatever a program does with its leases (entering, moving one over another or over itself,
-- resetting), every admission keeps counting exactly the leases that name it.
pub run-IsBalanced :
    (w : World) (os : List Op) → ((a : ℕ) → IsBalanced w a) → (a : ℕ) → IsBalanced (run w os) a
unfolding run
run-IsBalanced w [] v = v
run-IsBalanced w (o ∷ os) v = run-IsBalanced (step w o) os (step-IsBalanced w o v)
