-- ===== src/Examples/Admissions.antt =====
-- connection_admission.h: a bound of one, or of two, and a few tasks.
use reactor.Prelude.{ℕ, ◌≤◌, ◌≡◌, refl, [], ◌∷◌, none, arith, total}
use reactor.Prelude.Threads.{Run, stop, then_move, Run-Reach}
use reactor.Admission.{
  State, Memory, outside, leased, Move, init, idle, Reachable, load_active, enter, load_accepted,
  accept_counted, load_high_water, high_raised, stats,
}
use reactor.Admission.Safety.{is_leased, leases-le-bound, stats_exact}
use reactor.Admission.Leases.{World, enters, moves, resets, run, IsBalanced, run-IsBalanced}

abbrev fresh_state : ℕ → State
fresh_state bound = record {
  maximum = bound;
  active = 0;
  high_water = 0;
  accepted = 0;
  rejected = 0;
}

abbrev entered_state : State
entered_state = record { maximum = 1; active = 1; high_water = 1; accepted = 1; rejected = 0 }

abbrev one_in : Memory
one_in = record { state = entered_state; peak = 1; entries = 1; refusals = 0 }

-- One task enters alone.
entered : Run Move (init 1) outside one_in leased
entered =
    then_move
      (then_move
        (then_move
          (then_move (then_move (then_move stop load_active) (enter (omega arith) refl))
            load_accepted)
          (accept_counted (omega arith) refl))
        load_high_water)
      (high_raised (omega arith) refl)

-- The first of two tasks is in, and the other outside.
first_in : Reachable 2 1 one_in (leased ∷ outside ∷ [])
first_in = Run-Reach (idle 2) 0 refl entered

leases-le-bound_example :
    (total is_leased (leased ∷ outside ∷ []) ≤ one_in.active) × (one_in.active ≤ 1)
leases-le-bound_example = leases-le-bound 2 1 one_in (leased ∷ outside ∷ []) (omega arith) first_in

stats_exact_example :
    stats one_in.state ≡ record { active = 1; high_water = 1; accepted = 1; rejected = 0 }
stats_exact_example =
    stats_exact 2 1 one_in (leased ∷ outside ∷ []) (omega arith) first_in (tt, (tt, tt))

abbrev world : World
world = record { admission = λ a. fresh_state 1; leases = none ∷ none ∷ [] }

world-IsBalanced : (a : ℕ) → IsBalanced world a
world-IsBalanced a = ground arith

-- A lease is taken, moved over another, moved over itself and reset.
run-IsBalanced_example :
    IsBalanced (run world (enters 7 0 ∷ moves 1 0 ∷ moves 1 1 ∷ enters 7 0 ∷ resets 1 ∷ [])) 7
run-IsBalanced_example =
    run-IsBalanced world (enters 7 0 ∷ moves 1 0 ∷ moves 1 1 ∷ enters 7 0 ∷ resets 1 ∷ [])
      world-IsBalanced 7
