-- ===== src/Examples/Gates.antt =====
-- reactor.h: an `AdmissionGate` with a limit of one.
use reactor.Prelude.{◌+◌, ◌-◌, ◌≤◌, ◌≡◌, refl, [], ◌∷◌, arith, total, u64}
use reactor.Prelude.Threads.{start, later, turn}
use reactor.Gate.{Memory, backing, inside, enter, refuse, Reachable}
use reactor.Gate.Bound.{is_inside, is_backing, inside-le-limit}

abbrev one_in : Memory
one_in = record { gate = record { inflight = 1; rejected = 0; limit = 1 }; refusals = 0 }

abbrev one_refused : Memory
one_refused = record { gate = record { inflight = 2; rejected = 0; limit = 1 }; refusals = 1 }

-- One task is in, and the other is being refused.
refusing : Reachable 2 1 one_refused (inside ∷ backing ∷ [])
refusing = later (later start (turn 0 refl (enter refl))) (turn 1 refl (refuse refl))

inside-le-limit_example :
    (total is_inside (inside ∷ backing ∷ []) ≤ 1)
    × (one_refused.inflight
        ≡ total is_inside (inside ∷ backing ∷ []) + total is_backing (inside ∷ backing ∷ []))
    × (one_refused.rejected ≡ u64 (1 - 1))
inside-le-limit_example =
    inside-le-limit 2 1 one_refused (inside ∷ backing ∷ []) (omega arith) (omega arith)
      (omega arith) refusing
