-- ===== src/Examples/Servers.antt =====
-- reactor.h: a `TcpServer` of three reactors whose second thread cannot be made, and its phases.
use reactor.Prelude.{ℕ, ◌==◌, ◌≡◌, true, false, Bool, [], ◌∷◌, arith, not, if◌then◌else◌}
use reactor.TcpServer.{make, stop}
use reactor.TcpServer.Start.{Startup, start}
use reactor.TcpServer.Start.Attempt.{IsUnused}
use reactor.TcpServer.Start.Outcomes.{Ends, IsFresh, start_lem}
use reactor.TcpServer.Phases.{stops, closes, destroys, phases, after, teardown, phases_lem}
use reactor.TcpServer.Phases.Settled.{phases-start}

abbrev system : Startup
system = record {
  service_fails = λ i. false;
  probe_fails = λ i. false;
  thread_fails = λ i. i == 1;
  task_fails = λ i. false;
  listening_fails = λ i. false;
  bound_port = λ p. if p == 0 then 40000 else p;
}

-- The sessions of the last reactor do not end in time.
abbrev ends : ℕ → Bool
ends r = not (r == 2)

three-IsFresh : IsFresh (make 3 0)
unfolding make
three-IsFresh = ground arith

start_lem_example : Ends system 0 (make 3 0) (start system ends 0 (make 3 0))
start_lem_example = start_lem system ends 0 (make 3 0) three-IsFresh

phases_lem_example :
    phases ends (stops ∷ destroys ∷ closes ∷ []) (make 3 0)
    ≡ after (teardown (make 3 0).reactors (stops ∷ destroys ∷ closes ∷ [])) (stop ends (make 3 0))
phases_lem_example = phases_lem ends stops (destroys ∷ closes ∷ []) (make 3 0)

phases-start_example :
    IsUnused (phases ends (stops ∷ destroys ∷ []) (start system ends 0 (make 3 0)).0)
    × ((phases ends (stops ∷ destroys ∷ []) (start system ends 0 (make 3 0)).0).stopped ≡ true)
phases-start_example = phases-start system ends 0 stops (destroys ∷ []) (make 3 0) three-IsFresh
