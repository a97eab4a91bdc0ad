-- ===== src/Echo/Run.antt =====
-- examples/echo_server.cc: `main`, on the model of `TcpServer`. What `sigwait` waits for is not part of
-- it.
use reactor.Prelude.{ℕ, ◌≡◌, subst, Bool, true, arith, [], ◌∷◌, Option, none, some, ◌%◌, ◌^◌}
use reactor.TcpServer.{Server, make}
use reactor.TcpServer.Start.{Startup, Outcome, start}
use reactor.TcpServer.Start.Attempt.{IsUnused}
use reactor.TcpServer.Start.Outcomes.{IsFresh}
use reactor.TcpServer.Phases.{stops, destroys, phases}
use reactor.TcpServer.Phases.Settled.{phases-start}

-- The port, where `atoi` of the first argument is the pattern of an `int`.
pub port_of : Option ℕ → ℕ
port_of none = 9000
port_of (some n) = n % 2 ^ 16

-- The stop, and the destructor. When `start` throws the process ends.
unfoldable pub wind_up : (ended : ℕ → Bool) → Outcome → Option Server
wind_up ended (s, none) = some (phases ended (stops ∷ destroys ∷ []) s)
wind_up ended (s, some e) = none

-- The server at the end of `main`.
pub main : Startup → (ended : ℕ → Bool) → (argument : Option ℕ) → Option Server
unfolding port_of wind_up
main u ended argument = wind_up ended (start u ended (port_of argument) (make 4 0))

wind_up_lem :
    (ended : ℕ → Bool) (o : Outcome) (t : Server)
    → wind_up ended o ≡ some t
    → phases ended (stops ∷ destroys ∷ []) o.0 ≡ t
unfolding wind_up
wind_up_lem ended (s, none) t e = cc
wind_up_lem ended (s, some x) t e = cc

make-IsFresh : IsFresh (make 4 0)
unfolding make
make-IsFresh = ground arith

-- When `main` gets to its end, whatever its argument and however the grace for sessions ends, its
-- server is stopped, and no thread, claim on a loop, guard or accept task is left.
pub main_lem :
    (u : Startup) (ended : ℕ → Bool) (argument : Option ℕ) (t : Server)
    → main u ended argument ≡ some t
    → IsUnused t × (t.stopped ≡ true)
unfolding main
main_lem u ended argument t e =
    subst (λ t'. IsUnused t' × (t'.stopped ≡ true))
      (wind_up_lem ended (start u ended (port_of argument) (make 4 0)) t e)
      (phases-start u ended (port_of argument) stops (destroys ∷ []) (make 4 0) make-IsFresh)
