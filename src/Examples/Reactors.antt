-- ===== src/Examples/Reactors.antt =====
-- reactor.h: two reactors that share an accept task, and a session of the second one that ends while the
-- server stops.
use reactor.Prelude.{inr, ◌⊎◌, ◌≤◌, ◌≡◌, refl, true, false, List, [], ◌∷◌, arith, All}
use reactor.Admission.Solo.{try_enter, leave}
use reactor.Sessions.{
  Pc, outside, serving, accept, take_ticket, hop, spawn_posted, serve, end_session, refund,
  finish_session,
}
use reactor.Reactors.{
  Server, Conn, draining, waited, halted, update, view, put, begin, Reach, Reachable, start, next,
  connection, accept_ends, abort_all, flag_accepts, reap_accept, all_reaped, drain, end_in_time,
}
use reactor.Reactors.Past.{is_aborted, is_reaped}
use reactor.Reactors.Settled.{servers_settle}
use reactor.Reactors.Return.{stop_returns}
use reactor.Reactors.Drained.{IsOutside, all_drained}

-- The second connection, which goes to reactor 1.
abbrev conns : Pc → List Conn
conns p = record { home = 0; pc = outside } ∷ record { home = 1; pc = p } ∷ []

abbrev fresh : Server
fresh = begin true 1

abbrev accepted : Server
accepted = put fresh 1 (record (view fresh 1) {
  admission = record { maximum = 1; active = 1; high_water = 1; accepted = 1; rejected = 0 };
})

abbrev ticketed : Server
ticketed = put accepted 1 (record (view accepted 1) { sessions = 1 })

abbrev hopped : Server
hopped = put ticketed 1 (view ticketed 1)

abbrev spawned : Server
spawned = put hopped 1 (view hopped 1)

abbrev served : Server
served = put spawned 1 (record (view spawned 1) { served = 1 })

served-Reachable : Reachable true 2 true 1 (0 ∷ 1 ∷ []) served (conns serving)
unfolding try_enter
served-Reachable =
    next
      (next
        (next
          (next (next start (connection 1 refl (accept refl refl) (refl, refl, refl, refl)))
            (connection 1 refl take_ticket refl))
          (connection 1 refl hop refl))
        (connection 1 refl spawn_posted refl))
      (connection 1 refl (serve refl) refl)

-- Both reactors are told to abort, and the first one has been waited for.
abbrev stopping : Server
stopping = record served {
  walked = update (update served.walked 0 true) 1 true;
  accepting = update served.accepting 0 false;
  stopping = true;
  stage = draining false 1 true;
}

stopping-Reachable : Reachable true 2 true 1 (0 ∷ 1 ∷ []) stopping (conns serving)
stopping-Reachable =
    next
      (next
        (next
          (next
            (next
              (next (next served-Reachable (abort_all 0 refl (omega arith)))
                (abort_all 1 refl (omega arith)))
              (flag_accepts refl))
            (accept_ends 0 (inr refl) refl))
          (reap_accept 0 refl (omega arith) refl))
        (all_reaped refl))
      (drain 0 refl (omega arith) refl)

abbrev finished : Server
finished = put stopping 1 (view stopping 1)

abbrev refunded : Server
refunded = put finished 1 (record (view finished 1) {
  admission = record { maximum = 1; active = 0; high_water = 1; accepted = 1; rejected = 0 };
})

abbrev left : Server
left = put refunded 1 (record (view refunded 1) { sessions = 0 })

abbrev drained : Server
drained = record left { stage = waited; drained = true }

-- The session ends, and `stop` sees that.
ends :
    {s : Server} {ts : List Conn}
    → Reach true 2 s ts stopping (conns serving)
    → Reach true 2 s ts drained (conns outside)
unfolding leave
ends run =
    next
      (next
        (next
          (next (next run (connection 1 refl end_session tt)) (connection 1 refl (refund refl) tt))
          (connection 1 refl finish_session tt))
        (drain 1 refl (omega arith) refl))
      (end_in_time refl)

all_drained_example :
    All IsOutside (conns outside) × (drained.sessions 1 ≡ 0) × (drained.admission.active ≡ 0)
all_drained_example =
    all_drained true 2 true 1 (0 ∷ 1 ∷ []) drained (conns outside) 1 (omega arith) (omega arith)
      (omega arith, (omega arith, tt)) (ends stopping-Reachable) refl

servers_settle_example :
    ((is_aborted stopping.stage ≡ false) ⊎ (drained.served ≡ stopping.served))
    × ((is_reaped stopping.stage ≡ false) ⊎ (drained.sessions 1 ≤ stopping.sessions 1))
servers_settle_example =
    servers_settle true 2 true 1 (0 ∷ 1 ∷ []) stopping drained (conns serving) (conns outside) 1
      (omega arith) (omega arith) (omega arith, (omega arith, tt)) stopping-Reachable (ends start)

stop_returns_example :
    (s' : Server) × (ts' : List Conn) × Reach true 2
      (record stopping { failing = false })
      (conns serving)
      s'
      ts'
    × (s'.stage ≡ halted)
    × (s'.drained ≡ true)
stop_returns_example =
    stop_returns true 2 true 1 (0 ∷ 1 ∷ []) stopping (conns serving) (omega arith) (omega arith)
      (omega arith, (omega arith, tt)) stopping-Reachable refl
