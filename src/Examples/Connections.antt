-- ===== src/Examples/Connections.antt =====
-- reactor.h: two connections of a server with one place.
use reactor.Prelude.{◌+◌, ◌≤◌, ◌≡◌, refl, true, false, [], ◌∷◌, arith, total, if◌then◌else◌}
use reactor.Prelude.Threads.{start, later, turn}
use reactor.Admission.Solo.{try_enter}
use reactor.Sessions.{
  Memory, outside, serving, Reachable, accept, refuse, take_ticket, hop, spawn_posted, serve,
}
use reactor.Sessions.Counted.{is_counted, is_leased, is_admitted, sessions_count}

abbrev busy : Memory
busy = record {
  bounded = true;
  admission = record { maximum = 1; active = 1; high_water = 1; accepted = 1; rejected = 1 };
  sessions = 1;
  walked = false;
  served = 1;
}

-- One session is running, and the other connection was refused.
busy-Reachable : Reachable true 1 2 busy (serving ∷ outside ∷ [])
unfolding try_enter
busy-Reachable =
    later
      (later
        (later
          (later (later (later start (turn 0 refl (accept refl refl))) (turn 0 refl take_ticket))
            (turn 0 refl hop))
          (turn 0 refl spawn_posted))
        (turn 0 refl (serve refl)))
      (turn 1 refl (refuse refl refl))

sessions_count_example :
    (busy.sessions ≡ total is_counted (serving ∷ outside ∷ []))
    × (busy.admission.active ≡ (if true then total is_leased (serving ∷ outside ∷ []) else 0))
    × (busy.admission.active ≤ 1)
    × (busy.admission.active ≤ busy.sessions + total is_admitted (serving ∷ outside ∷ []))
sessions_count_example =
    sessions_count true 2 1 busy (serving ∷ outside ∷ []) (omega arith) (omega arith) busy-Reachable
