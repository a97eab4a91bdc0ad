-- ===== src/Examples/Wakes.antt =====
-- reactor_events.h: two senders of a signal, and a timer that repeats and is stopped.
use reactor.Prelude.{◌+◌, ◌≤◌, ◌≡◌, ◌⊎◌, refl, true, false, List, [], ◌∷◌, arith, total, ◌++◌}
use reactor.Prelude.Threads.{start, later, turn}
use reactor.Events.Signal.{
  Memory, outside, waiting, Reachable, first, coalesce, post, is_posting, is_calling,
  sends-coalesce,
}
use reactor.Events.Timer.{fresh, Event, starts, agains, stops, fires, run}
use reactor.Events.Timer.Silence.{stop_silences}
use reactor.Events.Timer.Once.{live, IsDecreasing, run_once}

abbrev both_sent : Memory
both_sent = record { pending = true; posted = 1; sends = 2; seen = 0; calls = 0 }

-- The second sender finds the flag of the first one set.
sent : Reachable 2 both_sent (waiting ∷ outside ∷ outside ∷ [])
sent =
    later (later (later start (turn 1 refl (first refl))) (turn 2 refl (coalesce refl)))
      (turn 1 refl post)

sends-coalesce_example :
    ((both_sent.posted + total is_posting (waiting ∷ outside ∷ outside ∷ []) ≡ 1)
      ⊎ ((both_sent.posted + total is_posting (waiting ∷ outside ∷ outside ∷ []) ≡ 0)
          × (both_sent.seen ≡ both_sent.sends)))
    × (both_sent.calls + total is_calling (waiting ∷ outside ∷ outside ∷ []) ≤ both_sent.sends)
sends-coalesce_example = sends-coalesce 2 both_sent (waiting ∷ outside ∷ outside ∷ []) sent

-- Started twice, fired, and stopped while the next wait is pending.
abbrev events : List Event
events =
    starts ∷ starts ∷ fires 1 true true 5 ∷ fires 0 false true 5 ∷ stops ∷ fires 0 false true 5 ∷ []

run_once_example : IsDecreasing (run fresh events).called × (live (run fresh events) ≤ 1)
run_once_example = run_once events (omega arith)

-- Stopped while a wait is pending, which completes without an error all the same.
stop_silences_example :
    (run fresh (
      (starts ∷ fires 0 false true 5 ∷ [])
      ++ (stops ∷ fires 0 false true 5 ∷ agains 0 ∷ []))).called
    ≡ (run fresh (starts ∷ fires 0 false true 5 ∷ [])).called
stop_silences_example =
    stop_silences (starts ∷ fires 0 false true 5 ∷ []) (fires 0 false true 5 ∷ agains 0 ∷ [])
      (omega arith) (tt, (refl, tt))
