-- ===== src/Examples/Calls.antt =====
-- reactor.h: a call of `on_loop_sync` that the loop runs, and one that its caller takes back.
use reactor.Prelude.{ℕ, ◌+◌, ◌≤◌, ◌≡◌, refl, true, [], ◌∷◌, arith, total, All}
use reactor.Prelude.Threads.{start, later, turn}
use reactor.Sync.{
  Memory, waiting, looping, Reachable, has_loop, lock_call, open_call, post, claim, handle, take,
  run_posted, finish,
}
use reactor.Sync.Stages.{countdown, is_waiting}
use reactor.Sync.Once.{Knows, is_unserved, is_serving, on_loop_sync_once}

abbrev waits : Memory
waits = record {
  loops = 1;
  held = true;
  sync_calls = 1;
  sync_open = 1;
  sync_done = 0;
  posted = 1 ∷ [];
  begun = 1;
  ran = [];
}

-- A thread runs the loop, and a caller has posted its call.
waits-Reachable : Reachable 2 waits (waiting 1 ∷ looping ∷ [])
waits-Reachable =
    later
      (later
        (later (later (later start (turn 1 refl claim)) (turn 0 refl (has_loop (omega arith))))
          (turn 0 refl (lock_call refl)))
        (turn 0 refl open_call))
      (turn 0 refl post)

abbrev ran_on_loop : Memory
ran_on_loop = record waits { sync_open = 0; sync_done = 1; posted = []; ran = 1 ∷ [] }

-- The loop has run it.
ran-Reachable : Reachable 2 ran_on_loop (waiting 1 ∷ looping ∷ [])
ran-Reachable =
    later
      (later (later (later waits-Reachable (turn 1 refl (handle refl))) (turn 1 refl (take refl)))
        (turn 1 refl run_posted))
      (turn 1 refl finish)

on_loop_sync_once_example :
    (k : ℕ) × (ran_on_loop.ran ≡ countdown k)
    × (ran_on_loop.sync_calls ≤ k + total is_unserved (waiting 1 ∷ looping ∷ []))
    × (k ≤ ran_on_loop.sync_calls)
    × (total is_unserved (waiting 1 ∷ looping ∷ []) ≤ 1)
    × (total is_serving (waiting 1 ∷ looping ∷ []) ≤ total is_waiting (waiting 1 ∷ looping ∷ []))
    × All (Knows k) (waiting 1 ∷ looping ∷ [])
on_loop_sync_once_example =
    on_loop_sync_once 2 ran_on_loop (waiting 1 ∷ looping ∷ []) (omega arith) ran-Reachable
