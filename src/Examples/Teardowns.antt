-- ===== src/Examples/Teardowns.antt =====
-- reactor.h: a call of `abort_all` that the loop runs, while a node is tracked.
use reactor.Prelude.{ℕ, ◌≡◌, refl, true, false, none, some, [], ◌∷◌, arith}
use reactor.AbortList.{add, link}
use reactor.AbortList.Links.{has}
use reactor.Sync.{
  Memory, outside, looping, returning, has_loop, lock_call, open_call, post, claim, handle, take,
  run_posted, finish, was_done,
}
use reactor.Shutdown.{
  Hook, abort, Deeds, nothing, track_with, Reactor, make, enlist, perform_all, walk_loop, walk,
}
use reactor.Shutdown.Hooks.{reached}
use reactor.Teardown.{Reaches, start, moves, exchange, tracks, returns, Body, walks, flagged}
use reactor.Teardown.Returned.{returning-reached}

abbrev op : ℕ → Hook
op id = abort

abbrev hooks : ℕ → Deeds
hooks a = nothing

abbrev asked : Reactor
asked = record (enlist 2 nothing nothing (make 1)) { aborting = true }

abbrev aborted : Reactor
aborted = elim (walk abort hooks 2 (flagged abort asked)) [ none ↦ asked | some r ↦ r ]

walked : Body abort asked aborted
unfolding walk walk_loop perform_all enlist track_with add link
walked = walks hooks 2 refl

abbrev done : Memory
done = record {
  loops = 1;
  held = true;
  sync_calls = 1;
  sync_open = 0;
  sync_done = 1;
  posted = [];
  begun = 1;
  ran = 1 ∷ [];
}

asked-Reaches :
    Reaches op 2 1
      (record done { held = false; sync_calls = 0; sync_done = 0; begun = 0; ran = [] })
      (outside ∷ looping ∷ [])
      asked
asked-Reaches =
    exchange (tracks 2 nothing nothing (moves 1 start refl claim refl) (omega arith) refl)
      (unfold enlist track_with in refl)

returning-Reaches : Reaches op 2 1 done (returning 1 ∷ looping ∷ []) aborted
returning-Reaches =
    let posted =
      moves 0
        (moves 0
          (moves 0 (moves 0 asked-Reaches refl (has_loop (omega arith)) refl) refl (lock_call refl)
            (refl, refl))
          refl open_call refl)
        refl post refl in
    moves 0
      (moves 1
        (moves 1 (moves 1 (moves 1 posted refl (handle refl) refl) refl (take refl) refl) refl
          run_posted walked)
        refl finish refl)
      refl (was_done refl) refl

tracked_still : (aborted.aborts.heap 2).list ≡ aborted.aborts.self
unfolding walk walk_loop perform_all enlist track_with add link
tracked_still = refl

returning-reached_example : has 2 (reached abort aborted) ≡ true
returning-reached_example =
    returning-reached op 2 1 done (returning 1 ∷ looping ∷ []) aborted abort 2 (omega arith)
      (omega arith) returning-Reaches (returns 0 1 refl refl) tracked_still
