-- ===== src/Examples/Shutdowns.antt =====
-- reactor.h: a reactor that is aborted and then tracks another node.
use reactor.Prelude.{ℕ, ◌≡◌, refl, none, some, arith, if◌then◌else◌, ◌==◌}
use reactor.AbortList.{add, link, remove, unlink}
use reactor.Shutdown.{
  abort, force, Reactor, make, enlist, track_with, Deeds, nothing, tracks_then, untracks_then,
  aborts_again_then, perform_all, walk_loop, walk, abort_all, force_all, Reachable, start, next,
  tracks, aborts_all,
}
use reactor.Shutdown.Hooks.{WasReached}
use reactor.Shutdown.Reached.{tracked-WasReached, shutdown_ends}

-- The hook of node 2 takes it out of the list.
abbrev hooks : ℕ → Deeds
hooks a = if a == 2 then untracks_then 2 nothing else nothing

-- The `abort` of node 4 calls `abort_all` again, and tracks node 5.
abbrev late : Deeds
late = aborts_again_then (tracks_then 5 nothing nothing nothing)

-- Nodes 2 and 3 of the reactor whose list is 1.
abbrev tracking : Reactor
tracking = enlist 3 nothing nothing (enlist 2 nothing nothing (make 1))

tracking-Reachable : Reachable 1 tracking
unfolding enlist track_with add link
tracking-Reachable =
    next (next start (tracks 2 nothing nothing (omega arith) refl))
      (tracks 3 nothing nothing (omega arith) refl)

abbrev aborted : Reactor
aborted = elim (abort_all hooks 3 tracking) [ none ↦ tracking | some r ↦ r ]

aborted-Reachable : Reachable 1 (enlist 4 late nothing aborted)
unfolding abort_all walk walk_loop perform_all enlist track_with add link remove unlink
aborted-Reachable =
    next (next tracking-Reachable (aborts_all hooks 3 refl))
      (tracks 4 late nothing (omega arith) refl)

late-tracked :
    ((enlist 4 late nothing aborted).aborts.heap 4).list
    ≡ (enlist 4 late nothing aborted).aborts.self
unfolding abort_all walk walk_loop perform_all enlist track_with add link remove unlink
late-tracked = refl

tracked-WasReached_example :
    WasReached abort (enlist 4 late nothing aborted) 4
    × WasReached force (enlist 4 late nothing aborted) 4
tracked-WasReached_example =
    tracked-WasReached 1 (enlist 4 late nothing aborted) 4 (omega arith) aborted-Reachable
      late-tracked

shutdown_ends_example :
    (fuel : ℕ) × ((r : Reactor) × (abort_all hooks fuel tracking ≡ some r))
    × ((r : Reactor) × (force_all hooks fuel tracking ≡ some r))
shutdown_ends_example = shutdown_ends 1 tracking hooks (omega arith) tracking-Reachable
