-- ===== src/Shutdown/Reached.antt =====
-- Every node that is tracked has been reached by the walks that have begun.
use mathlib.Core.List.{append-nil}
use reactor.Prelude.{
  ℕ, suc, ◌≡◌, ◌≢◌, sym, subst, ◌∙◌, true, List, [], ◌∷◌, ◌==◌, ==_iff, some, Bool-cases, inl, inr,
  length, All,
}
use reactor.AbortList.Links.{has}
use reactor.Shutdown.{Reachable, abort_all, force_all, abort, force, Reactor, Deeds}
use reactor.Shutdown.Hooks.{WasReached}
use reactor.Shutdown.Walk.{other}
use reactor.Shutdown.Tracked.{
  Tracked, walk_ends, Reachable-Tracked, abort_all_again, abort_all_first,
}

pub All-has : (P : ℕ → Type 0) (a : ℕ) (xs : List ℕ) → All P xs → has a xs ≡ true → P a
All-has P a [] h m = cc
All-has P a (x ∷ xs) h m = elim (Bool-cases (a == x)) [
  | inl same ↦ subst P (sym ((==_iff a x).0 same)) h.0
  | inr other ↦ All-has P a xs h.1 (rw other at m)
]

-- Whatever is tracked, untracked and walked on the loop, where each hook returns, tracks and untracks
-- any nodes, also when `track` itself calls it, and walks the list only by an `abort_all` that has
-- begun and returns at once: once
-- `abort_all` has begun, `abort` has been called on every node that is tracked, also on one that was
-- tracked since; and once `force_all` has begun, `force` has.
pub tracked-WasReached :
    (self : ℕ) (r : Reactor) (a : ℕ)
    → self ≢ 0
    → Reachable self r
    → (r.aborts.heap a).list ≡ r.aborts.self
    → WasReached abort r a × WasReached force r a
tracked-WasReached self r a ne h e =
    let (xs, v) = Reachable-Tracked self ne r h in
    let there : has a xs ≡ true = subst (λ l. has a l ≡ true) (append-nil xs) (v.list.owned a e) in
    (All-has _ a xs v.aborted there, All-has _ a xs v.forced there)

abort_all_ends :
    (r : Reactor) (f : ℕ → Deeds) (xs : List ℕ)
    → Tracked r xs
    → (r' : Reactor) × (abort_all f (suc (length xs)) r ≡ some r')
abort_all_ends r f xs v = elim (Bool-cases r.aborting) [
  | inl before ↦ (r, abort_all_again f (suc (length xs)) r before)
  | inr first ↦
      let (r', e) =
        walk_ends abort f (record r { aborting = true; walked = true }) xs v.list v.forced in
      (r', abort_all_first f (suc (length xs)) r first ∙ e)
]

-- A walk of shutdown ends when its hooks do: from each state that the loop can reach, where each hook
-- returns, tracks and untracks any nodes, also when `track` itself calls it, and walks the list only
-- by an `abort_all` that has begun and returns at once, `abort_all` and `force_all` return with some fuel.
pub shutdown_ends :
    (self : ℕ) (r : Reactor) (f : ℕ → Deeds)
    → self ≢ 0
    → Reachable self r
    → (fuel : ℕ) × ((r' : Reactor) × (abort_all f fuel r ≡ some r'))
      × ((r' : Reactor) × (force_all f fuel r ≡ some r'))
unfolding force_all
shutdown_ends self r f ne h =
    let (xs, v) = Reachable-Tracked self ne r h in
    (
      suc (length xs),
      abort_all_ends r f xs v,
      walk_ends force f (record r { forced = true }) xs v.list v.aborted,
    )
