-- ===== src/Shutdown.antt =====
-- reactor.h: `Reactor::track`, `untrack`, `abort_all` and `force_all`, as they run on the loop. What
-- a hook does through the reactor is an input.
pub mod Hooks
pub mod Walk
pub mod Tracked
pub mod Reached
use reactor.Prelude.{
  ℕ, zero, suc, ◌≡◌, ◌≢◌, Bool, true, false, not, ◌||◌, Option, none, some, List, [], ◌∷◌,
  if◌then◌else◌, ◌==◌,
}
use reactor.AbortList.{AbortList, node, add, remove}

-- The virtual functions of an `Abortable`.
pub data Hook : Type 0 where
  abort force : Hook

-- The members that shutdown uses, and the nodes whose hooks have been called, the last first.
pub record Reactor : Type 0 where
  pub aborts : AbortList
  pub aborting : Bool
  pub walked : Bool
  pub forced : Bool
  pub aborted_nodes : List ℕ
  pub forced_nodes : List ℕ

-- A reactor whose list is named `self`, and nodes that are in no list.
abbrev pub make : ℕ → Reactor
make self = record {
  aborts = record { heap = λ a. node 0 0 0; self = self; head = 0; cursor = 0 };
  aborting = false;
  walked = false;
  forced = false;
  aborted_nodes = [];
  forced_nodes = [];
}

-- `a.abort()` or `a.force()`
abbrev pub call : Hook → ℕ → Reactor → Reactor
call abort a r = record r { aborted_nodes = a ∷ r.aborted_nodes }
call force a r = record r { forced_nodes = a ∷ r.forced_nodes }

-- What a hook does through the reactor before it returns: it tracks a node, whose own hooks do
-- `late_abort` and `late_force` if `track` calls them; it untracks one; or it calls `abort_all`, which
-- has begun, so that its exchange returns at once. A hook that walks the list anew, as one that calls
-- `force_all` does, is part of AbortList/Nested.
pub data Deeds : Type 0 where
  nothing : Deeds
  tracks_then : (a : ℕ) (late_abort late_force rest : Deeds) → Deeds
  untracks_then : (a : ℕ) (rest : Deeds) → Deeds
  aborts_again_then : (rest : Deeds) → Deeds

-- `Reactor::track`, where the hooks of the node do `on_abort` and `on_force`.
unfoldable pub track_with : (on_abort on_force : Reactor → Reactor) → ℕ → Reactor → Reactor
track_with on_abort on_force a r =
    let added : Reactor = record r { aborts = add a r.aborts } in
    let late : Reactor = if added.walked then on_abort (call abort a added) else added in
    if late.forced then on_force (call force a late) else late

-- `Reactor::untrack`
unfoldable pub delist : ℕ → Reactor → Reactor
delist a r = record r { aborts = remove a r.aborts }

-- A hook tracks only nodes that are in no list.
abbrev pub is_taken : ℕ → Reactor → Bool
is_taken a r = a == 0 || not ((r.aborts.heap a).list == 0)

unfoldable pub perform_all : Deeds → Reactor → Reactor
unfolding track_with delist
perform_all nothing r = r
perform_all (tracks_then a la lf rest) r =
    let tracked : Reactor = track_with (perform_all la) (perform_all lf) a r in
    perform_all rest (if is_taken a r then r else tracked)
perform_all (untracks_then a rest) r = perform_all rest (delist a r)
perform_all (aborts_again_then rest) r = perform_all rest r

-- `Reactor::track` of a node whose hooks do these deeds, if they are called.
unfoldable pub enlist : ℕ → (late_abort late_force : Deeds) → Reactor → Reactor
enlist a la lf = track_with (perform_all la) (perform_all lf) a

-- The loop of `AbortList::each` over the hook `h`, which does `f a` for the node `a`. `none`: out of
-- fuel.
unfoldable pub walk_loop : Hook → (ℕ → Deeds) → ℕ → Reactor → Option Reactor
walk_loop h f zero r = none
walk_loop h f (suc fuel) r =
    let a : ℕ = r.aborts.cursor in
    let moved : Reactor = record r {
      aborts = record r.aborts { cursor = (r.aborts.heap a).next };
    } in
    let rest = walk_loop h f fuel (perform_all (f a) (call h a moved)) in
    if a == 0 then some r else rest

unfoldable pub walk : Hook → (ℕ → Deeds) → ℕ → Reactor → Option Reactor
unfolding walk_loop
walk h f fuel r =
    elim (walk_loop h f fuel (record r { aborts = record r.aborts { cursor = r.aborts.head } })) [
      | none ↦ none
      | some r' ↦ some (record r' { aborts = record r'.aborts { cursor = r.aborts.cursor } })
    ]

unfoldable pub abort_all : (ℕ → Deeds) → ℕ → Reactor → Option Reactor
abort_all f fuel r =
    if r.aborting then some r else walk abort f fuel (record r { aborting = true; walked = true })

unfoldable pub force_all : (ℕ → Deeds) → ℕ → Reactor → Option Reactor
force_all f fuel r = walk force f fuel (record r { forced = true })

-- What runs on the loop, with any fuel that a walk needs.
pub data Step (r : Reactor) : Reactor → Type 0 where
  tracks : (a : ℕ) (la lf : Deeds) → a ≢ 0 → (r.aborts.heap a).list ≡ 0 → Step r (enlist a la lf r)
  untracks : (a : ℕ) → Step r (delist a r)
  aborts_all : (f : ℕ → Deeds) (fuel : ℕ) {r' : Reactor} → abort_all f fuel r ≡ some r' → Step r r'
  forces_all : (f : ℕ → Deeds) (fuel : ℕ) {r' : Reactor} → force_all f fuel r ≡ some r' → Step r r'

pub data Reachable (self : ℕ) : Reactor → Type 0 where
  start : Reachable self (make self)
  next : {r r' : Reactor} → Reachable self r → Step r r' → Reachable self r'
