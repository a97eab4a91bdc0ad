-- ===== src/Shutdown/Hooks.antt =====
-- Which nodes the hooks of shutdown have reached, and what keeps them reached.
use reactor.Prelude.{ℕ, ◌≡◌, Bool, true, ◌||◌, not, if◌then◌else◌, List, [], ◌∷◌, arith, All}
use reactor.AbortList.{add}
use reactor.AbortList.Links.{has}
use reactor.Shutdown.{Hook, abort, force, Reactor, call, delist}

-- The nodes whose hook `h` has been called.
abbrev pub reached : Hook → Reactor → List ℕ
reached abort r = r.aborted_nodes
reached force r = r.forced_nodes

-- The walk over `h` has begun.
abbrev pub begun : Hook → Reactor → Bool
begun abort r = r.walked
begun force r = r.forced

-- The nodes `done` have been reached, if their walk has begun.
abbrev pub IsReached : Hook → Reactor → List ℕ → Type 0
IsReached h r done = All (λ a. (not (begun h r) || has a (reached h r)) ≡ true) done

-- One node is reached, if the walk has begun.
abbrev pub WasReached : Hook → Reactor → ℕ → Type 0
WasReached h r a = (not (begun h r) || has a (reached h r)) ≡ true

-- As long as `track` has still to call the `force` of the nodes `late`, they count as forced.
abbrev pub excused : Hook → List ℕ → List ℕ
excused abort late = []
excused force late = late

abbrev pub WasReachedBut : List ℕ → Hook → Reactor → ℕ → Type 0
WasReachedBut late h r a =
    (has a (excused h late) || (not (begun h r) || has a (reached h r))) ≡ true

abbrev pub IsReachedBut : List ℕ → Hook → Reactor → List ℕ → Type 0
IsReachedBut late h r done = All (WasReachedBut late h r) done

-- The first part of `track`, with the call of a late `abort`.
abbrev pub entered : ℕ → Reactor → Reactor
entered a r =
    let added : Reactor = record r { aborts = add a r.aborts } in
    if r.walked then call abort a added else added

pub entered-aborts : (a : ℕ) (r : Reactor) → (entered a r).aborts ≡ add a r.aborts
entered-aborts a r = ground arith

pub entered-keeps :
    (late : List ℕ) (h : Hook) (a : ℕ) (r : Reactor) (b : ℕ)
    → WasReachedBut late h r b
    → WasReachedBut (a ∷ late) h (entered a r) b
entered-keeps late abort a r b v = ground arith
entered-keeps late force a r b v = ground arith

pub entered-reaches :
    (late : List ℕ) (h : Hook) (a : ℕ) (r : Reactor) → WasReachedBut (a ∷ late) h (entered a r) a
entered-reaches late abort a r = ground arith
entered-reaches late force a r = ground arith

-- The call of a late `force`.
abbrev pub late_forced : ℕ → Reactor → Reactor
late_forced a r = if r.forced then call force a r else r

pub late_forced-keeps :
    (late : List ℕ) (h : Hook) (a : ℕ) (r : Reactor) (b : ℕ)
    → WasReachedBut (a ∷ late) h r b
    → WasReachedBut late h (late_forced a r) b
late_forced-keeps late abort a r b v = ground arith
late_forced-keeps late force a r b v = ground arith

pub delist-keeps :
    (late : List ℕ) (h : Hook) (r : Reactor) (a b : ℕ)
    → WasReachedBut late h r b
    → WasReachedBut late h (delist a r) b
unfolding delist
delist-keeps late abort r a b v = v
delist-keeps late force r a b v = v

-- The walk takes the node at its cursor, moves on, and calls the node's hook.
abbrev pub visit : Hook → Reactor → Reactor
visit h r =
    let a : ℕ = r.aborts.cursor in
    call h a (record r { aborts = record r.aborts { cursor = (r.aborts.heap a).next } })

pub visit-reaches :
    (late : List ℕ) (h : Hook) (r : Reactor) (x : ℕ)
    → r.aborts.cursor ≡ x
    → WasReachedBut late h (visit h r) x
visit-reaches late abort r x e = ground arith
visit-reaches late force r x e = ground arith

pub visit-keeps :
    (late : List ℕ) (h k : Hook) (r : Reactor) (b : ℕ)
    → WasReachedBut late h r b
    → WasReachedBut late h (visit k r) b
visit-keeps late abort abort r b v = ground arith
visit-keeps late abort force r b v = v
visit-keeps late force abort r b v = v
visit-keeps late force force r b v = ground arith
