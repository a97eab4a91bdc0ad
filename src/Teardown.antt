-- ===== src/Teardown.antt =====
-- reactor.h: `abort_all` and `force_all` from any thread: their walks run in `on_loop_sync`, beside the
-- handlers of the loop that track and untrack abortables. A walk is one step: the threads of a loop do
-- not run beside it.
pub mod Walks
pub mod Returned
use reactor.Prelude.{
  ℕ, ◌≡◌, ◌≢◌, Bool, true, false, Option, none, some, List, [], ◌∷◌, get_elem?, set,
}
use reactor.Sync.{
  Memory, Pc, inline, outside, queueing, opening, taken, returning, running, finishing, looping,
  Move, init, idle,
}
use reactor.AbortList.Links.{has}
use reactor.Shutdown.Hooks.{begun}
use reactor.Shutdown.{Reactor, make, Hook, abort, force, Deeds, enlist, delist, walk}

-- What `abort_all` and `force_all` give to `on_loop_sync`: the flag, and the walk, where `f` is what the
-- hooks do.
abbrev pub flagged : Hook → Reactor → Reactor
flagged abort r = record r { walked = true }
flagged force r = record r { forced = true }

pub data Body (h : Hook) (r : Reactor) : Reactor → Type 0 where
  walks :
      (f : ℕ → Deeds) (fuel : ℕ) {r' : Reactor}
      → walk h f fuel (flagged h r) ≡ some r'
      → Body h r r'

-- `abort_all` calls `on_loop_sync` only when its exchange has set `aborting_`.
abbrev pub is_granted : Hook → Reactor → Bool
is_granted abort r = r.aborting
is_granted force r = true

-- What a move of a caller, or of a thread of the loop, does to the reactor, where call `id` of
-- `on_loop_sync` is that of the walk over the hook `op id`.
abbrev pub Effect : (op : ℕ → Hook) → Pc → Pc → Reactor → Reactor → Type 0
Effect op queueing (opening id) r r' = (is_granted (op id) r ≡ true) × (r' ≡ r)
Effect op (running id) (finishing id') r r' = Body (op id) r r'
Effect op (taken id) (returning id') r r' = Body (op id) r r'
Effect op inline outside r r' = (h : Hook) × (is_granted h r ≡ true) × Body h r r'
Effect op looping looping r r' = (h : Hook) × (is_granted h r ≡ true) × Body h r r'
Effect op p q r r' = r' ≡ r

-- The states that `n` callers and threads of the loop reach with the reactor whose list is `self`.
pub data Reaches (op : ℕ → Hook) (n self : ℕ) : Memory → List Pc → Reactor → Type 0 where
  start : Reaches op n self init (idle n) (make self)
  moves :
      {m m' : Memory} {ts : List Pc} {r r' : Reactor} {p q : Pc} (i : ℕ)
      → Reaches op n self m ts r
      → get_elem? ts i ≡ some p
      → Move m p m' q
      → Effect op p q r r'
      → Reaches op n self m' (set ts i q) r'
  -- the exchange of `abort_all`, on any thread
  exchange :
      {m : Memory} {ts : List Pc} {r : Reactor}
      → Reaches op n self m ts r
      → r.aborting ≡ false
      → Reaches op n self m ts (record r { aborting = true })
  -- a call of `abort_all` that finds `aborting_` set, which returns at once
  returns_at_once :
      {m : Memory} {ts : List Pc} {r : Reactor}
      → Reaches op n self m ts r
      → r.aborting ≡ true
      → Reaches op n self m ts r
  -- a handler that tracks or untracks
  tracks :
      {m : Memory} {ts : List Pc} {r : Reactor} (a : ℕ) (la lf : Deeds)
      → Reaches op n self m ts r
      → a ≢ 0
      → (r.aborts.heap a).list ≡ 0
      → Reaches op n self m ts (enlist a la lf r)
  untracks :
      {m : Memory} {ts : List Pc} {r : Reactor} (a : ℕ)
      → Reaches op n self m ts r
      → Reaches op n self m ts (delist a r)

-- The moments at which the walk over `h` is known to have run: a call of `on_loop_sync` that ran it is
-- about to return, or has run it before; or its flag is set, also by a call that ran it inline.
pub data HasRun (op : ℕ → Hook) (h : Hook) (m : Memory) (ts : List Pc) (r : Reactor) : Type 0 where
  returns : (i id : ℕ) → op id ≡ h → get_elem? ts i ≡ some (returning id) → HasRun op h m ts r
  ran_before : (id : ℕ) → op id ≡ h → has id m.ran ≡ true → HasRun op h m ts r
  flag_set : begun h r ≡ true → HasRun op h m ts r
