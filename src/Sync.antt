-- ===== src/Sync.antt =====
-- reactor.h: `Reactor::on_loop_sync`, with `claim_loop` and `release_loop`. Callers and the loop's
-- threads are tasks that interleave at each access of `loops_` and at each section under a mutex. A
-- call is named by its number; `f` is what the call runs.
pub mod Stages
mod Numbers
pub mod Once
pub mod Returning
pub mod Progress
use reactor.Prelude.{ℕ, zero, suc, ◌+◌, ◌-◌, ◌≡◌, ◌≢◌, Bool, true, false, List, [], ◌∷◌, ◌++◌, u64}
use reactor.Prelude.Threads.{Reach}

-- The members, the handlers that are posted and not yet run, named by their calls, and two records
-- that only the statements read: how many calls took `sync_call_`, and the calls whose `f` has run,
-- the last first.
pub record Memory : Type 0 where
  pub loops : ℕ
  pub held : Bool  -- `sync_call_`
  pub sync_calls : ℕ
  pub sync_open : ℕ
  pub sync_done : ℕ
  pub posted : List ℕ
  pub begun : ℕ
  pub ran : List ℕ

pub data Pc : Type 0 where
  outside : Pc  -- in no call, and no thread of the loop
  inline : Pc  -- found no loop, before its `f`
  queueing : Pc  -- found a loop, before `sync_call_`
  opening : (id : ℕ) → Pc  -- holds `sync_call_`
  posting : (id : ℕ) → Pc
  waiting : (id : ℕ) → Pc
  taken : (id : ℕ) → Pc  -- took the call back, before its `f`
  returning : (id : ℕ) → Pc  -- `f` has run, before it gives `sync_call_` back
  looping : Pc  -- a thread of the loop, between handlers
  handling : (id : ℕ) → Pc  -- in a posted handler, before its first section
  running : (id : ℕ) → Pc  -- the handler took the call, before its `f`
  finishing : (id : ℕ) → Pc  -- the handler's `f` has run, before its second section

-- One access or section of one task.
pub data Move (m : Memory) : Pc → Memory → Pc → Type 0 where
  no_loop : m.loops ≡ 0 → Move m outside m inline
  run_inline : Move m inline m outside
  has_loop : m.loops ≢ 0 → Move m outside m queueing
  lock_call :
      m.held ≡ false
      → Move m queueing
          (record m { held = true; sync_calls = u64 (m.sync_calls + 1); begun = m.begun + 1 })
          (opening (u64 (m.sync_calls + 1)))
  open_call : {id : ℕ} → Move m (opening id) (record m { sync_open = id }) (posting id)
  post : {id : ℕ} → Move m (posting id) (record m { posted = m.posted ++ (id ∷ []) }) (waiting id)
  was_done : {id : ℕ} → m.sync_done ≡ id → Move m (waiting id) m (returning id)
  take_back :
      {id : ℕ}
      → m.sync_done ≢ id
      → m.sync_open ≡ id
      → m.loops ≡ 0
      → Move m (waiting id) (record m { sync_open = 0 }) (taken id)
  run_taken : {id : ℕ} → Move m (taken id) (record m { ran = id ∷ m.ran }) (returning id)
  unlock_call : {id : ℕ} → Move m (returning id) (record m { held = false }) outside
  -- `claim_loop`, and the thread enters the loop
  claim : Move m outside (record m { loops = m.loops + 1 }) looping
  handle :
      {id : ℕ} {ids : List ℕ}
      → m.posted ≡ id ∷ ids
      → Move m looping (record m { posted = ids }) (handling id)
  too_late : {id : ℕ} → m.sync_open ≢ id → Move m (handling id) m looping
  take :
      {id : ℕ} → m.sync_open ≡ id → Move m (handling id) (record m { sync_open = 0 }) (running id)
  run_posted : {id : ℕ} → Move m (running id) (record m { ran = id ∷ m.ran }) (finishing id)
  finish : {id : ℕ} → Move m (finishing id) (record m { sync_done = id }) looping
  -- a handler that calls `on_loop_sync` is on the loop and runs its `f` at once
  run_on_loop : Move m looping m looping
  -- the thread leaves the loop, and `release_loop`
  release : Move m looping (record m { loops = m.loops - 1 }) outside

abbrev pub init : Memory
init = record {
  loops = 0;
  held = false;
  sync_calls = 0;
  sync_open = 0;
  sync_done = 0;
  posted = [];
  begun = 0;
  ran = [];
}

abbrev pub idle : ℕ → List Pc
idle zero = []
idle (suc n) = outside ∷ idle n

-- The states that `n` tasks can reach.
abbrev pub Reachable : ℕ → Memory → List Pc → Type 0
Reachable n m ts = Reach Move init (idle n) m ts
