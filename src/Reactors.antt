-- ===== src/Reactors.antt =====
-- reactor.h: `TcpServer::stop` over all reactors of a server, beside its accept tasks and connections. Each
-- reactor has an accept task, or task 0 accepts for all of them and posts the launches. A connection
-- moves as in Sessions, over its reactor's count and the admission that the reactors share.
mod Moves
mod Stages
pub mod Past
pub mod Drained
pub mod Settled
mod Ends
pub mod Return
use reactor.Prelude.{
  ℕ, zero, suc, ◌+◌, ◌<◌, ◌≡◌, ◌≢◌, Bool, true, false, List, [], ◌∷◌, some, get_elem?, set, total,
  if◌then◌else◌, ◌==◌, All, ◌⊎◌,
}
use reactor.Admission.{State}
use reactor.Sessions.{Memory, Pc, outside, admitted, ticketed, posted, spawned, serving, Move}

-- How far `stop` is: `aborting k`, `reaping k` and `draining late k ok` are in the loop over the reactors or
-- the accept tasks, before the one numbered `k`. `late`: after `force_all`; `ok`: every reactor before
-- `k` had no session when it was waited for.
pub data Stage : Type 0 where
  aborting : (k : ℕ) → Stage
  reaping : (k : ℕ) → Stage
  draining : (late : Bool) (k : ℕ) (ok : Bool) → Stage
  waited : Stage
  halted : Stage

-- `drained`: `sessions_end_within` has answered true.
pub record Server : Type 0 where
  pub bounded : Bool
  pub admission : State
  pub sessions : ℕ → ℕ
  pub walked : ℕ → Bool
  pub served : ℕ
  pub accepting : ℕ → Bool
  pub failing : Bool  -- the system's accepts may still fail
  pub stopping : Bool  -- every accept task has been told to stop
  pub stage : Stage
  pub drained : Bool

-- A connection, with the reactor that serves it.
pub record Conn : Type 0 where
  pub home : ℕ
  pub pc : Pc

abbrev pub update {ℓ} : {A : Type ℓ} → (ℕ → A) → ℕ → A → ℕ → A
update f a v b = if b == a then v else f b

-- What a connection of reactor `r` sees, and what it leaves.
abbrev pub view : Server → ℕ → Memory
view s r = record {
  bounded = s.bounded;
  admission = s.admission;
  sessions = s.sessions r;
  walked = s.walked r;
  served = s.served;
}

abbrev pub put : Server → ℕ → Memory → Server
put s r m = record s {
  admission = m.admission;
  sessions = update s.sessions r m.sessions;
  served = m.served;
}

abbrev pub is_running : Stage → Bool
is_running halted = false
is_running _ = true

-- A connection between its accept and the end of its launch by the accept task.
abbrev pub is_in_hand : Pc → ℕ
is_in_hand admitted = 1
is_in_hand ticketed = 1
is_in_hand _ = 0

-- Connections of these reactors, not yet accepted.
abbrev pub idle : List ℕ → List Conn
idle [] = []
idle (r ∷ homes) = record { home = r; pc = outside } ∷ idle homes

-- A server whose accept tasks have begun, with connections that are outside.
abbrev pub begin : Bool → ℕ → Server
begin bounded bound = record {
  bounded = bounded;
  admission = record { maximum = bound; active = 0; high_water = 0; accepted = 0; rejected = 0 };
  sessions = λ r. 0;
  walked = λ r. false;
  served = 0;
  accepting = λ a. true;
  failing = true;
  stopping = false;
  stage = aborting 0;
  drained = false;
}

module _ (shared : Bool) (n : ℕ) where
  -- The accept task of a reactor, and the number of accept tasks.
  abbrev pub feeder : ℕ → ℕ
  feeder r = if shared then 0 else r

  abbrev pub tasks : ℕ
  tasks = if shared then 1 else n

  -- Whether task `a` has the connection in hand.
  abbrev pub held : ℕ → Conn → ℕ
  held a c = if feeder c.home == a then is_in_hand c.pc else 0

  -- When a connection may move from where it is: a task that has none in hand accepts it, while it is
  -- not finished; on stopped loops it can only be destroyed.
  abbrev pub Allowed : Server → List Conn → ℕ → Pc → Memory → Pc → Type 0
  Allowed s ts r outside m q =
      (s.accepting (feeder r) ≡ true)
      × (total (held (feeder r)) ts ≡ 0)
      × (is_running s.stage ≡ true)
      × (m.walked ≡ s.walked r)
  Allowed s ts r admitted m q = is_running s.stage ≡ true
  Allowed s ts r ticketed m q = is_running s.stage ≡ true
  Allowed s ts r posted m spawned = is_running s.stage ≡ true
  Allowed s ts r spawned m serving = is_running s.stage ≡ true
  Allowed s ts r _ m q = Unit

  pub data Step (s : Server) (ts : List Conn) : Server → List Conn → Type 0 where
    connection :
        (i : ℕ) {r : ℕ} {p q : Pc} {m : Memory}
        → get_elem? ts i ≡ some (record { home = r; pc = p })
        → Move (view s r) p m q
        → Allowed s ts r p m q
        → Step s ts (put s r m) (set ts i (record { home = r; pc = q }))
    -- an accept task ends, by an error or because it is stopped
    accept_ends :
        (a : ℕ)
        → (s.failing ≡ true) ⊎ (s.stopping ≡ true)
        → total (held a) ts ≡ 0
        → Step s ts (record s { accepting = update s.accepting a false }) ts
    -- from now on no accept fails
    recover : Step s ts (record s { failing = false }) ts
    abort_all :
        (k : ℕ)
        → s.stage ≡ aborting k
        → k < n
        → Step s ts (record s { walked = update s.walked k true; stage = aborting (suc k) }) ts
    -- every accept task is told to stop
    flag_accepts :
        s.stage ≡ aborting n → Step s ts (record s { stopping = true; stage = reaping 0 }) ts
    reap_accept :
        (k : ℕ)
        → s.stage ≡ reaping k
        → k < tasks
        → s.accepting k ≡ false
        → Step s ts (record s { stage = reaping (suc k) }) ts
    all_reaped : s.stage ≡ reaping tasks → Step s ts (record s { stage = draining false 0 true }) ts
    -- `wait_sessions_until` of reactor `k`
    drain :
        (k : ℕ) {late ok : Bool}
        → s.stage ≡ draining late k ok
        → k < n
        → s.sessions k ≡ 0
        → Step s ts (record s { stage = draining late (suc k) ok }) ts
    expire :
        (k : ℕ) {late ok : Bool}
        → s.stage ≡ draining late k ok
        → k < n
        → s.sessions k ≢ 0
        → Step s ts (record s { stage = draining late (suc k) false }) ts
    end_in_time :
        {late : Bool}
        → s.stage ≡ draining late n true
        → Step s ts (record s { stage = waited; drained = true }) ts
    -- `force_all` on every reactor, and the second grace begins
    force_all :
        s.stage ≡ draining false n false → Step s ts (record s { stage = draining true 0 true }) ts
    give_up : s.stage ≡ draining true n false → Step s ts (record s { stage = waited }) ts
    halt : s.stage ≡ waited → Step s ts (record s { stage = halted }) ts

  -- What some schedule leads to.
  pub data Reach (s : Server) (ts : List Conn) : Server → List Conn → Type 0 where
    start : Reach s ts s ts
    next :
        {s' s'' : Server} {ts' ts'' : List Conn}
        → Reach s ts s' ts'
        → Step s' ts' s'' ts''
        → Reach s ts s'' ts''

  -- The states of a server with this bound or none, whose connections have these homes.
  abbrev pub Reachable : Bool → ℕ → List ℕ → Server → List Conn → Type 0
  Reachable bounded bound homes s ts = Reach (begin bounded bound) (idle homes) s ts
