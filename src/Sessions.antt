-- ===== src/Sessions.antt =====
-- reactor.h: a session from its accept to its end: `SessionTicket`, `launch_session`, `run_session`, and
-- the reactor's session count. Connections are tasks that interleave at each section under
-- `session_mutex_` and each access to the admission; the sections of Admission stand for whole calls.
pub mod Counted
pub mod Finish
use reactor.Prelude.{ℕ, zero, suc, ◌+◌, ◌≡◌, Bool, true, false, List, [], ◌∷◌, u64, sub64}
use reactor.Prelude.Threads.{Reach}
use reactor.Admission.{State}
use reactor.Admission.Solo.{try_enter, leave}

-- `bounded`: the server has a connection bound. `served` counts the sessions that have been called.
pub record Memory : Type 0 where
  pub bounded : Bool
  pub admission : State
  pub sessions : ℕ
  pub walked : Bool
  pub served : ℕ

-- Where a connection stands.
pub data Pc : Type 0 where
  outside : Pc
  admitted : Pc  -- accepted, with its lease, before its ticket
  ticketed : Pc  -- in `launch_session`
  posted : Pc  -- its launch is posted to its own loop
  spawned : Pc  -- its frame holds the ticket, and has not run
  serving : Pc  -- in the session
  ending : Pc  -- its ticket is destroyed, before the lease is given back
  refunded : Pc  -- before `session_finished`

pub data Move (m : Memory) : Pc → Memory → Pc → Type 0 where
  accept :
      m.bounded ≡ true
      → (try_enter m.admission).1 ≡ true
      → Move m outside (record m { admission = (try_enter m.admission).0 }) admitted
  refuse :
      m.bounded ≡ true
      → (try_enter m.admission).1 ≡ false
      → Move m outside (record m { admission = (try_enter m.admission).0 }) outside
  accept_unbounded : m.bounded ≡ false → Move m outside m admitted
  -- `SessionTicket`'s constructor, `session_started`
  take_ticket : Move m admitted (record m { sessions = u64 (m.sessions + 1) }) ticketed
  -- `launch_session` posts to the session's loop, or spawns at once, or throws
  hop : Move m ticketed m posted
  spawn : Move m ticketed m spawned
  launch_throws : Move m ticketed m ending
  -- the posted handler spawns, or catches `bad_alloc`, or is destroyed unrun
  spawn_posted : Move m posted m spawned
  drop_posted : Move m posted m ending
  -- `run_session`: a control that `track` aborts ends the task; or the frame is destroyed unrun
  serve : m.walked ≡ false → Move m spawned (record m { served = m.served + 1 }) serving
  too_late : m.walked ≡ true → Move m spawned m ending
  destroy_frame : Move m spawned m ending
  -- the session returns or throws, or its frame is destroyed
  end_session : Move m serving m ending
  -- `~SessionTicket`
  refund : m.bounded ≡ true → Move m ending (record m { admission = leave m.admission }) refunded
  no_refund : m.bounded ≡ false → Move m ending m refunded
  finish_session : Move m refunded (record m { sessions = sub64 m.sessions 1 }) outside
  -- the walk of `abort_all`, by another thread
  abort_walk : Move m outside (record m { walked = true }) outside

-- A server with this bound, or with none.
abbrev pub init : Bool → ℕ → Memory
init bounded bound = record {
  bounded = bounded;
  admission = record { maximum = bound; active = 0; high_water = 0; accepted = 0; rejected = 0 };
  sessions = 0;
  walked = false;
  served = 0;
}

abbrev pub idle : ℕ → List Pc
idle zero = []
idle (suc n) = outside ∷ idle n

-- The states that `n` connections can reach.
abbrev pub Reachable : Bool → ℕ → ℕ → Memory → List Pc → Type 0
Reachable bounded bound n m ts = Reach Move (init bounded bound) (idle n) m ts
