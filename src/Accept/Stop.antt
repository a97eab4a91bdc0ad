-- ===== src/Accept/Stop.antt =====
-- reactor.h: the end of an accept task when `TcpServer::stop` asks for it. The accept task runs on its
-- loop; `stop` sets `stopping` on another thread and then posts `stop_on_owner` to that loop, which
-- runs it when the task has given the loop back.
pub mod Ends
use reactor.Prelude.{
  ℕ, zero, suc, ◌+◌, ◌≡◌, Bool, true, false, not, ◌&&◌, Option, none, some, if◌then◌else◌,
}
use reactor.Accept.{
  ErrorCode, Platform, Control, fresh, Verdict, stopped, skip, fatal, pause, judge, reset,
}
use reactor.Accept.Loop.{no_memory}

-- Where the accept task stands.
pub data Pc : Type 0 where
  spawned : Pc  -- before its first test of `stopping` and its set-up
  testing : Pc  -- at the test of the loop
  starting : Pc  -- before `async_accept`
  accepting : Pc  -- waits for a connection
  accepted : (error : Option ErrorCode) → Pc  -- its accept has completed, before it resumes
  checking : Pc  -- has a connection, before its test of `stopping`
  launching : Pc
  retrying : ErrorCode → Pc  -- in `retry`
  arming : Pc  -- before `async_wait`
  pausing : Pc  -- waits for the timer
  woken : (error : Bool) → Pc  -- its wait has completed, before it resumes
  finished : Pc

-- How far `stop` is with this task.
pub data Stage : Type 0 where
  running flagged posted closed : Stage

abbrev pub is_stopping : Stage → Bool
is_stopping running = false
is_stopping _ = true

pub record Task : Type 0 where
  pub pc : Pc
  pub control : Control
  pub stage : Stage

-- The task holds its loop, so that no handler runs.
abbrev pub is_on_loop : Pc → Bool
is_on_loop testing = true
is_on_loop starting = true
is_on_loop checking = true
is_on_loop launching = true
is_on_loop (retrying e) = true
is_on_loop arming = true
is_on_loop _ = false

abbrev pub retried : Verdict → Pc
retried stopped = finished
retried skip = testing
retried (fatal e) = finished
retried (pause delay) = arming

-- `acceptor->close` and `retry_timer.cancel`: what is waited for completes with an error.
abbrev pub cancelled : ErrorCode → Pc → Pc
cancelled e accepting = accepted (some e)
cancelled e pausing = woken true
cancelled e p = p

abbrev pub resumed : Option ErrorCode → Pc
resumed none = checking
resumed (some e) = retrying e

module _ (os : Platform) (aborted : ErrorCode) where
  -- A move of the task or of `stop`. `aborted` is the error of what is closed.
  pub data Move (t : Task) : Task → Type 0 where
    enter :
        t.pc ≡ spawned
        → Move t (record t { pc = if is_stopping t.stage then finished else testing })
    set_up_throws : t.pc ≡ spawned → Move t (record t { pc = finished })
    test :
        t.pc ≡ testing
        → Move t (record t { pc = if is_stopping t.stage then finished else starting })
    async_accept : t.pc ≡ starting → Move t (record t { pc = accepting })
    resume :
        {error : Option ErrorCode}
        → t.pc ≡ accepted error
        → Move t (record t { pc = resumed error })
    check :
        t.pc ≡ checking
        → Move t (record t {
          pc = if is_stopping t.stage then finished else launching;
          control = reset t.control;
        })
    -- the session is launched, or its admission refused
    launch : t.pc ≡ launching → Move t (record t { pc = testing })
    launch_throws : t.pc ≡ launching → Move t (record t { pc = retrying (no_memory os) })
    retry :
        (local : Option ℕ) {e : ErrorCode}
        → t.pc ≡ retrying e
        → Move t (record t {
          pc = retried (judge os (is_stopping t.stage) local e t.control).0;
          control = (judge os (is_stopping t.stage) local e t.control).1;
        })
    async_wait : t.pc ≡ arming → Move t (record t { pc = pausing })
    wake :
        {error : Bool}
        → t.pc ≡ woken error
        → Move t
            (record t { pc = if not error && not (is_stopping t.stage) then testing else finished })
    store_stopping : t.stage ≡ running → Move t (record t { stage = flagged })
    post : t.stage ≡ flagged → Move t (record t { stage = posted })
    stop_on_owner :
        t.stage ≡ posted
        → is_on_loop t.pc ≡ false
        → Move t (record t { pc = cancelled aborted t.pc; stage = closed })

  -- What the task waits for completes.
  pub data Completion (t : Task) : Task → Type 0 where
    complete :
        (error : Option ErrorCode)
        → t.pc ≡ accepting
        → Completion t (record t { pc = accepted error })
    expire : (error : Bool) → t.pc ≡ pausing → Completion t (record t { pc = woken error })

  pub data Step (t u : Task) : Type 0 where
    moves : Move t u → Step t u
    completes : Completion t u → Step t u

  -- `n` steps.
  pub data Steps (t : Task) : ℕ → Task → Type 0 where
    here : Steps t 0 t
    more : {n : ℕ} {u v : Task} → Steps t n u → Step u v → Steps t (suc n) v

abbrev pub begin : ℕ → Task
begin bound = record { pc = spawned; control = fresh bound; stage = running }
