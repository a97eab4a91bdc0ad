-- ===== src/Examples/Accepts.antt =====
-- reactor.h: accept loops with the error numbers of Linux.
use reactor.Prelude.{
  ℕ, ◌-◌, ◌*◌, ◌^◌, ◌<◌, ◌≤◌, ◌⊎◌, ◌≡◌, refl, true, false, List, [], ◌∷◌, none, some, arith, ltb,
  min, if◌then◌else◌,
}
use reactor.Accept.{
  ErrorCode, Platform, fresh, fatal, skip, pause, judge, retryable_accept_error,
  per_connection_accept_error, listener_lost,
}
use reactor.Accept.Judge.{judge_lost}
use reactor.Accept.Backoff.{after_failures, connections, resources, is_connection, Failure, pauses}
use reactor.Accept.Loop.{Retry, Turn, begin, again, turn, shared_accept_loop}
use reactor.Accept.Loop.RoundRobin.{rotation, shared_accept_loop-rotation}
use reactor.Accept.Stop
use reactor.Accept.Stop.{
  Task, Stage, flagged, closed, accepting, accepted, finished, Move, Steps, here, more, moves,
  enter, test, async_accept, store_stopping, post, stop_on_owner,
}
use reactor.Accept.Stop.Ends.{stop_ends}

abbrev linux : Platform
linux = record {
  emfile = 24;
  enfile = 23;
  enobufs = 105;
  enomem = 12;
  eintr = 4;
  eagain = 11;
  ewouldblock = 11;
  econnaborted = 103;
  econnreset = 104;
  eproto = 71;
  enetdown = 100;
  enetunreach = 101;
  ehostdown = 112;
  ehostunreach = 113;
  eopnotsupp = 95;
  enoprotoopt = 92;
  enonet = some 64;
  einval = 22;
  apple = false;
}

abbrev darwin : Platform
darwin = record linux { apple = true }

abbrev error : ℕ → ErrorCode
error n = record { value = n; system = true }

judge_lost_example : judge darwin false none (error 22) (fresh 1) ≡ (fatal (error 22), fresh 1)
judge_lost_example =
    judge_lost darwin none (error 22) (fresh 1)
      (record {
        emfile = omega arith;
        enfile = omega arith;
        enobufs = omega arith;
        enomem = omega arith;
        eintr = omega arith;
        eagain = omega arith;
        ewouldblock = omega arith;
      })
      refl refl (λ e. cc)

-- Two accepts without descriptors, one of a connection that went away.
abbrev failures : List Failure
failures = (error 24, some 1) ∷ (error 103, some 1) ∷ (error 24, some 1) ∷ []

few : connections linux 1 failures < 2 ^ 32 - 1
unfolding connections per_connection_accept_error listener_lost
few = omega arith

pauses_example :
    (judge linux false (some 1) (error 24) (after_failures linux (fresh 1) failures)).0 ≡ (
      if is_connection linux 1 (error 24, some 1)
      then (if ltb (connections linux 1 failures) 64 then skip else pause 1)
      else if retryable_accept_error linux (error 24)
      then pause (min (10 * 2 ^ resources linux 1 failures) 1000)
      else fatal (error 24))
pauses_example = pauses linux 1 failures (error 24) (some 1) few

abbrev waited : Retry
waited = record { stopping = false; local = some 1; timer_error = false; stopping_after = false }

-- A turn that brings a connection, and one that fails for want of descriptors.
abbrev comes : Turn
comes = record {
  stopping = false;
  accepted = none;
  retried = waited;
  stopping_accepted = false;
  admitted = true;
  bad_alloc = false;
  retried_memory = waited;
}

abbrev fails : Turn
fails = record comes { accepted = some (error 24) }

abbrev turns : List Turn
turns = comes ∷ fails ∷ comes ∷ []

goes_on : (shared_accept_loop linux true 2 0 turns (begin (fresh 1))).0 ≡ again
unfolding shared_accept_loop turn per_connection_accept_error retryable_accept_error
goes_on = refl

shared_accept_loop-rotation_example :
    (shared_accept_loop linux true 2 0 turns (begin (fresh 1))).1.launches
    ≡ rotation linux true 2 0 turns []
shared_accept_loop-rotation_example =
    shared_accept_loop-rotation linux true 2 turns (fresh 1) (omega arith) goes_on

-- The task waits for a connection when `stop` sets its flag.
abbrev waits_at : Stage → Task
waits_at g = record { pc = accepting; control = fresh 1; stage = g }

flagged_waiting : Steps linux (error 125) (Stop.begin 1) 4 (waits_at flagged)
flagged_waiting =
    more
      (more (more (more here (moves (enter refl))) (moves (test refl))) (moves (async_accept refl)))
      (moves (store_stopping refl))

abbrev woken_up : Task
woken_up = record (waits_at closed) { pc = accepted (some (error 125)) }

closes : Steps linux (error 125) (waits_at flagged) 2 woken_up
closes = more (more here (moves (post refl))) (moves (stop_on_owner refl refl))

stop_ends_example :
    (2 ≤ 6) × ((woken_up.pc ≡ finished) ⊎ ((w : Task) × Move linux (error 125) woken_up w))
stop_ends_example =
    stop_ends linux (error 125) 1 4 2 (waits_at flagged) woken_up flagged_waiting refl closes
