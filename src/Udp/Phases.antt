-- ===== src/Udp/Phases.antt =====
-- reactor_udp.h: `UdpServer::start` with its thread, and the phases `stop`, `close` and `destroy_roots`.
pub mod Shutdown
use reactor.Prelude.{
  ℕ, zero, suc, ◌+◌, ◌-◌, ◌≡◌, refl, Bool, true, false, not, ◌&&◌, Option, none, some, List, [],
  ◌∷◌, ◌++◌, All, arith, if◌then◌else◌, inl, inr, Option-cases, Bool-cases,
}
use reactor.Udp.{UdpOptions, Call, setup}

-- What the phases ask of the reactor, the thread and the scheduler.
pub data Effect : Type 0 where
  abort_all stop_io join close_scheduler destroy_scheduler_roots : Effect

-- `loops` counts the claims on the reactor's loop. The loop's thread, once it has left the loop,
-- releases its claim.
pub record Server : Type 0 where
  pub options : UdpOptions
  pub group_endpoint : Option (ℕ × ℕ)
  pub receiving : Bool
  pub loops : ℕ
  pub io_stopped : Bool
  pub joinable : Bool
  pub effects : List Effect

-- What `start` throws: a refused call, or the failure to make a thread.
pub data StartError : Type 0 where
  refused : Call → StartError
  no_thread : StartError

-- The setup has succeeded: the receive loop is spawned and the thread is made.
unfoldable pub launch : (makes_thread : Bool) → ℕ → Server → Server × Option StartError
launch makes_thread port s =
    let ready : Server = record s {
      group_endpoint = elim s.options.multicast_group [
        | none ↦ s.group_endpoint
        | some g ↦ some (g, port)
      ];
      receiving = true;
      loops = s.loops + 1;
    } in
    if makes_thread
    then (record ready { joinable = true }, none)
    else (record ready { loops = ready.loops - 1; io_stopped = true }, some no_thread)

unfoldable pub start :
    (accepts : Call → Bool) (makes_thread : Bool) → ℕ → Server → Server × Option StartError
unfolding launch
start accepts makes_thread port s = elim (setup accepts s.options port).thrown [
  | some c ↦ (s, some (refused c))
  | none ↦ launch makes_thread port s
]

-- The join returns when the thread has left the loop and released it.
unfoldable pub stop : Server → Server
stop s =
    if s.joinable
    then record s {
      io_stopped = true;
      joinable = false;
      loops = s.loops - 1;
      effects = join ∷ stop_io ∷ abort_all ∷ s.effects;
    }
    else s

unfoldable pub close : Server → Server
unfolding stop
close s = let t : Server = stop s in record t { effects = close_scheduler ∷ t.effects }

unfoldable pub destroy_roots : Server → Server
unfolding close
destroy_roots s =
    let t : Server = close s in record t { effects = destroy_scheduler_roots ∷ t.effects }

pub data Phase : Type 0 where
  stops closes destroys : Phase

unfoldable pub phase : Phase → Server → Server
unfolding destroy_roots
phase stops s = stop s
phase closes s = close s
phase destroys s = destroy_roots s

unfoldable pub phases : List Phase → Server → Server
phases [] s = s
phases (p ∷ ps) s = phases ps (phase p s)

-- A server that has not been started.
abbrev pub make : UdpOptions → Server
make o = record {
  options = o;
  group_endpoint = none;
  receiving = false;
  loops = 0;
  io_stopped = false;
  joinable = false;
  effects = [];
}
