-- ===== src/TcpServer.antt =====
-- reactor.h: the class `TcpServer`, its settings, `start` with its rollback, and the phases of its
-- shutdown. What the system, the reactors and the accept tasks answer is an input.
pub mod Start
pub mod Phases
pub mod Forced
pub mod Waits
use reactor.Prelude.{
  ℕ, zero, suc, ◌+◌, ◌-◌, Bool, true, false, not, ◌&&◌, ◌||◌, Option, none, some, List, [], ◌∷◌,
  ◌++◌, if◌then◌else◌, ltb, ◌==◌, length,
}

-- An accept task's control: the reactor whose loop runs it, and whether `finish` was called for a task
-- that could not be spawned.
pub record Accept : Type 0 where
  pub reactor : ℕ
  pub finished : Bool

-- What the server asks of its parts.
pub data Effect : Type 0 where
  abort_all : (reactor : ℕ) → Effect
  flag_accept : Accept → Effect  -- sets `stopping`
  poll : (reactor : ℕ) → Effect
  stop_accept : Accept → Effect  -- sets `stopping` and posts `stop_on_owner`
  wait_accept : Accept → Effect
  await_sessions : (reactor : ℕ) → Effect
  force_all : (reactor : ℕ) → Effect
  await_again : (reactor : ℕ) → Effect
  clear_guards : Effect
  stop_lag : (reactor : ℕ) → Effect
  stop_io : (reactor : ℕ) → Effect
  join : (thread : ℕ) → Effect
  close_scheduler : (reactor : ℕ) → Effect
  destroy_roots_of : (reactor : ℕ) → Effect

-- `loops` counts the claims on the reactors' loops, and `effects` is in the order of the calls.
pub record Server : Type 0 where
  pub reactors : ℕ
  pub connection_limit : Option ℕ
  pub reuse_port : Bool
  pub lag_probe : Bool
  pub started : Bool
  pub stopped : Bool
  pub port : ℕ
  pub guards : ℕ
  pub probes : ℕ  -- lag probes that were started
  pub threads : ℕ
  pub loops : ℕ
  pub accepts : List Accept
  pub effects : List Effect

-- The constructor, with no limit for `maximum_connections` 0.
unfoldable pub make : (reactors maximum_connections : ℕ) → Server
make reactors maximum_connections = record {
  reactors = if not (reactors == 0) then reactors else 1;
  connection_limit = if maximum_connections == 0 then none else some maximum_connections;
  reuse_port = false;
  lag_probe = false;
  started = false;
  stopped = false;
  port = 0;
  guards = 0;
  probes = 0;
  threads = 0;
  loops = 0;
  accepts = [];
  effects = [];
}

-- `f` of `k` reactors, from reactor `i` on.
abbrev pub for_each : (ℕ → List Effect) → (k i : ℕ) → List Effect
for_each f zero i = []
for_each f (suc k) i = f i ++ for_each f k (i + 1)

abbrev pub for_accepts : (Accept → Effect) → List Accept → List Effect
for_accepts f [] = []
for_accepts f (a ∷ as') = f a ∷ for_accepts f as'

-- `sessions_end_within`: each reactor is waited for, also after one whose sessions did not end.
pub sessions_end : (ended : ℕ → Bool) → (k i : ℕ) → Bool → Bool
sessions_end ended zero i drained = drained
sessions_end ended (suc k) i drained = sessions_end ended k (i + 1) (ended i && drained)

-- What `stop` does, in order; `ended` answers for the sessions of each reactor within the first grace.
pub shutdown : (ended : ℕ → Bool) → Server → List Effect
unfolding sessions_end
shutdown ended s =
    for_each (λ r. abort_all r ∷ []) s.reactors 0
    ++ (for_accepts stop_accept s.accepts
        ++ (for_accepts wait_accept s.accepts
            ++ (for_each (λ r. await_sessions r ∷ []) s.reactors 0
                ++ ((if sessions_end ended s.reactors 0 true
                      then []
                      else for_each (λ r. force_all r ∷ []) s.reactors 0
                        ++ for_each (λ r. await_again r ∷ []) s.reactors 0)
                    ++ (clear_guards ∷ for_each (λ r. stop_lag r ∷ stop_io r ∷ []) s.reactors 0
                        ++ for_each (λ t. join t ∷ []) s.threads 0)))))

-- Each thread that is joined has released its loop.
pub stop : (ended : ℕ → Bool) → Server → Server
unfolding shutdown
stop ended s = if s.stopped then s else record s {
  stopped = true;
  guards = 0;
  loops = s.loops - s.threads;
  threads = 0;
  accepts = [];
  effects = s.effects ++ shutdown ended s;
}

pub close : (ended : ℕ → Bool) → Server → Server
unfolding stop
close ended s =
    let t : Server = stop ended s in
    record t { effects = t.effects ++ for_each (λ r. close_scheduler r ∷ []) t.reactors 0 }

pub destroy_roots : (ended : ℕ → Bool) → Server → Server
unfolding close
destroy_roots ended s =
    let t : Server = close ended s in
    record t { effects = t.effects ++ for_each (λ r. destroy_roots_of r ∷ []) t.reactors 0 }

pub data Error : Type 0 where
  already_started : Error  -- `logic_error`
  no_service : (reactor : ℕ) → Error
  no_probe : (reactor : ℕ) → Error
  no_thread : (reactor : ℕ) → Error
  no_task : (reactor : ℕ) → Error
  not_listening : (accept : ℕ) → Error

-- The settings that are fixed by `start`.
pub set_connection_limit : ℕ → Server → Server × Option Error
set_connection_limit maximum s =
    if s.started
    then (s, some already_started)
    else (record s { connection_limit = if maximum == 0 then none else some maximum }, none)

pub enable_lag_probe : Server → Server × Option Error
enable_lag_probe s =
    if s.started then (s, some already_started) else (record s { lag_probe = true }, none)
