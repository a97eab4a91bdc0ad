-- ===== src/TcpServer/Start.antt =====
-- reactor.h: `TcpServer::start`.
pub mod Rollback
pub mod Attempt
pub mod Outcomes
use reactor.Prelude.{
  ℕ, zero, suc, ◌+◌, ◌-◌, Bool, true, false, not, ◌&&◌, ◌||◌, Option, none, some, List, [], ◌∷◌,
  ◌++◌, if◌then◌else◌, ltb, ◌==◌,
}
use reactor.TcpServer.{
  Server, Accept, Error, already_started, no_service, no_probe, no_thread, no_task, not_listening,
  stop, for_accepts, for_each, flag_accept, poll,
}

-- What `start` meets: which steps throw, and the port that the first listener is bound to.
pub record Startup : Type 0 where
  pub service_fails : ℕ → Bool  -- a socket service or a guard
  pub probe_fails : ℕ → Bool
  pub thread_fails : ℕ → Bool
  pub task_fails : ℕ → Bool
  pub listening_fails : ℕ → Bool
  pub bound_port : ℕ → ℕ

-- A step of `start`, with what it throws.
abbrev pub Outcome : Type 0
Outcome = Server × Option Error

abbrev pub and_then : Outcome → (Server → Outcome) → Outcome
and_then (s, none) f = f s
and_then (s, some e) f = (s, some e)

-- The guards and probes of `k` reactors, from reactor `i` on.
pub prepare : Startup → (k i : ℕ) → Server → Outcome
prepare u zero i s = (s, none)
prepare u (suc k) i s =
    let guarded : Server = record s { guards = s.guards + 1 } in
    let rest =
      prepare u k (i + 1)
        (record guarded { probes = if s.lag_probe then s.probes + 1 else s.probes }) in
    if u.service_fails i
    then (s, some (no_service i))
    else if s.lag_probe && u.probe_fails i
    then (guarded, some (no_probe i))
    else rest

-- The threads, each with a claim on its loop that is given back when no thread is made.
pub launch : Startup → (k i : ℕ) → Server → Outcome
launch u zero i s = (s, none)
launch u (suc k) i s =
    let claimed : Server = record s { loops = s.loops + 1 } in
    let rest = launch u k (i + 1) (record claimed { threads = claimed.threads + 1 }) in
    if u.thread_fails i
    then (record claimed { loops = claimed.loops - 1 }, some (no_thread i))
    else rest

-- `wait_listening` of one accept task.
abbrev pub wait_listening : Startup → ℕ → Server → Outcome
wait_listening u i s = (s, if u.listening_fails i then some (not_listening i) else none)

-- The accept task of reactor `i`; one that cannot be spawned is finished at once.
pub spawn : Startup → ℕ → Server → Outcome
spawn u i s =
    if u.task_fails i
    then (
      record s { accepts = s.accepts ++ (record { reactor = i; finished = true } ∷ []) },
      some (no_task i),
    )
    else (record s { accepts = s.accepts ++ (record { reactor = i; finished = false } ∷ []) }, none)

-- An accept task for each of `k` reactors, from reactor `i` on, that bind `port`.
pub spawn_each : Startup → (k i port : ℕ) → Server → Outcome
unfolding spawn
spawn_each u zero i port s = (s, none)
spawn_each u (suc k) i port s = and_then (spawn u i s) (λ t.
    if port == 0
    then and_then (wait_listening u 0 t) (λ v. spawn_each u k (i + 1) (u.bound_port port) v)
    else spawn_each u k (i + 1) port t)

pub wait_each : Startup → (k i : ℕ) → Server → Outcome
wait_each u zero i s = (s, none)
wait_each u (suc k) i s = and_then (wait_listening u i s) (λ t. wait_each u k (i + 1) t)

abbrev pub count : List Accept → ℕ
count [] = 0
count (a ∷ as') = suc (count as')

-- The body of `start`'s `try`.
pub attempt : Startup → ℕ → Server → Outcome
unfolding prepare launch spawn_each wait_each
attempt u port s = and_then (prepare u s.reactors 0 s) (λ a.
    and_then (launch u s.reactors 0 a) (λ b.
      and_then
        (if not s.reuse_port && ltb 1 s.reactors
          then spawn u 0 b
          else spawn_each u s.reactors 0 port b)
        (λ c.
          and_then (wait_each u (count c.accepts) 0 c)
            (λ d. (record d { port = u.bound_port port }, none)))))

-- The handler of what `start` throws: the reactors whose threads were not made are polled once.
pub roll_back : (ended : ℕ → Bool) → Server → Server
unfolding stop
roll_back ended s = stop ended (record s {
  effects =
      s.effects
      ++ (for_accepts flag_accept s.accepts
          ++ for_each (λ r. poll r ∷ []) (s.reactors - s.threads) s.threads);
})

-- `start(port)`, where `ended` is what the `stop` of a failed start meets.
pub start : Startup → (ended : ℕ → Bool) → ℕ → Server → Outcome
unfolding attempt roll_back
start u ended port s =
    if s.started || s.stopped
    then (s, some already_started)
    else (let (t, e) = attempt u port (record s { started = true }) in
        elim e [ none ↦ (t, none) | some x ↦ (roll_back ended t, some x) ])
