-- ===== src/TcpServer/Start/Outcomes.antt =====
-- How `TcpServer::start` ends.
use reactor.Prelude.{
  ℕ, ◌≡◌, ◌⊎◌, inl, inr, refl, sym, ◌∙◌, ap, subst, Bool, true, false, ◌||◌, none, some,
  if◌then◌else◌, arith, ◌++◌, ◌∷◌, ◌-◌, [], All, false≢true,
}
use reactor.TcpServer.{Server, stop}
use reactor.TcpServer.Waits.{IsServed, IsWithin, shutdown-IsServed, roll_back-quiet}
use reactor.TcpServer.{for_accepts, for_each, flag_accept, poll}
use reactor.TcpServer.Start.{Startup, Outcome, count, attempt, roll_back, start}
use reactor.TcpServer.Start.Rollback.{failed, IsOf, IsOpen}
use reactor.TcpServer.Start.Attempt.{IsUnused, Attempted, listeners, attempt-Attempted}

-- A server that was neither started nor stopped.
pub record IsFresh (s : Server) : Type 0 where
  pub started : s.started ≡ false
  pub stopped : s.stopped ≡ false
  pub unused : IsUnused s
  pub effects : s.effects ≡ []

-- Every reactor has a thread with a claimed loop, a guard and, unless one is shared, a listener.
pub record IsUp (u : Startup) (p : ℕ) (s t : Server) : Type 0 where
  pub stopped : t.stopped ≡ false
  pub threads : t.threads ≡ s.reactors
  pub loops : t.loops ≡ s.reactors
  pub guards : t.guards ≡ s.reactors
  pub listening : count t.accepts ≡ listeners s
  pub spawned : All IsOpen t.accepts
  pub ours : All (IsOf t.threads) t.accepts
  pub port : t.port ≡ u.bound_port p
  pub effects : t.effects ≡ []

-- The server is stopped and has nothing that runs.
pub record IsDown (s t : Server) : Type 0 where
  pub stopped : t.stopped ≡ true
  pub unused : IsUnused t
  pub port : t.port ≡ s.port
  pub served : All (IsServed t.effects) t.effects

-- Started, or stopped by what was thrown.
abbrev pub Ends : Startup → ℕ → Server → Outcome → Type 0
Ends u p s (t, e) =
    (t.started ≡ true)
    × (t.reactors ≡ s.reactors)
    × (((e ≡ none) × IsUp u p s t) ⊎ ((failed e ≡ true) × IsDown s t))

if-else : (b : Bool) (x y : Outcome) → b ≡ false → (if b then x else y) ≡ y
if-else b x y e = rw e refl

-- What the handler of a throw does before its stop.
abbrev flagged : Server → Server
flagged t = record t {
  effects =
      t.effects
      ++ (for_accepts flag_accept t.accepts
          ++ for_each (λ r. poll r ∷ []) (t.reactors - t.threads) t.threads);
}

-- What `start` makes of the outcome of its body.
finish_lem :
    (u : Startup) (ended : ℕ → Bool) (p : ℕ) (s : Server) (o : Outcome)
    → s.stopped ≡ false
    → s.effects ≡ []
    → Attempted u p (record s { started = true }) o
    → Ends u p s
        (elim o.1 as (λ x. Outcome) [ none ↦ (o.0, none) | some x ↦ (roll_back ended o.0, some x) ])
unfolding roll_back stop
finish_lem u ended p s (t, none) z q w = (
  w.started,
  w.reactors,
  elim w.all [
    | inl f ↦ absurd (false≢true f.0)
    | inr r ↦ inl (
      refl,
      record {
        stopped = w.stopped ∙ z;
        threads = r.1;
        loops = w.loops ∙ r.1;
        guards = r.2;
        listening = r.3;
        spawned = r.4;
        ours = w.ours;
        port = r.5;
        effects = w.effects ∙ q;
      },
    )
  ],
)
finish_lem u ended p s (t, some x) z q w = rw (w.stopped ∙ z) (
  w.started,
  w.reactors,
  inr (
    refl,
    record {
      stopped = refl;
      unused = record {
        threads = refl;
        loops = omega (arith, w.loops);
        guards = refl;
        accepts = refl;
      };
      port = elim w.all [ inl f ↦ f.1 | inr r ↦ absurd (false≢true (sym (ap failed r.0))) ];
      served =
          shutdown-IsServed ended (flagged t) (flagged t).effects
            (subst
              (λ es. All (IsWithin 0) (
                es
                ++ (for_accepts flag_accept t.accepts
                    ++ for_each (λ r. poll r ∷ []) (t.reactors - t.threads) t.threads)))
              (sym (w.effects ∙ q)) (roll_back-quiet t.accepts (t.reactors - t.threads) t.threads))
            w.ours;
    },
  ),
)

-- The start of a server that was neither started nor stopped either does not throw, and then each
-- reactor has a thread with a claimed loop, a guard and, unless the reactors share one, a listener,
-- every accept task is open and belongs to such a thread, the port is the bound one and nothing was
-- torn down; or it throws, and then the server is stopped, no thread, claim, guard or accept task is
-- left, the port is as it was, and every accept task that was waited for was one of a thread that was
-- joined.
pub start_lem :
    (u : Startup) (ended : ℕ → Bool) (port : ℕ) (s : Server)
    → IsFresh s
    → Ends u port s (start u ended port s)
unfolding start
start_lem u ended port s fresh =
    let begun : Server = record s { started = true } in
    let unused : IsUnused begun = record {
      threads = fresh.unused.threads;
      loops = fresh.unused.loops;
      guards = fresh.unused.guards;
      accepts = fresh.unused.accepts;
    } in
    subst (Ends u port s)
      (sym (if-else (s.started || s.stopped) _ _ (ground (arith, fresh.started, fresh.stopped))))
      (finish_lem u ended port s (attempt u port begun) fresh.stopped fresh.effects
        (attempt-Attempted u port begun unused))
