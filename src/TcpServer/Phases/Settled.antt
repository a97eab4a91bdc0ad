-- ===== src/TcpServer/Phases/Settled.antt =====
-- What is left, and what was waited for, once phases were run on a started `TcpServer`.
use reactor.Prelude.{
  ℕ, ◌≡◌, sym, subst, ◌⊎◌, ◌∙◌, Bool, true, false, List, [], ◌∷◌, ◌++◌, arith, All, All-append, inl,
  inr,
}
use reactor.TcpServer.Start.Rollback.{IsOf}
use reactor.TcpServer.Waits.{IsServed, IsWithin, shutdown-IsServed, IsServed-append, for_each-All}
use reactor.TcpServer.Start.{Startup, start}
use reactor.TcpServer.Start.Attempt.{IsUnused}
use reactor.TcpServer.Start.Outcomes.{IsFresh, start_lem}
use reactor.TcpServer.{Server, Effect, close_scheduler, destroy_roots_of, stop}
use reactor.TcpServer.Phases.{
  Phase, stops, closes, destroys, phases, closing, destroying, teardown, after, stop-stopped,
  stopped-stop, phases_lem,
}

-- A server that runs as many threads as it has claims, or is stopped and has nothing.
stop-IsUnused :
    (ended : ℕ → Bool) (s : Server)
    → ((s.stopped ≡ false) × (s.loops ≡ s.threads)) ⊎ ((s.stopped ≡ true) × IsUnused s)
    → IsUnused (stop ended s)
unfolding stop
stop-IsUnused ended s (inl (live, e)) = ground arith
stop-IsUnused ended s (inr (done, e)) = subst IsUnused (sym (stop-stopped ended s done)) e

after-IsUnused : (es : List Effect) (s : Server) → IsUnused s → IsUnused (after es s)
after-IsUnused es s v = record {
  threads = v.threads;
  loops = v.loops;
  guards = v.guards;
  accepts = v.accepts;
}

-- Whatever phases are run after a start that ended in any way: the server is stopped, and no thread,
-- claim on a loop, guard or accept task is left.
pub phases-start :
    (u : Startup) (ended : ℕ → Bool) (port : ℕ) (p : Phase) (ps : List Phase) (s : Server)
    → IsFresh s
    → IsUnused (phases ended (p ∷ ps) (start u ended port s).0)
      × ((phases ended (p ∷ ps) (start u ended port s).0).stopped ≡ true)
phases-start u ended port p ps s fresh =
    let t : Server = (start u ended port s).0 in
    subst (λ t'. IsUnused t' × (t'.stopped ≡ true)) (sym (phases_lem ended p ps t))
      (
        after-IsUnused _ (stop ended t) (
            stop-IsUnused ended t (elim (start_lem u ended port s fresh).2 [
              | inl up ↦ inl (up.1.stopped, up.1.loops ∙ sym up.1.threads)
              | inr down ↦ inr (down.1.stopped, down.1.unused)
            ])),
        stopped-stop ended t,
      )

-- What a server that runs, or is stopped already, waits for when it stops.
stop-IsServed :
    (ended : ℕ → Bool) (s : Server)
    → ((s.stopped ≡ false) × All (IsOf s.threads) s.accepts × (s.effects ≡ []))
      ⊎ ((s.stopped ≡ true) × All (IsServed s.effects) s.effects)
    → All (IsServed (stop ended s).effects) (stop ended s).effects
unfolding stop
stop-IsServed ended s (inl (live, ours, quiet)) =
    rw live (shutdown-IsServed ended s s.effects (subst (All (IsWithin 0)) (sym quiet) tt) ours)
stop-IsServed ended s (inr (stopped, v)) =
    subst (λ (t : Server). All (IsServed t.effects) t.effects) (sym (stop-stopped ended s stopped))
      v

teardown-quiet : (n : ℕ) (ps : List Phase) → All (IsWithin 0) (teardown n ps)
teardown-quiet n [] = tt
teardown-quiet n (stops ∷ ps) = teardown-quiet n ps
teardown-quiet n (closes ∷ ps) =
    All-append _ (closing n) (teardown n ps)
      (for_each-All _ (λ r. close_scheduler r ∷ []) (λ q. (tt, tt)) n 0) (teardown-quiet n ps)
teardown-quiet n (destroys ∷ ps) =
    All-append _ (closing n ++ destroying n) (teardown n ps)
      (All-append _ (closing n) (destroying n)
        (for_each-All _ (λ r. close_scheduler r ∷ []) (λ q. (tt, tt)) n 0)
        (for_each-All _ (λ r. destroy_roots_of r ∷ []) (λ q. (tt, tt)) n 0))
      (teardown-quiet n ps)

-- Whatever phases are run after a start that ended in any way: every accept task that the server has
-- waited for runs on a reactor whose thread the server made and has joined.
pub phases-IsServed :
    (u : Startup) (ended : ℕ → Bool) (port : ℕ) (p : Phase) (ps : List Phase) (s : Server)
    → IsFresh s
    → let es = (phases ended (p ∷ ps) (start u ended port s).0).effects in All (IsServed es) es
phases-IsServed u ended port p ps s fresh =
    let t : Server = (start u ended port s).0 in
    subst (λ (v : Server). All (IsServed v.effects) v.effects) (sym (phases_lem ended p ps t))
      (IsServed-append (stop ended t).effects (teardown t.reactors (p ∷ ps))
        (stop-IsServed ended t (elim (start_lem u ended port s fresh).2 [
          | inl up ↦ inl (up.1.stopped, up.1.ours, up.1.effects)
          | inr down ↦ inr (down.1.stopped, down.1.served)
        ]))
        (teardown-quiet t.reactors (p ∷ ps)))
