-- ===== src/TcpServer/Phases.antt =====
-- reactor.h: the phases of `TcpServer`'s teardown, in any order and number, the destructor's too.
pub mod Settled
use mathlib.Core.List.{append-nil, append_assoc}
use reactor.Prelude.{
  ℕ, ◌≡◌, refl, sym, subst, ◌⊎◌, ◌∙◌, ap, Bool, true, false, List, [], ◌∷◌, ◌++◌, arith, All,
  All-append, inl, inr,
}
use reactor.TcpServer.Start.Rollback.{IsOf}
use reactor.TcpServer.Waits.{IsServed, IsWithin, shutdown-IsServed, IsServed-append, for_each-All}
use reactor.TcpServer.Start.{Startup, start}
use reactor.TcpServer.Start.Attempt.{IsUnused}
use reactor.TcpServer.Start.Outcomes.{IsFresh, start_lem}
use reactor.TcpServer.{
  Server, Effect, close_scheduler, destroy_roots_of, for_each, stop, close, destroy_roots,
}

pub data Phase : Type 0 where
  stops closes destroys : Phase

unfoldable pub phase : (ended : ℕ → Bool) → Phase → Server → Server
phase ended stops s = stop ended s
phase ended closes s = close ended s
phase ended destroys s = destroy_roots ended s

unfoldable pub phases : (ended : ℕ → Bool) → List Phase → Server → Server
phases ended [] s = s
phases ended (p ∷ ps) s = phases ended ps (phase ended p s)

-- The schedulers of `n` reactors are closed, and their roots destroyed.
abbrev pub closing : ℕ → List Effect
closing n = for_each (λ r. close_scheduler r ∷ []) n 0

abbrev pub destroying : ℕ → List Effect
destroying n = for_each (λ r. destroy_roots_of r ∷ []) n 0

-- What the phases do besides the shutdown.
abbrev pub teardown : ℕ → List Phase → List Effect
teardown n [] = []
teardown n (stops ∷ ps) = teardown n ps
teardown n (closes ∷ ps) = closing n ++ teardown n ps
teardown n (destroys ∷ ps) = (closing n ++ destroying n) ++ teardown n ps

-- `s` once `es` have been done as well.
abbrev pub after : List Effect → Server → Server
after es s = record s { effects = s.effects ++ es }

after-append : (es fs : List Effect) (s : Server) → after fs (after es s) ≡ after (es ++ fs) s
after-append es fs s = ap (λ e. record s { effects = e }) (append_assoc s.effects es fs)

after-nil : (s : Server) → after [] s ≡ s
after-nil s = ap (λ e. record s { effects = e }) (append-nil s.effects)

pub stop-stopped : (ended : ℕ → Bool) (s : Server) → s.stopped ≡ true → stop ended s ≡ s
unfolding stop
stop-stopped ended s done = rw done refl

pub stopped-stop : (ended : ℕ → Bool) (s : Server) → (stop ended s).stopped ≡ true
unfolding stop
stopped-stop ended s = ground arith

pub reactors-stop : (ended : ℕ → Bool) (s : Server) → (stop ended s).reactors ≡ s.reactors
unfolding stop
reactors-stop ended s = ground arith

-- One phase is a stop and what that phase adds.
phase_lem :
    (ended : ℕ → Bool) (p : Phase) (s : Server)
    → phase ended p s ≡ after (teardown s.reactors (p ∷ [])) (stop ended s)
unfolding phase close destroy_roots
phase_lem ended stops s = sym (after-nil (stop ended s))
phase_lem ended closes s =
    ap (λ n. after (closing n) (stop ended s)) (reactors-stop ended s)
    ∙ ap (λ es. after es (stop ended s)) (sym (append-nil (closing s.reactors)))
phase_lem ended destroys s =
    ap (λ n. after (destroying n) (after (closing n) (stop ended s))) (reactors-stop ended s)
    ∙ (after-append (closing s.reactors) (destroying s.reactors) (stop ended s)
        ∙ ap (λ es. after es (stop ended s))
            (sym (append-nil (closing s.reactors ++ destroying s.reactors))))

teardown_cons :
    (n : ℕ) (p : Phase) (ps : List Phase)
    → teardown n (p ∷ []) ++ teardown n ps ≡ teardown n (p ∷ ps)
teardown_cons n stops ps = refl
teardown_cons n closes ps = ap (λ es. es ++ teardown n ps) (append-nil (closing n))
teardown_cons n destroys ps =
    ap (λ es. es ++ teardown n ps) (append-nil (closing n ++ destroying n))

-- The phases after the first, which find a stopped server.
phases_cons :
    (ended : ℕ → Bool) (p : Phase) (ps : List Phase) (s : Server)
    → ((t : Server) → t.stopped ≡ true → phases ended ps t ≡ after (teardown t.reactors ps) t)
    → phases ended (p ∷ ps) s ≡ after (teardown s.reactors (p ∷ ps)) (stop ended s)
unfolding phases
phases_cons ended p ps s rest =
    let own = teardown s.reactors (p ∷ []) in
    let u : Server = stop ended s in
    ap (phases ended ps) (phase_lem ended p s)
    ∙ (rest (after own u) (stopped-stop ended s)
        ∙ (ap (λ n. after (teardown n ps) (after own u)) (reactors-stop ended s)
            ∙ (after-append own (teardown s.reactors ps) u
                ∙ ap (λ es. after es u) (teardown_cons s.reactors p ps))))

-- Once the server is stopped, the phases only add to the effects.
phases-stopped :
    (ended : ℕ → Bool) (ps : List Phase) (s : Server)
    → s.stopped ≡ true
    → phases ended ps s ≡ after (teardown s.reactors ps) s
unfolding phases
phases-stopped ended [] s done = sym (after-nil s)
phases-stopped ended (p ∷ ps) s done =
    phases_cons ended p ps s (phases-stopped ended ps)
    ∙ ap (after (teardown s.reactors (p ∷ ps))) (stop-stopped ended s done)

-- Any phases, in any order and number, come to one stop, which does nothing to a stopped server,
-- and after it to what the phases add in their order: closing the scheduler of each reactor, and
-- destroying the roots of each only right after such a close.
pub phases_lem :
    (ended : ℕ → Bool) (p : Phase) (ps : List Phase) (s : Server)
    → phases ended (p ∷ ps) s ≡ after (teardown s.reactors (p ∷ ps)) (stop ended s)
phases_lem ended p ps s = phases_cons ended p ps s (phases-stopped ended ps)
