-- ===== src/TcpServer/Start/Attempt.antt =====
-- What the body of `TcpServer::start` leaves.
use reactor.Prelude.{
  ℕ, zero, suc, ◌+◌, ◌≡◌, ◌≤◌, ◌⊎◌, inl, inr, refl, sym, ◌∙◌, ap, subst, Bool, true, not, ◌&&◌,
  Option, none, some, [], if◌then◌else◌, ltb, arith, All, Bool-cases, false≢true,
}
use reactor.TcpServer.{Server, Error}
use reactor.TcpServer.Start.{
  Startup, Outcome, and_then, prepare, launch, spawn, spawn_each, wait_each, count, attempt,
}
use reactor.TcpServer.Start.Rollback.{
  Grown, failed, IsOf, IsOpen, prepare-Kept, launch-Kept, spawn-Grown, spawn_each-Grown,
}

-- A server that has no thread, claim, guard or accept task.
pub record IsUnused (s : Server) : Type 0 where
  pub threads : s.threads ≡ 0
  pub loops : s.loops ≡ 0
  pub guards : s.guards ≡ 0
  pub accepts : s.accepts ≡ []

-- The number of listeners: one that all reactors share, or one for each.
abbrev pub listeners : Server → ℕ
listeners s = if not s.reuse_port && ltb 1 s.reactors then 1 else s.reactors

-- A property of `and_then`'s outcome, whether the first step throws or not.
and_then-elim :
    (P : Outcome → Type 0) (o : Outcome) (f : Server → Outcome)
    → (failed o.1 ≡ true → P o)
    → (o.1 ≡ none → P (f o.0))
    → P (and_then o f)
and_then-elim P (s, none) f a b = b refl
and_then-elim P (s, some e) f a b = a refl

wait_each-same : (u : Startup) (k i : ℕ) (s : Server) → (wait_each u k i s).0 ≡ s
unfolding wait_each
wait_each-same u zero i s = refl
wait_each-same u (suc k) i s = elim (Bool-cases (u.listening_fails i)) [
  | inl f ↦ rw f refl
  | inr up ↦ rw up (wait_each-same u k (i + 1) s)
]

-- What the body of `start` leaves.
pub record Attempted (u : Startup) (p : ℕ) (s : Server) (o : Outcome) : Type 0 where
  pub reactors : o.0.reactors ≡ s.reactors
  pub stopped : o.0.stopped ≡ s.stopped
  pub started : o.0.started ≡ s.started
  pub loops : o.0.loops ≡ o.0.threads
  pub threads : o.0.threads ≤ s.reactors
  pub ours : All (IsOf o.0.threads) o.0.accepts
  pub effects : o.0.effects ≡ s.effects
  pub all :
      ((failed o.1 ≡ true) × (o.0.port ≡ s.port))
      ⊎ ((o.1 ≡ none)
          × (o.0.threads ≡ s.reactors)
          × (o.0.guards ≡ s.reactors)
          × (count o.0.accepts ≡ listeners s)
          × All IsOpen o.0.accepts
          × (o.0.port ≡ u.bound_port p))

-- The listeners, once the threads run.
listen-Grown :
    (u : Startup) (n port : ℕ) (r : Bool) (b : Server)
    → b.accepts ≡ []
    → Grown n
        (if not r && ltb 1 n then 1 else n)
        b
        (if not r && ltb 1 n then spawn u 0 b else spawn_each u n 0 port b)
listen-Grown u n port r b e =
    let ours = subst (All (IsOf n)) (sym e) tt in
    let open' = subst (All IsOpen) (sym e) tt in
    elim (Bool-cases (not r && ltb 1 n)) [
      | inl shared ↦ rw shared (spawn-Grown u n 0 b (ground arith) ours open')
      | inr own ↦ rw own (spawn_each-Grown u n n 0 port b (omega arith) ours open')
    ]

-- A server whose threads were all launched.
record Launched (s b : Server) : Type 0 where
  reactors : b.reactors ≡ s.reactors
  stopped : b.stopped ≡ s.stopped
  started : b.started ≡ s.started
  port : b.port ≡ s.port
  effects : b.effects ≡ s.effects
  guards : b.guards ≡ s.reactors
  threads : b.threads ≡ s.reactors
  loops : b.loops ≡ b.threads
  accepts : b.accepts ≡ []

-- What its listeners leave, when something throws.
threw-Attempted :
    (u : Startup) (port k : ℕ) (s b : Server) (o : Outcome)
    → Launched s b
    → Grown s.reactors k b o
    → (c : Server) → c ≡ o.0
    → (e : Option Error) → failed e ≡ true
    → Attempted u port s (c, e)
threw-Attempted u port k s b o l g c same e f =
    subst (λ d. Attempted u port s (d, e)) (sym same)
      (record {
        reactors = g.kept.reactors ∙ l.reactors;
        stopped = g.kept.stopped ∙ l.stopped;
        started = g.kept.started ∙ l.started;
        effects = g.kept.effects ∙ l.effects;
        loops = g.running.loops ∙ (l.loops ∙ sym g.running.threads);
        threads = omega (arith, g.running.threads, l.threads);
        ours = subst (λ t. All (IsOf t) o.0.accepts) (sym (g.running.threads ∙ l.threads)) g.ours;
        all = inl (f, g.kept.port ∙ l.port);
      })

-- What they leave, when nothing throws.
listening-Attempted :
    (u : Startup) (port k : ℕ) (s b : Server) (o : Outcome)
    → k ≡ listeners s
    → Launched s b
    → Grown s.reactors k b o
    → o.1 ≡ none
    → (c : Server) → c ≡ o.0
    → Attempted u port s (record c { port = u.bound_port port }, none)
listening-Attempted u port k s b o ek l g en c same =
    subst (λ d. Attempted u port s (record d { port = u.bound_port port }, none)) (sym same)
      (record {
        reactors = g.kept.reactors ∙ l.reactors;
        stopped = g.kept.stopped ∙ l.stopped;
        started = g.kept.started ∙ l.started;
        effects = g.kept.effects ∙ l.effects;
        loops = g.running.loops ∙ (l.loops ∙ sym g.running.threads);
        threads = omega (arith, g.running.threads, l.threads);
        ours = subst (λ t. All (IsOf t) o.0.accepts) (sym (g.running.threads ∙ l.threads)) g.ours;
        all = elim g.all [
          | inl f ↦ absurd (false≢true (sym (ap failed en) ∙ f))
          | inr w ↦ inr (
            refl,
            g.running.threads ∙ l.threads,
            g.guards ∙ l.guards,
            w.1 ∙ (ap (λ x. count x + k) l.accepts ∙ omega (arith, ek)),
            w.2,
            refl,
          )
        ];
      })

listen-Attempted :
    (u : Startup) (port : ℕ) (s b : Server)
    → Launched s b
    → Attempted u port s (
        and_then
          (if not s.reuse_port && ltb 1 s.reactors
            then spawn u 0 b
            else spawn_each u s.reactors 0 port b)
          (λ c.
            and_then
              (wait_each u (count c.accepts) 0 c)
              (λ d. (record d { port = u.bound_port port }, none))))
listen-Attempted u port s b l =
    let n = s.reactors in
    let o = if not s.reuse_port && ltb 1 n then spawn u 0 b else spawn_each u n 0 port b in
    let g = listen-Grown u n port s.reuse_port b l.accepts in
    and_then-elim (Attempted u port s) o _ (λ f. threw-Attempted u port _ s b o l g o.0 refl o.1 f)
      (λ eo.
        and_then-elim (Attempted u port s) (wait_each u (count o.0.accepts) 0 o.0) _
          (λ f. threw-Attempted u port _ s b o l g _ (wait_each-same u _ 0 o.0) _ f)
          (λ ew. listening-Attempted u port _ s b o refl l g eo _ (wait_each-same u _ 0 o.0)))

pub attempt-Attempted :
    (u : Startup) (port : ℕ) (s : Server) → IsUnused s → Attempted u port s (attempt u port s)
unfolding attempt
attempt-Attempted u port s fresh =
    let n = s.reactors in
    let ka = prepare-Kept u n 0 s in
    let a = (prepare u n 0 s).0 in
    let kb = launch-Kept u n 0 a in
    let b = (launch u n 0 a).0 in
    and_then-elim (Attempted u port s) (prepare u n 0 s) _
      (λ f. record {
        reactors = ka.0.reactors;
        stopped = ka.0.stopped;
        started = ka.0.started;
        effects = ka.0.effects;
        loops = omega (arith, ka.1.threads, ka.1.loops, fresh.threads, fresh.loops);
        threads = omega (arith, ka.1.threads, fresh.threads);
        ours = subst (All (IsOf a.threads)) (sym (ka.2 ∙ fresh.accepts)) tt;
        all = inl (f, ka.0.port);
      })
      (λ ea.
        and_then-elim (Attempted u port s) (launch u n 0 a) _
          (λ f. record {
            reactors = kb.0.reactors ∙ ka.0.reactors;
            stopped = kb.0.stopped ∙ ka.0.stopped;
            started = kb.0.started ∙ ka.0.started;
            effects = kb.0.effects ∙ ka.0.effects;
            loops = omega (arith, ka.1.threads, ka.1.loops, fresh.threads, fresh.loops, kb.3);
            threads = omega (arith, ka.1.threads, fresh.threads, kb.4);
            ours = subst (All (IsOf b.threads)) (sym (kb.1 ∙ ka.2 ∙ fresh.accepts)) tt;
            all = inl (f, kb.0.port ∙ ka.0.port);
          })
          (λ eb. listen-Attempted u port s b (record {
            reactors = kb.0.reactors ∙ ka.0.reactors;
            stopped = kb.0.stopped ∙ ka.0.stopped;
            started = kb.0.started ∙ ka.0.started;
            port = kb.0.port ∙ ka.0.port;
            effects = kb.0.effects ∙ ka.0.effects;
            guards = ground (arith, kb.2, ka.3, ap failed ea, fresh.guards);
            threads = ground (arith, kb.5, ap failed eb, ka.1.threads, fresh.threads);
            loops = omega (arith, ka.1.threads, ka.1.loops, fresh.threads, fresh.loops, kb.3);
            accepts = kb.1 ∙ (ka.2 ∙ fresh.accepts);
          })))
