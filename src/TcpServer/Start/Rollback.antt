-- ===== src/TcpServer/Start/Rollback.antt =====
-- What each step of `TcpServer::start` leaves as it was, and what it adds.
use reactor.Prelude.{
  ℕ, zero, suc, ◌+◌, ◌≡◌, ◌<◌, ◌≤◌, ◌⊎◌, inl, inr, refl, ◌∙◌, Bool, true, false, Option, none, some,
  List, [], ◌∷◌, ◌++◌, if◌then◌else◌, ◌==◌, arith, All, All-append, Bool-cases, false≢true,
}
use reactor.TcpServer.{Server, Accept, Error}
use reactor.TcpServer.Start.{Startup, Outcome, prepare, launch, spawn, spawn_each, count}

-- What a step of `start` leaves as it was.
pub record Kept (s t : Server) : Type 0 where
  pub reactors : t.reactors ≡ s.reactors
  pub reuse_port : t.reuse_port ≡ s.reuse_port
  pub started : t.started ≡ s.started
  pub stopped : t.stopped ≡ s.stopped
  pub port : t.port ≡ s.port
  pub effects : t.effects ≡ s.effects

-- The threads, and the accept tasks that are theirs.
pub record Running (s t : Server) : Type 0 where
  pub threads : t.threads ≡ s.threads
  pub loops : t.loops ≡ s.loops

abbrev pub failed : Option Error → Bool
failed none = false
failed (some e) = true

pub prepare-Kept :
    (u : Startup) (k i : ℕ) (s : Server)
    → let (t, e) = prepare u k i s in
      Kept s t
      × Running s t
      × (t.accepts ≡ s.accepts)
      × ((failed e ≡ true) ⊎ ((failed e ≡ false) × (t.guards ≡ s.guards + k)))
unfolding prepare
prepare-Kept u zero i s = ground arith
prepare-Kept u (suc k) i s = ground (
  arith,
  prepare-Kept u k (i + 1)
      (record s { guards = s.guards + 1; probes = if s.lag_probe then s.probes + 1 else s.probes }),
)

pub launch-Kept :
    (u : Startup) (k i : ℕ) (s : Server)
    → let (t, e) = launch u k i s in
      Kept s t
      × (t.accepts ≡ s.accepts)
      × (t.guards ≡ s.guards)
      × (t.loops + s.threads ≡ s.loops + t.threads)
      × (t.threads ≤ s.threads + k)
      × ((failed e ≡ true) ⊎ ((failed e ≡ false) × (t.threads ≡ s.threads + k)))
unfolding launch
launch-Kept u zero i s = ground arith
launch-Kept u (suc k) i s =
    ground
      (arith, launch-Kept u k (i + 1) (record s { loops = s.loops + 1; threads = s.threads + 1 }))

abbrev pub IsOf : ℕ → Accept → Type 0
IsOf n a = a.reactor < n

abbrev pub IsOpen : Accept → Type 0
IsOpen a = a.finished ≡ false

-- Accept tasks of the first `n` reactors were added, `k` of them if nothing was thrown.
pub record Grown (n k : ℕ) (s : Server) (o : Outcome) : Type 0 where
  pub kept : Kept s o.0
  pub running : Running s o.0
  pub guards : o.0.guards ≡ s.guards
  pub ours : All (IsOf n) o.0.accepts
  pub all :
      (failed o.1 ≡ true)
      ⊎ ((failed o.1 ≡ false) × (count o.0.accepts ≡ count s.accepts + k) × All IsOpen o.0.accepts)

count-append : (as' bs : List Accept) → count (as' ++ bs) ≡ count as' + count bs
count-append [] bs = omega arith
count-append (a ∷ as') bs = omega (arith, count-append as' bs)

-- The task of reactor `i` is added to the list.
abbrev with_task : ℕ → Bool → Server → Server
with_task i finished s = record s {
  accepts = s.accepts ++ (record { reactor = i; finished = finished } ∷ []);
}

with_task-Grown :
    (n i : ℕ) (s : Server)
    → i < n
    → All (IsOf n) s.accepts
    → All IsOpen s.accepts
    → Grown n 1 s (with_task i false s, none)
with_task-Grown n i s lt ours op = record {
  kept = ground arith;
  running = ground arith;
  guards = refl;
  ours = All-append (IsOf n) s.accepts _ ours (lt, tt);
  all = inr (
    refl,
    count-append s.accepts (record { reactor = i; finished = false } ∷ []),
    All-append IsOpen s.accepts _ op (refl, tt),
  );
}

pub spawn-Grown :
    (u : Startup) (n i : ℕ) (s : Server)
    → i < n
    → All (IsOf n) s.accepts
    → All IsOpen s.accepts
    → Grown n 1 s (spawn u i s)
unfolding spawn
spawn-Grown u n i s lt ours op = elim (Bool-cases (u.task_fails i)) [
  | inl fails ↦ rw fails (record {
    kept = ground arith;
    running = ground arith;
    guards = refl;
    ours = All-append (IsOf n) s.accepts _ ours (lt, tt);
    all = inl refl;
  })
  | inr made ↦ rw made (with_task-Grown n i s lt ours op)
]

Grown-trans :
    (n k : ℕ) (s t : Server) (o : Outcome)
    → Grown n 1 s (t, none)
    → Grown n k t o
    → Grown n (suc k) s o
Grown-trans n k s t o g h =
    let kg = g.kept in
    let kh = h.kept in
    let rg = g.running in
    let rh = h.running in
    record {
      kept = ground arith;
      running = ground arith;
      guards = h.guards ∙ g.guards;
      ours = h.ours;
      all = elim h.all [
        | inl f ↦ inl f
        | inr w ↦ inr (
          w.0,
          elim g.all [ inl f ↦ absurd (false≢true f) | inr v ↦ omega (arith, w.1, v.1) ],
          w.2,
        )
      ];
    }

-- A step that is followed by one that throws.
Grown-failed :
    (n k : ℕ) (s t : Server) (e : Error) → Grown n 1 s (t, none) → Grown n k s (t, some e)
Grown-failed n k s t e g = record {
  kept = g.kept;
  running = g.running;
  guards = g.guards;
  ours = g.ours;
  all = inl refl;
}

Grown-IsOpen : (n : ℕ) (s t : Server) → Grown n 1 s (t, none) → All IsOpen t.accepts
Grown-IsOpen n s t g = elim g.all [ inl f ↦ absurd (false≢true f) | inr v ↦ v.2 ]

pub spawn_each-Grown :
    (u : Startup) (n k i port : ℕ) (s : Server)
    → i + k ≤ n
    → All (IsOf n) s.accepts
    → All IsOpen s.accepts
    → Grown n k s (spawn_each u k i port s)
unfolding spawn_each spawn
spawn_each-Grown u n zero i port s le ours op = record {
  kept = ground arith;
  running = ground arith;
  guards = refl;
  ours = ours;
  all = inr (refl, omega arith, op);
}
spawn_each-Grown u n (suc k) i port s le ours op =
    let one = with_task-Grown n i s (omega arith) ours op in
    elim (Bool-cases (u.task_fails i)) [
      | inl fails ↦ rw fails (record {
        kept = ground arith;
        running = ground arith;
        guards = refl;
        ours = All-append (IsOf n) s.accepts _ ours (omega arith, tt);
        all = inl refl;
      })
      | inr made ↦ rw made (elim (Bool-cases (port == 0)) [
        | inl z ↦ rw z (elim (Bool-cases (u.listening_fails 0)) [
          | inl lf ↦ rw lf (Grown-failed n (suc k) s _ _ one)
          | inr up ↦ rw up (
              Grown-trans n k s (with_task i false s) _ one (
                spawn_each-Grown u n k (i + 1) (u.bound_port port) (with_task i false s)
                  (omega arith) (one.ours) (Grown-IsOpen n s _ one)))
        ])
        | inr nz ↦ rw nz (
            Grown-trans n k s (with_task i false s) _ one (
              spawn_each-Grown u n k (i + 1) port (with_task i false s) (omega arith) (one.ours)
                (Grown-IsOpen n s _ one)))
      ])
    ]
