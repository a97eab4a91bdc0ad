-- ===== src/Reactors/Stages.antt =====
-- What each step of `stop` keeps.
use reactor.Prelude.{
  ℕ, suc, ◌^◌, ◌<◌, ◌≡◌, refl, sym, ap, subst, ◌∙◌, Bool, false, List, [], ◌∷◌, arith, total,
  length, All, if◌then◌else◌, ◌==◌, ==_iff, Bool-cases, inl, inr, false≢true,
}
use reactor.Sessions.{outside}
use reactor.Reactors.{
  Stage, aborting, reaping, draining, waited, halted, Server, Conn, update, held, Step, connection,
  accept_ends, recover, abort_all, flag_accepts, reap_accept, all_reaped, drain, expire,
  end_in_time, force_all, give_up, halt, begin, idle, Reach, Reachable, start, next,
}
use reactor.Reactors.Moves.{counted_at, leased, feeder-lt, Reaped, AtStage, Holds}
use reactor.Reactors.Moves as Moves

-- What all items below `suc k` have, those below `k` and `k` have.
pub below_suc : {P : ℕ → Type 0} (k : ℕ) → ((a : ℕ) → a < k → P a) → P k → (a : ℕ) → a < suc k → P a
below_suc {P} k f h a lt = elim (Bool-cases (a == k)) [
  | inl here ↦ subst P (sym ((==_iff a k).0 here)) h
  | inr there ↦ f a (ground (arith, there, lt))
]

pub if_zero : (b : Bool) (x : ℕ) → x ≡ 0 → 0 ≡ (if b then x else 0)
if_zero b x h = ground (arith, h)

pub off_update : (f : ℕ → Bool) (a b : ℕ) → f b ≡ false → update f a false b ≡ false
off_update f a b h = ground (arith, h)

module _ (shared : Bool) (n : ℕ) (bounded : Bool) (bound size : ℕ) where
  -- A step of `stop`, which leaves the connections where they are.
  stop_Holds :
      (s s' : Server) (ts : List Conn)
      → Holds shared n bounded bound size s ts
      → s'.bounded ≡ s.bounded
      → s'.admission ≡ s.admission
      → s'.sessions ≡ s.sessions
      → s'.accepting ≡ s.accepting
      → AtStage shared n s' s'.stage
      → Holds shared n bounded bound size s' ts
  stop_Holds s s' ts v b ad ss ac st = record {
    length = v.length;
    homes = v.homes;
    counts = λ r. record {
      kind = b ∙ (v.counts r).kind;
      maximum = ap (λ x. x.maximum) ad ∙ (v.counts r).maximum;
      active = ap (λ x. x.active) ad ∙ (v.counts r).active;
      within = rw ad (v.counts r).within;
      sessions = ap (λ f. f r) ss ∙ (v.counts r).sessions;
    };
    closed = λ a off. v.closed a (ap (λ f. f a) (sym ac) ∙ off);
    stages = st;
  }

  ends_AtStage :
      (s : Server) (a : ℕ) (st : Stage)
      → AtStage shared n s st
      → AtStage shared n (record s { accepting = update s.accepting a false }) st
  unfolding AtStage Reaped
  ends_AtStage s a (aborting k) w = w
  ends_AtStage s a (reaping k) w = (w.0, λ b lt. off_update s.accepting a b (w.1 b lt))
  ends_AtStage s a (draining late k ok) w =
      (w.0, (λ b lt. off_update s.accepting a b (w.1 b lt)), w.2)
  ends_AtStage s a waited w = λ d. ((λ b lt. off_update s.accepting a b ((w d).0 b lt)), (w d).1)
  ends_AtStage s a halted w = λ d. ((λ b lt. off_update s.accepting a b ((w d).0 b lt)), (w d).1)

  pub Step-Holds :
      bound < 2 ^ 64
      → size < 2 ^ 64
      → {s s' : Server} {ts ts' : List Conn} → Step shared n s ts s' ts'
      → Holds shared n bounded bound size s ts
      → Holds shared n bounded bound size s' ts'
  unfolding AtStage Reaped
  Step-Holds small few {s = s} {ts = ts} (connection i {r} {p} {q} {m} e mv al) v =
      Moves.put-Holds shared n bounded bound size small few s ts v i r p q m e mv al
  Step-Holds small few {s = s} {ts = ts} (accept_ends a why h) v = record {
    length = v.length;
    homes = v.homes;
    counts = v.counts;
    closed = λ b off. elim (Bool-cases (b == a)) [
      | inl here ↦ subst (λ x. total (held shared n x) ts ≡ 0) (sym ((==_iff b a).0 here)) h
      | inr there ↦ v.closed b (rw there at off)
    ];
    stages = ends_AtStage s a s.stage v.stages;
  }
  Step-Holds small few {s = s} {ts = ts} recover v =
      stop_Holds s _ ts v refl refl refl refl v.stages
  Step-Holds small few {s = s} {ts = ts} (abort_all k e lt) v =
      let w = subst (AtStage shared n s) e v.stages in stop_Holds s _ ts v refl refl refl refl w
  Step-Holds small few {s = s} {ts = ts} (flag_accepts e) v =
      let w = subst (AtStage shared n s) e v.stages in
      stop_Holds s _ ts v refl refl refl refl (w, λ a lt. absurd (omega arith))
  Step-Holds small few {s = s} {ts = ts} (reap_accept k e lt off) v =
      let w = subst (AtStage shared n s) e v.stages in
      stop_Holds s _ ts v refl refl refl refl (w.0, below_suc k w.1 off)
  Step-Holds small few {s = s} {ts = ts} (all_reaped e) v =
      let w = subst (AtStage shared n s) e v.stages in
      stop_Holds s _ ts v refl refl refl refl (w.0, w.1, λ y r lt. absurd (omega arith))
  Step-Holds small few {s = s} {ts = ts} (drain k e lt z) v =
      let w = subst (AtStage shared n s) e v.stages in
      stop_Holds s _ ts v refl refl refl refl (w.0, w.1, λ y. below_suc k (w.2 y) z)
  Step-Holds small few {s = s} {ts = ts} (expire k e lt z) v =
      let w = subst (AtStage shared n s) e v.stages in
      stop_Holds s _ ts v refl refl refl refl (w.0, w.1, λ y. absurd (false≢true y))
  Step-Holds small few {s = s} {ts = ts} (end_in_time e) v =
      let w = subst (AtStage shared n s) e v.stages in
      stop_Holds s _ ts v refl refl refl refl (λ d. (w.1, w.2 refl))
  Step-Holds small few {s = s} {ts = ts} (force_all e) v =
      let w = subst (AtStage shared n s) e v.stages in
      stop_Holds s _ ts v refl refl refl refl (w.0, w.1, λ y r lt. absurd (omega arith))
  Step-Holds small few {s = s} {ts = ts} (give_up e) v =
      let w = subst (AtStage shared n s) e v.stages in
      stop_Holds s _ ts v refl refl refl refl (λ d. absurd (false≢true (sym w.0 ∙ d)))
  Step-Holds small few {s = s} {ts = ts} (halt e) v =
      let w = subst (AtStage shared n s) e v.stages in stop_Holds s _ ts v refl refl refl refl w

module _ (shared : Bool) (n : ℕ) (bounded : Bool) (bound : ℕ) where
  idle-zero :
      (homes : List ℕ) (w : Conn → ℕ)
      → ((r : ℕ) → w (record { home = r; pc = outside }) ≡ 0)
      → total w (idle homes) ≡ 0
  idle-zero [] w z = refl
  idle-zero (r ∷ homes) w z = omega (arith, z r, idle-zero homes w z)

  pub begin-Holds :
      (homes : List ℕ)
      → All (λ r. r < n) homes
      → Holds shared n bounded bound (length homes) (begin bounded bound) (idle homes)
  unfolding AtStage
  begin-Holds homes h = record {
    length = idle_length homes;
    homes = idle_homes homes h;
    counts = λ r. record {
      kind = refl;
      maximum = refl;
      active = if_zero bounded (total leased (idle homes)) (idle-zero homes leased (λ b. refl));
      within = omega arith;
      sessions = sym (idle-zero homes (counted_at r) (λ b. ground arith));
    };
    closed = λ a off. absurd (false≢true (sym off));
    stages = refl;
  }
    where
      idle_length : (hs : List ℕ) → length (idle hs) ≡ length hs
      idle_length [] = refl
      idle_length (r ∷ hs) = ap suc (idle_length hs)

      idle_homes : (hs : List ℕ) → All (λ r. r < n) hs → All (λ (c : Conn). c.home < n) (idle hs)
      idle_homes [] h = tt
      idle_homes (r ∷ hs) h = (h.0, idle_homes hs h.1)

  pub Reach-Holds :
      (size : ℕ)
      → size < 2 ^ 64
      → bound < 2 ^ 64
      → {s : Server} {ts : List Conn} {s' : Server} {ts' : List Conn}
      → Holds shared n bounded bound size s ts
      → Reach shared n s ts s' ts'
      → Holds shared n bounded bound size s' ts'
  Reach-Holds size few small v start = v
  Reach-Holds size few small v (next r st) =
      Step-Holds shared n bounded bound size small few st (Reach-Holds size few small v r)

  pub Reachable-Holds :
      (homes : List ℕ) (s : Server) (ts : List Conn)
      → length homes < 2 ^ 64
      → bound < 2 ^ 64
      → All (λ r. r < n) homes
      → Reachable shared n bounded bound homes s ts
      → Holds shared n bounded bound (length homes) s ts
  Reachable-Holds homes s ts few small h r =
      Reach-Holds (length homes) few small (begin-Holds homes h) r
