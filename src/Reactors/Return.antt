-- ===== src/Reactors/Return.antt =====
-- Whether `stop` returns.
use reactor.Prelude.{
  subst, ℕ, zero, suc, ◌+◌, ◌-◌, ◌^◌, ◌≤◌, ◌<◌, ◌≡◌, refl, ap, ◌∙◌, Bool, true, false, List, arith,
  total, length, All, ◌==◌, ==_iff, Bool-cases, inl, inr, false≢true,
}
use reactor.Reactors.{
  Stage, aborting, reaping, draining, waited, halted, Server, Conn, is_running, tasks, held, Step,
  connection, accept_ends, recover, abort_all, flag_accepts, reap_accept, all_reaped, drain, expire,
  end_in_time, force_all, give_up, halt, Reach, Reachable, start, next,
}
use reactor.Reactors.Stages.{Reach-Holds, Reachable-Holds}
use reactor.Reactors.Ends.{live, Reach-trans, all_end, none_counted}

-- `stop` has reactors to wait for, in time for `sessions_end_within` to answer true.
abbrev pub is_waiting : Stage → Bool
is_waiting (draining true k ok) = ok
is_waiting waited = false
is_waiting halted = false
is_waiting _ = true

waiting-running : (g : Stage) → is_waiting g ≡ true → is_running g ≡ true
waiting-running halted w = absurd (false≢true w)
waiting-running _ w = refl

module _ (shared : Bool) (n : ℕ) where
  -- The loops of `stop` stay within their bounds.
  abbrev InRange : Stage → Type 0
  InRange (aborting k) = k ≤ n
  InRange (reaping k) = k ≤ tasks shared n
  InRange (draining late k ok) = k ≤ n
  InRange _ = Unit

  Step-InRange :
      {s s' : Server} {ts ts' : List Conn}
      → Step shared n s ts s' ts'
      → InRange s.stage
      → InRange s'.stage
  Step-InRange (connection i e mv al) v = v
  Step-InRange (accept_ends a why h) v = v
  Step-InRange recover v = v
  Step-InRange (abort_all k e lt) v = omega (arith, lt)
  Step-InRange (flag_accepts e) v = omega arith
  Step-InRange (reap_accept k e lt off) v = omega (arith, lt)
  Step-InRange (all_reaped e) v = omega arith
  Step-InRange (drain k e lt z) v = omega (arith, lt)
  Step-InRange (expire k e lt z) v = omega (arith, lt)
  Step-InRange (end_in_time e) v = tt
  Step-InRange (force_all e) v = omega arith
  Step-InRange (give_up e) v = tt
  Step-InRange (halt e) v = tt

  -- While `stop` waits for the accept tasks, they have been told to stop.
  abbrev Asked : Stage → Bool → Type 0
  Asked (reaping k) b = b ≡ true
  Asked _ b = Unit

  Step-Asked :
      {s s' : Server} {ts ts' : List Conn}
      → Step shared n s ts s' ts'
      → Asked s.stage s.stopping
      → Asked s'.stage s'.stopping
  Step-Asked (connection i e mv al) v = v
  Step-Asked (accept_ends a why h) v = v
  Step-Asked recover v = v
  Step-Asked (abort_all k e lt) v = tt
  Step-Asked (flag_accepts e) v = refl
  Step-Asked {s = s} (reap_accept k e lt off) v = subst (λ g. Asked g s.stopping) e v
  Step-Asked (all_reaped e) v = tt
  Step-Asked (drain k e lt z) v = tt
  Step-Asked (expire k e lt z) v = tt
  Step-Asked (end_in_time e) v = tt
  Step-Asked (force_all e) v = tt
  Step-Asked (give_up e) v = tt
  Step-Asked (halt e) v = tt

  Reach-Asked :
      {s : Server} {ts : List Conn} {s' : Server} {ts' : List Conn}
      → Asked s.stage s.stopping
      → Reach shared n s ts s' ts'
      → Asked s'.stage s'.stopping
  Reach-Asked v start = v
  Reach-Asked v (next r st) = Step-Asked st (Reach-Asked v r)

  Reach-InRange :
      {s : Server} {ts : List Conn} {s' : Server} {ts' : List Conn}
      → InRange s.stage
      → Reach shared n s ts s' ts'
      → InRange s'.stage
  Reach-InRange v start = v
  Reach-InRange v (next r st) = Step-InRange st (Reach-InRange v r)

  -- Where `stop` has drained and returned.
  abbrev pub Returned : Server → List Conn → Type 0
  Returned s ts =
      (s' : Server) × (ts' : List Conn) × Reach shared n s ts s' ts'
      × (s'.stage ≡ halted)
      × (s'.drained ≡ true)

  then_Returned :
      {s s' : Server} {ts ts' : List Conn}
      → Reach shared n s ts s' ts'
      → Returned s' ts'
      → Returned s ts
  then_Returned r (s2, ts2, q, w, d) = (s2, ts2, Reach-trans shared n r q, w, d)

  module _ (ts : List Conn) (idle_hands : (a : ℕ) → total (held shared n a) ts ≡ 0) where
    Quiet : Server → Type 0
    Quiet s = (b : ℕ) → s.sessions b ≡ 0

    -- `left` reactors have not been waited for.
    in_time_returns :
        (left k : ℕ) (late : Bool) (s : Server)
        → s.stage ≡ draining late k true
        → left + k ≡ n
        → Quiet s
        → Returned s ts
    unfolding Quiet
    in_time_returns zero k late s e sum q =
        let last : k ≡ n = omega (arith, sum) in
        (
          _,
          ts,
          next (next start (end_in_time (e ∙ ap (λ j. draining late j true) last))) (halt refl),
          refl,
          refl,
        )
    in_time_returns (suc left) k late s e sum q =
        then_Returned (next start (drain k e (omega (arith, sum)) (q k)))
          (in_time_returns left (suc k) late _ refl (omega (arith, sum)) q)

    overdue_returns :
        (left k : ℕ) (s : Server)
        → s.stage ≡ draining false k false
        → left + k ≡ n
        → Quiet s
        → Returned s ts
    unfolding Quiet
    overdue_returns zero k s e sum q =
        let last : k ≡ n = omega (arith, sum) in
        then_Returned (next start (force_all (e ∙ ap (λ j. draining false j false) last)))
          (in_time_returns n 0 true _ refl (omega arith) q)
    overdue_returns (suc left) k s e sum q =
        then_Returned (next start (drain k e (omega (arith, sum)) (q k)))
          (overdue_returns left (suc k) _ refl (omega (arith, sum)) q)

    reaping_returns :
        (left k : ℕ) (s : Server)
        → s.stage ≡ reaping k
        → s.stopping ≡ true
        → left + k ≡ tasks shared n
        → Quiet s
        → Returned s ts
    unfolding Quiet
    reaping_returns zero k s e told sum q =
        then_Returned (next start (all_reaped (e ∙ ap reaping (omega (arith, sum)))))
          (in_time_returns n 0 false _ refl (omega arith) q)
    reaping_returns (suc left) k s e told sum q = elim (Bool-cases (s.accepting k)) [
      | inr over ↦
          then_Returned (next start (reap_accept k e (omega (arith, sum)) over))
            (reaping_returns left (suc k) _ refl told (omega (arith, sum)) q)
      | inl on ↦
          let own : (k == k) ≡ true = (==_iff k k).1 refl in
          then_Returned
            (next (next start (accept_ends k (inr told) (idle_hands k)))
              (reap_accept k e (omega (arith, sum)) (rw own refl)))
            (reaping_returns left (suc k) _ refl told (omega (arith, sum)) q)
    ]

    aborting_returns :
        (left k : ℕ) (s : Server) → s.stage ≡ aborting k → left + k ≡ n → Quiet s → Returned s ts
    unfolding Quiet
    aborting_returns zero k s e sum q =
        then_Returned (next start (flag_accepts (e ∙ ap aborting (omega (arith, sum)))))
          (reaping_returns (tasks shared n) 0 _ refl refl (omega arith) q)
    aborting_returns (suc left) k s e sum q =
        then_Returned (next start (abort_all k e (omega (arith, sum))))
          (aborting_returns left (suc k) _ refl (omega (arith, sum)) q)

    stage_returns :
        (s : Server) (g : Stage)
        → s.stage ≡ g
        → is_waiting g ≡ true
        → InRange g
        → Asked g s.stopping
        → Quiet s
        → Returned s ts
    stage_returns s (aborting k) e w v told q = aborting_returns (n - k) k s e (omega (arith, v)) q
    stage_returns s (reaping k) e w v told q =
        reaping_returns (tasks shared n - k) k s e told (omega (arith, v)) q
    stage_returns s (draining late k true) e w v told q =
        in_time_returns (n - k) k late s e (omega (arith, v)) q
    stage_returns s (draining false k false) e w v told q =
        overdue_returns (n - k) k s e (omega (arith, v)) q
    stage_returns s (draining true k false) e w v told q = absurd (false≢true w)
    stage_returns s waited e w v told q = absurd (false≢true w)
    stage_returns s halted e w v told q = absurd (false≢true w)

-- However the threads have interleaved, before `stop` or in it, and also when no accept fails from then
-- on: as long as `sessions_end_within` can still answer true and sessions can end, a schedule is left
-- on which every session of every reactor ends, every accept task that is left ends because it has been
-- told to stop, all waits of `stop` see that, and it returns.
pub stop_returns :
    (shared : Bool) (n : ℕ) (bounded : Bool) (bound : ℕ) (homes : List ℕ) (s : Server)
    (ts : List Conn)
    → length homes < 2 ^ 64
    → bound < 2 ^ 64
    → All (λ b. b < n) homes
    → Reachable shared n bounded bound homes s ts
    → is_waiting s.stage ≡ true
    → (s' : Server) × (ts' : List Conn) × Reach shared n (record s { failing = false }) ts s' ts'
      × (s'.stage ≡ halted)
      × (s'.drained ≡ true)
unfolding Quiet
stop_returns shared n bounded bound homes s ts few small h r w =
    let calm : Server = record s { failing = false } in
    let r1 = next r recover in
    let v = Reachable-Holds shared n bounded bound homes calm ts few small h r1 in
    let (s', ts', q, k, z) =
      all_end shared n (total live ts) calm ts refl (waiting-running s.stage w) in
    let u = Reach-Holds shared n bounded bound (length homes) few small v q in
    let quiet : (b : ℕ) → s'.sessions b ≡ 0 =
      λ b. (u.counts b).sessions ∙ (none_counted shared n b 0 ts' z).0 in
    let whole = Reach-trans shared n r1 q in
    let range : InRange shared n s.stage = Reach-InRange shared n (omega arith) r in
    let told : Asked shared n s'.stage s'.stopping = Reach-Asked shared n tt whole in
    then_Returned shared n q (
      stage_returns shared n ts' (λ a. (none_counted shared n 0 a ts' z).1) s' s.stage k.0 w range
        (subst (λ g. Asked shared n g s'.stopping) k.0 told) quiet)
