-- ===== src/Reactors/Settled.antt =====
-- What no longer happens once `stop` has gone past `abort_all`, and past the accept tasks.
use reactor.Prelude.{
  ℕ, ◌^◌, ◌≤◌, ◌<◌, ◌≡◌, ◌⊎◌, refl, sym, ap, ◌∙◌, Bool, true, false, List, some, arith, total,
  total-le-length, length, All, All-get, All-le-total, get_elem?, ◌==◌, ==_iff, Bool-cases, inl,
  inr, false≢true,
}
use reactor.Sessions.{Memory, Pc, Move, take_ticket, finish_session, serve}
use reactor.Sessions.Counted.{is_counted}
use reactor.Reactors.{
  aborting, Server, Conn, update, view, put, is_in_hand, feeder, tasks, held, Step, connection,
  accept_ends, recover, abort_all, flag_accepts, reap_accept, all_reaped, drain, expire,
  end_in_time, force_all, give_up, halt, Reach, Reachable, start, next,
}
use reactor.Reactors.Moves.{counted_at, counted_at-le-1, feeder-lt, Holds}
use reactor.Reactors.Past.{is_aborted, is_reaped, Past, Past-Walked, Past-Reaped, Step-Past}
use reactor.Reactors.Stages.{begin-Holds, Reach-Holds, Reachable-Holds}

Move-served : {m m' : Memory} {p q : Pc} → Move m p m' q → m.walked ≡ true → m'.served ≡ m.served
Move-served (serve e) h = absurd (false≢true (sym e ∙ h))
Move-served _ h = refl

Move-falls :
    {m m' : Memory} {p q : Pc}
    → Move m p m' q
    → is_in_hand p ≡ 0
    → is_counted p ≤ m.sessions
    → m.sessions < 2 ^ 64
    → m'.sessions ≤ m.sessions
Move-falls take_ticket h c f = absurd (omega (arith, h))
Move-falls finish_session h c f = omega (arith, c, f)
Move-falls _ h c f = omega arith

module _ (shared : Bool) (n : ℕ) where
  -- One step, or several, for the count of reactor `b`.
  abbrev pub Calm : ℕ → Server → Server → Type 0
  Calm b s s' =
      ((is_reaped s.stage ≡ false) ⊎ ((s'.sessions b ≤ s.sessions b) × (is_reaped s'.stage ≡ true)))
      × ((is_aborted s.stage ≡ false) ⊎ ((s'.served ≡ s.served) × (is_aborted s'.stage ≡ true)))

  Calm-trans : (b : ℕ) (s s' s'' : Server) → Calm b s s' → Calm b s' s'' → Calm b s s''
  Calm-trans b s s' s'' x y = ground (arith, x, y)

  same-Calm :
      (b : ℕ) (s s' : Server)
      → s'.sessions ≡ s.sessions
      → s'.served ≡ s.served
      → s'.stage ≡ s.stage
      → Calm b s s'
  same-Calm b s s' ss sv st = (
    elim (Bool-cases (is_reaped s.stage)) [
      | inr early ↦ inl early
      | inl late ↦ inr (omega (arith, ap (λ f. f b) ss), ap is_reaped st ∙ late)
    ],
    elim (Bool-cases (is_aborted s.stage)) [
      | inr early ↦ inl early
      | inl late ↦ inr (sv, ap is_aborted st ∙ late)
    ],
  )

  module _ (bounded : Bool) (bound size : ℕ) (few : size < 2 ^ 64) where
    put-falls :
        (s : Server) (ts : List Conn) (i r : ℕ) (p q : Pc) (m : Memory)
        → get_elem? ts i ≡ some (record { home = r; pc = p })
        → Move (view s r) p m q
        → Holds shared n bounded bound size s ts
        → ((a : ℕ) → a < tasks shared n → s.accepting a ≡ false)
        → (b : ℕ) → (put s r m).sessions b ≤ s.sessions b
    put-falls s ts i r p q m e mv v off b = elim (Bool-cases (b == r)) [
      | inr there ↦ rw there (omega arith)
      | inl here ↦
          let same : b ≡ r = (==_iff b r).0 here in
          let home : r < n = All-get (λ c. c.home < n) ts i _ v.homes e in
          let a : ℕ = feeder shared n r in
          let own : (r == r) ≡ true = (==_iff r r).1 refl in
          let fed : (a == a) ≡ true = (==_iff a a).1 refl in
          let counted : is_counted p ≤ total (counted_at r) ts =
            rw own at (All-get _ ts i _ (All-le-total (counted_at r) ts) e) in
          let hand : is_in_hand p ≤ total (held shared n a) ts =
            rw fed at (All-get _ ts i _ (All-le-total (held shared n a) ts) e) in
          let none_in = v.closed a (off a (feeder-lt shared n r home)) in
          let sum = (v.counts r).sessions in
          let falls : m.sessions ≤ s.sessions r =
            Move-falls mv (omega (arith, hand, none_in)) (omega (arith, counted, sum)) (
              omega (
                arith,
                sum,
                few,
                total-le-length (counted_at r) (counted_at-le-1 r) ts,
                v.length,
              )) in
          rw here (omega (arith, falls, ap s.sessions same))
    ]

    Step-Calm :
        {s s' : Server} {ts ts' : List Conn} (b : ℕ)
        → Step shared n s ts s' ts'
        → Holds shared n bounded bound size s ts
        → Past shared n s.walked s.accepting s.stage
        → Calm b s s'
    Step-Calm {s = s} {ts = ts} b (connection i {r} {p} {q} {m} e mv al) v past = (
      elim (Bool-cases (is_reaped s.stage)) [
        | inr early ↦ inl early
        | inl late ↦
            let off = Past-Reaped shared n s.walked s.accepting s.stage late past in
            inr (put-falls s ts i r p q m e mv v off b, late)
      ],
      elim (Bool-cases (is_aborted s.stage)) [
        | inr early ↦ inl early
        | inl late ↦
            let home : r < n = All-get (λ c. c.home < n) ts i _ v.homes e in
            inr (
              Move-served mv (Past-Walked shared n s.walked s.accepting s.stage late past r home),
              late,
            )
      ],
    )
    Step-Calm {s = s} b (accept_ends a why h) v past =
        same-Calm b s (record s { accepting = update s.accepting a false }) refl refl refl
    Step-Calm {s = s} b recover v past = same-Calm b s (record s { failing = false }) refl refl refl
    Step-Calm b (abort_all k e lt) v past = (inl (ap is_reaped e), inl (ap is_aborted e))
    Step-Calm b (flag_accepts e) v past = (inl (ap is_reaped e), inl (ap is_aborted e))
    Step-Calm b (reap_accept k e lt off) v past = (inl (ap is_reaped e), inr (refl, refl))
    Step-Calm b (all_reaped e) v past = (inl (ap is_reaped e), inr (refl, refl))
    Step-Calm b (drain k e lt z) v past = (inr (omega arith, refl), inr (refl, refl))
    Step-Calm b (expire k e lt z) v past = (inr (omega arith, refl), inr (refl, refl))
    Step-Calm b (end_in_time e) v past = (inr (omega arith, refl), inr (refl, refl))
    Step-Calm b (force_all e) v past = (inr (omega arith, refl), inr (refl, refl))
    Step-Calm b (give_up e) v past = (inr (omega arith, refl), inr (refl, refl))
    Step-Calm b (halt e) v past = (inr (omega arith, refl), inr (refl, refl))

    Reach-Calm :
        bound < 2 ^ 64
        → (b : ℕ) {s : Server} {ts : List Conn} {s' : Server} {ts' : List Conn}
        → Holds shared n bounded bound size s ts
        → Past shared n s.walked s.accepting s.stage
        → Reach shared n s ts s' ts'
        → Calm b s s' × Past shared n s'.walked s'.accepting s'.stage
    Reach-Calm small b {s} v past start = (same-Calm b s s refl refl refl, past)
    Reach-Calm small b {s} {ts} {s'} {ts'} v past (next {s' = s1} r st) =
        let (calm, past1) = Reach-Calm small b v past r in
        let v1 = Reach-Holds shared n bounded bound size few small v r in
        (Calm-trans b s s1 s' calm (Step-Calm b st v1 past1), Step-Past shared n st past1)

-- However things go on: once `abort_all` has returned for every reactor no session is called any more, on
-- any of them; and once every accept task has been waited for, no reactor's session count ever
-- grows again.
pub servers_settle :
    (shared : Bool) (n : ℕ) (bounded : Bool) (bound : ℕ) (homes : List ℕ) (s s' : Server)
    (ts ts' : List Conn) (r : ℕ)
    → length homes < 2 ^ 64
    → bound < 2 ^ 64
    → All (λ b. b < n) homes
    → Reachable shared n bounded bound homes s ts
    → Reach shared n s ts s' ts'
    → ((is_aborted s.stage ≡ false) ⊎ (s'.served ≡ s.served))
      × ((is_reaped s.stage ≡ false) ⊎ (s'.sessions r ≤ s.sessions r))
unfolding Past
servers_settle shared n bounded bound homes s s' ts ts' r few small h run later =
    let v0 = begin-Holds shared n bounded bound homes h in
    let past0 : Past shared n (λ b. false) (λ a. true) (aborting 0) =
      λ b lt. absurd (omega arith) in
    let (calm0, past) = Reach-Calm shared n bounded bound (length homes) few small r v0 past0 run in
    let v = Reachable-Holds shared n bounded bound homes s ts few small h run in
    let (calm, past') = Reach-Calm shared n bounded bound (length homes) few small r v past later in
    ground (arith, calm)
