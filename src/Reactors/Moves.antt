-- ===== src/Reactors/Moves.antt =====
-- What each move of a connection keeps.
use reactor.Prelude.{
  ℕ, ◌+◌, ◌^◌, ◌≤◌, ◌<◌, ◌≡◌, refl, sym, ap, subst, ◌∙◌, Bool, true, false, List, some, arith,
  get_elem?, set, total, total-set, length, length-set, total-le-length, All, All-get, All-le-total,
  All-set, if◌then◌else◌, ◌==◌, ==_iff, Bool-cases, inl, inr, false≢true, ◌≢◌,
}
use reactor.Sessions.{Memory, Pc, outside, Move, accept, refuse, accept_unbounded, abort_walk}
use reactor.Sessions.Counted.{is_counted, is_leased, Counts, Move-Counts, counted-le-1}
use reactor.Reactors.{
  Stage, aborting, reaping, draining, waited, halted, Server, Conn, view, put, is_in_hand, feeder,
  tasks, held, Allowed,
}

-- A ticket of reactor `r`, and a lease.
abbrev pub counted_at : ℕ → Conn → ℕ
counted_at r c = if c.home == r then is_counted c.pc else 0

abbrev pub leased : Conn → ℕ
leased c = is_leased c.pc

pub counted_at-le-1 : (r : ℕ) (c : Conn) → counted_at r c ≤ 1
counted_at-le-1 r c = ground (arith, counted-le-1 c.pc)

pub feeder-lt : (shared : Bool) (n r : ℕ) → r < n → feeder shared n r < tasks shared n
feeder-lt true n r lt = omega arith
feeder-lt false n r lt = omega (arith, lt)

-- A connection that has no ticket and is not in hand leaves the count as it is.
Move-quiet :
    {m m' : Memory} {p q : Pc}
    → Move m p m' q
    → is_counted p ≡ 0
    → is_in_hand p ≡ 0
    → m'.sessions ≡ m.sessions
Move-quiet (accept e t) c h = refl
Move-quiet (refuse e t) c h = refl
Move-quiet (accept_unbounded e) c h = refl
Move-quiet abort_walk c h = refl
Move-quiet _ c h = absurd (ground (arith, c, h))

-- What leaves an accept task's hand does not come back.
Move-hand :
    {m m' : Memory} {p q : Pc} → Move m p m' q → p ≢ outside → is_in_hand p ≡ 0 → is_in_hand q ≡ 0
Move-hand (accept e t) ne h = absurd (ne refl)
Move-hand (accept_unbounded e) ne h = absurd (ne refl)
Move-hand _ ne h = ground (arith, h)

module _ (shared : Bool) (n : ℕ) where
  unfoldable pub Reaped : Server → Type 0
  Reaped s = (a : ℕ) → a < tasks shared n → s.accepting a ≡ false

  unfoldable pub AtStage : Server → Stage → Type 0
  unfolding Reaped
  AtStage s (aborting k) = s.drained ≡ false
  AtStage s (reaping k) = (s.drained ≡ false) × ((a : ℕ) → a < k → s.accepting a ≡ false)
  AtStage s (draining late k ok) =
      (s.drained ≡ false) × Reaped s × (ok ≡ true → (r : ℕ) → r < k → s.sessions r ≡ 0)
  AtStage s _ = s.drained ≡ true → Reaped s × ((r : ℕ) → r < n → s.sessions r ≡ 0)

  pub record Holds (bounded : Bool) (bound size : ℕ) (s : Server) (ts : List Conn) : Type 0 where
    pub length : length ts ≡ size
    pub homes : All (λ c. c.home < n) ts
    pub counts :
        (r : ℕ) → Counts bounded bound (view s r) (total (counted_at r) ts) (total leased ts)
    pub closed : (a : ℕ) → s.accepting a ≡ false → total (held shared n a) ts ≡ 0
    pub stages : AtStage s s.stage

  module _ (bounded : Bool) (bound size : ℕ) (small : bound < 2 ^ 64) (few : size < 2 ^ 64) where
    module _ (s : Server) (ts : List Conn) (v : Holds bounded bound size s ts) where
      module _ (i r : ℕ) (p q : Pc) (m : Memory)
          (e : get_elem? ts i ≡ some (record { home = r; pc = p }))
          (mv : Move (view s r) p m q) where
        ts' : List Conn
        ts' = set ts i (record { home = r; pc = q })

        put-Counts :
            (b : ℕ)
            → Counts bounded bound
                (view (put s r m) b)
                (total (counted_at b) ts')
                (total leased ts')
        unfolding ts'
        put-Counts b =
            let own : (r == r) ≡ true = (==_iff r r).1 refl in
            let leases = total-set leased ts i _ (record { home = r; pc = q }) e in
            let mine : total (counted_at r) ts' + is_counted p
                ≡ total (counted_at r) ts + is_counted q =
              rw own at (total-set (counted_at r) ts i _ (record { home = r; pc = q }) e) in
            let few' : total (counted_at r) ts' ≤ size = omega (
              arith,
              total-le-length (counted_at r) (counted_at-le-1 r) ts',
              length-set ts i (record { home = r; pc = q }),
              v.length,
            ) in
            let w = Move-Counts small few mv mine leases few' (v.counts r) in
            record {
              kind = (v.counts b).kind;
              maximum = w.maximum;
              active = w.active;
              within = w.within;
              sessions = elim (Bool-cases (b == r)) [
                | inl here ↦
                    let same : r ≡ b = sym ((==_iff b r).0 here) in
                    rw here (w.sessions ∙ ap (λ x. total (counted_at x) ts') same)
                | inr there ↦
                    let apart : (r == b) ≡ false = ground (arith, there) in
                    let kept =
                      rw apart at
                        (total-set (counted_at b) ts i _ (record { home = r; pc = q }) e) in
                    rw there (omega (arith, kept, (v.counts b).sessions))
              ];
            }

        put-closed :
            (a : ℕ)
            → Allowed shared n s ts r p m q
            → s.accepting a ≡ false
            → total (held shared n a) ts' ≡ 0
        unfolding ts'
        put-closed a al off = elim (Bool-cases (feeder shared n r == a)) [
          | inl here ↦
              let same : feeder shared n r ≡ a = (==_iff (feeder shared n r) a).0 here in
              let sum =
                rw here at (total-set (held shared n a) ts i _ (record { home = r; pc = q }) e) in
              let none_in = v.closed a off in
              let mine : (if feeder shared n r == a then is_in_hand p else 0)
                  ≤ total (held shared n a) ts =
                All-get _ ts i _ (All-le-total (held shared n a) ts) e in
              let hand : is_in_hand p ≡ 0 = omega (arith, rw here at mine, none_in) in
              let busy : p ≢ outside = λ out. false≢true (
                sym off
                ∙ (ap s.accepting (sym same)
                    ∙ (subst (λ x. Allowed shared n s ts r x m q) out al).0)) in
              omega (arith, sum, none_in, Move-hand mv busy hand)
          | inr there ↦
              let sum =
                rw there at (total-set (held shared n a) ts i _ (record { home = r; pc = q }) e) in
              omega (arith, sum, v.closed a off)
        ]

        -- Once the accept tasks have finished, a count of 0 stays.
        put-quiet : Reaped s → (b : ℕ) → s.sessions b ≡ 0 → (put s r m).sessions b ≡ 0
        unfolding Reaped
        put-quiet off b none = elim (Bool-cases (b == r)) [
          | inr there ↦ rw there none
          | inl here ↦
              let same : b ≡ r = (==_iff b r).0 here in
              let home : r < n = All-get (λ c. c.home < n) ts i _ v.homes e in
              let feeds : s.accepting (feeder shared n r) ≡ false =
                off _ (feeder-lt shared n r home) in
              let own : (r == r) ≡ true = (==_iff r r).1 refl in
              let fed : (feeder shared n r == feeder shared n r) ≡ true =
                (==_iff _ (feeder shared n r)).1 refl in
              let counted : is_counted p ≤ total (counted_at r) ts =
                rw own at (All-get _ ts i _ (All-le-total (counted_at r) ts) e) in
              let hand : is_in_hand p ≤ total (held shared n (feeder shared n r)) ts =
                rw fed at
                  (All-get _ ts i _ (All-le-total (held shared n (feeder shared n r)) ts) e) in
              let gone : s.sessions r ≡ 0 = ap s.sessions (sym same) ∙ none in
              let kept : m.sessions ≡ s.sessions r =
                Move-quiet mv (omega (arith, counted, (v.counts r).sessions, gone))
                  (omega (arith, hand, v.closed (feeder shared n r) feeds)) in
              rw here (kept ∙ gone)
        ]

        put-AtStage : (st : Stage) → AtStage s st → AtStage (put s r m) st
        unfolding AtStage
        put-AtStage (aborting k) h = h
        put-AtStage (reaping k) h = h
        put-AtStage (draining late k ok) h = (h.0, h.1, (λ y b lt. put-quiet h.1 b (h.2 y b lt)))
        put-AtStage waited h = λ d. ((h d).0, λ b lt. put-quiet (h d).0 b ((h d).1 b lt))
        put-AtStage halted h = λ d. ((h d).0, λ b lt. put-quiet (h d).0 b ((h d).1 b lt))

        pub put-Holds :
            Allowed shared n s ts r p m q
            → Holds bounded bound size (put s r m) (set ts i (record { home = r; pc = q }))
        unfolding ts'
        put-Holds al = record {
          length = length-set ts i (record { home = r; pc = q }) ∙ v.length;
          homes =
              All-set (λ c. c.home < n) (λ c. c.home < n) (λ c h. h) ts i _ v.homes
                (All-get (λ c. c.home < n) ts i _ v.homes e);
          counts = put-Counts;
          closed = λ a. put-closed a al;
          stages = put-AtStage s.stage v.stages;
        }
