-- ===== src/Prelude/Threads.antt =====
-- Tasks that interleave over shared memory. A `Move` is one access of one task: it takes the
-- memory and the task's program point to the next ones.
use Prim.Native.Nat.{ℕ}
use mathlib.Core.Path.{◌≡◌}
use mathlib.Core.List.{List}
use mathlib.Core.Option.{some}
use reactor.Prelude.Lists.{get_elem?, set, set_get, set-set, get_elem?-set_self, get-lt}

module _ {Mem Pc : Type 0} (Move : Mem → Pc → Mem → Pc → Type 0) where
  pub data Step (m : Mem) (ts : List Pc) : Mem → List Pc → Type 0 where
    turn :
        (i : ℕ) {p q : Pc} {m' : Mem}
        → get_elem? ts i ≡ some p
        → Move m p m' q
        → Step m ts m' (set ts i q)

  -- The states that some schedule of the tasks leads to.
  pub data Reach (m : Mem) (ts : List Pc) : Mem → List Pc → Type 0 where
    start : Reach m ts m ts
    later :
        {m' m'' : Mem} {ts' ts'' : List Pc}
        → Reach m ts m' ts'
        → Step m' ts' m'' ts''
        → Reach m ts m'' ts''

  -- The accesses of one task that nothing interrupts.
  pub data Run (m : Mem) (p : Pc) : Mem → Pc → Type 0 where
    stop : Run m p m p
    then_move : {m' m'' : Mem} {q r : Pc} → Run m p m' q → Move m' q m'' r → Run m p m'' r

module _ {Mem Pc : Type 0} {Move : Mem → Pc → Mem → Pc → Type 0} where
  -- What holds at the start and is kept by each access holds under every schedule.
  pub Reach-inv {κ} :
      (P : Mem → List Pc → Type κ)
      → ((m m' : Mem) (ts : List Pc) (i : ℕ) (p q : Pc)
          → get_elem? ts i ≡ some p
          → Move m p m' q
          → P m ts
          → P m' (set ts i q))
      → {m : Mem} {ts : List Pc} {m' : Mem} {ts' : List Pc} → P m ts
      → Reach Move m ts m' ts'
      → P m' ts'
  Reach-inv P keep h start = h
  Reach-inv P keep h (later r (turn i e mv)) = keep _ _ _ i _ _ e mv (Reach-inv P keep h r)

  pub Run-append :
      {m : Mem} {p : Pc} {m' : Mem} {q : Pc} {m'' : Mem} {r : Pc}
      → Run Move m p m' q
      → Run Move m' q m'' r
      → Run Move m p m'' r
  Run-append a stop = a
  Run-append a (then_move b mv) = then_move (Run-append a b) mv

  pub Run-step :
      {m : Mem} {p : Pc} {m' : Mem} {q : Pc} {m'' : Mem} {r : Pc}
      → Move m p m' q
      → Run Move m' q m'' r
      → Run Move m p m'' r
  Run-step mv b = Run-append (then_move stop mv) b

  -- Such a run is a schedule, from any place among the tasks.
  pub Run-Reach :
      (ts : List Pc) (i : ℕ) {m : Mem} {p : Pc} {m' : Mem} {q : Pc}
      → get_elem? ts i ≡ some p
      → Run Move m p m' q
      → Reach Move m ts m' (set ts i q)
  Run-Reach ts i e stop = rw (set_get ts i e) start
  Run-Reach ts i {m' = m'} e (then_move {q = q} {r = r} b mv) =
      rw (← set-set ts i q r)
        (later (Run-Reach ts i e b) (turn i (get_elem?-set_self ts i q (get-lt ts i e)) mv))
