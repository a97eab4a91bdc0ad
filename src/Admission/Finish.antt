-- ===== src/Admission/Finish.antt =====
-- No call of `ConnectionAdmission` waits for another: from wherever it stands, and with whatever
-- stale values it holds, a task that runs alone returns.
use reactor.Prelude.{
  ℕ, ◌+◌, ◌≡◌, refl, List, some, arith, get_elem?, set, u64, u64_max, dec_lt, ℕ_discrete,
}
use reactor.Prelude.Threads.{Run, stop, then_move, Run-step, Run-append, Run-Reach, Reach}
use reactor.Admission.{
  Memory, Pc, outside, admit, refuse, refuse_loop, accept, accept_loop, raise, raise_loop, leased,
  Move, full, enter, enter_again, reject_saturated, reject_again, accept_saturated, accept_again,
  load_high_water, high_enough, high_again,
}
use reactor.Admission.Solo.{
  Run-raise_loop, Run-accept, Run-accept_loop, Run-refuse, Run-refuse_loop,
}
use reactor.Admission.Safety.{IsQuiet}

-- The task runs from `p` to a point where no call is in progress.
record Finish (m : Memory) (p : Pc) : Type 0 where
  last : Memory
  end : Pc
  quiet : IsQuiet end
  run : Run Move m p last end

-- One access first.
after : {m m' : Memory} {p q : Pc} → Move m p m' q → Finish m' q → Finish m p
after mv f = record { last = f.last; end = f.end; quiet = f.quiet; run = Run-step mv f.run }

leased_by : {m m' : Memory} {p : Pc} → Run Move m p m' leased → Finish m p
leased_by r = record { last = _; end = leased; quiet = tt; run = r }

refused_by : {m m' : Memory} {p : Pc} → Run Move m p m' outside → Finish m p
refused_by r = record { last = _; end = outside; quiet = tt; run = r }

finish_raise_loop : (m : Memory) (v h : ℕ) → Finish m (raise_loop v h)
finish_raise_loop m v h = elim (dec_lt h (u64 (v + 1))) [
  | yes low ↦ after (high_again low) (leased_by (Run-raise_loop m v))
  | no enough ↦ leased_by (then_move stop (high_enough (omega arith)))
]

finish : (m : Memory) (p : Pc) → Finish m p
finish m outside = refused_by stop
finish m leased = leased_by stop
finish m (admit v) = elim (dec_lt v m.maximum) [
  | yes room ↦ after (enter_again room) (elim (dec_lt m.active m.maximum) [
    | yes now ↦ after (enter now refl) (leased_by (Run-accept _ m.active))
    | no over ↦ after (full (omega arith)) (refused_by (Run-refuse _))
  ])
  | no over ↦ after (full (omega arith)) (refused_by (Run-refuse _))
]
finish m refuse = refused_by (Run-refuse m)
finish m (refuse_loop c) = elim (ℕ_discrete c u64_max) [
  | yes top ↦ refused_by (then_move stop (reject_saturated top))
  | no below ↦ after (reject_again below) (refused_by (Run-refuse_loop m))
]
finish m (accept v) = leased_by (Run-accept m v)
finish m (accept_loop v c) = elim (ℕ_discrete c u64_max) [
  | yes top ↦
      after (accept_saturated top) (after load_high_water (finish_raise_loop m v m.high_water))
  | no below ↦
      after (accept_again below) (
        leased_by
          (Run-append (Run-accept_loop m v) (Run-step load_high_water (Run-raise_loop _ v))))
]
finish m (raise v) = after load_high_water (finish_raise_loop m v m.high_water)
finish m (raise_loop v h) = finish_raise_loop m v h

-- From any state and for any task in it there is a schedule of that task alone that ends its
-- call, with a lease or without one; the other tasks stand where they stood.
pub call_finishes :
    (m : Memory) (ts : List Pc) (i : ℕ) (p : Pc)
    → get_elem? ts i ≡ some p
    → (m' : Memory) × (q : Pc) × IsQuiet q × Reach Move m ts m' (set ts i q)
call_finishes m ts i p e = let f = finish m p in (f.last, f.end, f.quiet, Run-Reach ts i e f.run)
