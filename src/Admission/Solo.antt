-- ===== src/Admission/Solo.antt =====
-- `ConnectionAdmission` as one thread sees it: the functions as they are written, with each
-- compare-exchange met by the value that was loaded, and the proof that they are runs of the tasks.
use reactor.Prelude.{
  ℕ, ◌+◌, ◌^◌, ◌≤◌, ◌<◌, ◌≡◌, refl, Bool, true, false, arith, if◌then◌else◌, ◌==◌, ltb, leb, u64,
  sub64, u64_max, min, max, Bool-cases, ==_iff, ltb→lt, leb→le, inl, inr, ◌⊎◌,
}
use reactor.Prelude.Threads.{Run, stop, then_move, Run-step, Run-append}
use reactor.Admission.{
  State, Memory, Pc, outside, refuse, refuse_loop, accept, accept_loop, raise, raise_loop, leased,
  Move, with_high_water, with_accepted, with_rejected, load_active, full, enter, load_rejected,
  reject_saturated, reject_counted, load_accepted, accept_saturated, accept_counted,
  load_high_water, high_enough, high_raised,
}

unfoldable pub increment : ℕ → ℕ
increment counter = if counter == u64_max then counter else u64 (counter + 1)

unfoldable pub admitted : State → State
unfolding increment
admitted s = record s {
  active = u64 (s.active + 1);
  accepted = increment s.accepted;
  high_water = if ltb s.high_water (u64 (s.active + 1)) then u64 (s.active + 1) else s.high_water;
}

-- Whether the call returned a lease.
unfoldable pub try_enter : State → State × Bool
unfolding increment admitted
try_enter s =
    if leb s.maximum s.active
    then (record s { rejected = increment s.rejected }, false)
    else (admitted s, true)

unfoldable pub leave : State → State
leave s = record s { active = sub64 s.active 1 }

-- A state whose fields fit their types, with no more leases than the bound.
pub record IsValid (s : State) : Type 0 where
  pub size : s.maximum < 2 ^ 64
  pub active : s.active ≤ s.maximum
  pub high_water : (s.active ≤ s.high_water) × (s.high_water ≤ s.maximum)
  pub accepted : s.accepted ≤ u64_max
  pub rejected : s.rejected ≤ u64_max

-- `try_enter` admits exactly while fewer leases than the bound are held; an admission is counted
-- in `active`, `accepted` and `high_water`, a refusal in `rejected` alone.
pub try_enter_lem :
    (s : State)
    → IsValid s
    → ((s.active < s.maximum)
        × ((try_enter s).1 ≡ true)
        × ((try_enter s).0 ≡ record s {
          active = s.active + 1;
          accepted = min u64_max (s.accepted + 1);
          high_water = max s.high_water (s.active + 1);
        }))
      ⊎ ((s.active ≡ s.maximum)
          × ((try_enter s).1 ≡ false)
          × ((try_enter s).0 ≡ record s { rejected = min u64_max (s.rejected + 1) }))
unfolding try_enter
try_enter_lem s v = ground arith

-- `try_enter` keeps the state valid.
pub try_enter-IsValid : (s : State) → IsValid s → IsValid (try_enter s).0
unfolding try_enter
try_enter-IsValid s v = ground arith

pub leave-try_enter :
    (s : State) → IsValid s → (try_enter s).1 ≡ true → (leave (try_enter s).0).active ≡ s.active
unfolding try_enter leave
leave-try_enter s v h = ground arith

abbrev pub outcome : Bool → Pc
outcome true = leased
outcome false = outside

-- A loop that starts with the value in memory is left in its first round.
pub Run-raise_loop :
    (m : Memory) (v : ℕ)
    → Run Move m
        (raise_loop v m.high_water)
        (with_high_water m (if ltb m.high_water (u64 (v + 1)) then u64 (v + 1) else m.high_water))
        leased
Run-raise_loop m v = elim (Bool-cases (ltb m.high_water (u64 (v + 1)))) [
  | inl low ↦ rw low (then_move stop (high_raised (ltb→lt _ _ low) refl))
  | inr high ↦ rw high (then_move stop (high_enough (ground arith)))
]

pub Run-accept_loop :
    (m : Memory) (v : ℕ)
    → Run Move m (accept_loop v m.accepted) (with_accepted m (increment m.accepted)) (raise v)
unfolding increment
Run-accept_loop m v = elim (Bool-cases (m.accepted == u64_max)) [
  | inl top ↦ rw top (then_move stop (accept_saturated ((==_iff _ u64_max).0 top)))
  | inr below ↦ rw below (then_move stop (accept_counted (ground arith) refl))
]

pub Run-refuse_loop :
    (m : Memory)
    → Run Move m (refuse_loop m.rejected) (with_rejected m (increment m.rejected)) outside
unfolding increment
Run-refuse_loop m = elim (Bool-cases (m.rejected == u64_max)) [
  | inl top ↦ rw top (then_move stop (reject_saturated ((==_iff _ u64_max).0 top)))
  | inr below ↦ rw below (then_move stop (reject_counted (ground arith) refl))
]

abbrev pub entered : Memory → ℕ → Memory
entered m v =
    let counted = with_accepted m (increment m.accepted) in
    with_high_water counted (if ltb m.high_water (u64 (v + 1)) then u64 (v + 1) else m.high_water)

pub Run-accept : (m : Memory) (v : ℕ) → Run Move m (accept v) (entered m v) leased
Run-accept m v =
    Run-step load_accepted
      (Run-append (Run-accept_loop m v) (Run-step load_high_water (Run-raise_loop _ v)))

pub Run-refuse : (m : Memory) → Run Move m refuse (with_rejected m (increment m.rejected)) outside
Run-refuse m = Run-step load_rejected (Run-refuse_loop m)

-- With no other task in the way, a run of the task's accesses ends in what `try_enter` returns.
pub try_enter-Run :
    (m : Memory)
    → IsValid m.state
    → (m' : Memory) × (m'.state ≡ (try_enter m.state).0)
      × Run Move m outside m' (outcome (try_enter m.state).1)
unfolding try_enter
try_enter-Run m v = elim (Bool-cases (leb m.maximum m.active)) [
  | inl full' ↦
      rw full' (_, refl, Run-step load_active (Run-step (full (leb→le _ _ full')) (Run-refuse _)))
  | inr room ↦
      rw room
        (_, refl, Run-step load_active (Run-step (enter (ground arith) refl) (Run-accept _ _)))
]
