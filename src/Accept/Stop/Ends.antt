-- ===== src/Accept/Stop/Ends.antt =====
-- Once it is told to stop, an accept task ends.
use reactor.Prelude.{
  ℕ, ◌+◌, ◌≤◌, ◌<◌, ◌≡◌, ◌⊎◌, inl, inr, refl, sym, ap, Bool, true, false, ◌&&◌, Option, none, arith,
  Bool-cases, false≢true,
}
use reactor.Accept.{ErrorCode, Platform, Control, judge}
use reactor.Accept.Stop.{
  Pc, spawned, testing, starting, accepting, accepted, checking, launching, retrying, arming,
  pausing, woken, finished, Stage, running, flagged, posted, closed, is_stopping, Task, is_on_loop,
  retried, Move, Step, moves, completes, enter, set_up_throws, test, async_accept, complete, resume,
  check, launch, launch_throws, retry, async_wait, expire, wake, store_stopping, post,
  stop_on_owner, Steps, here, more, begin,
}

-- The moves left to a task once `stopping` is set.
abbrev pc_moves : Pc → ℕ
pc_moves spawned = 1
pc_moves testing = 1
pc_moves starting = 4
pc_moves accepting = 3
pc_moves (accepted error) = 2
pc_moves checking = 1
pc_moves launching = 2
pc_moves (retrying e) = 1
pc_moves arming = 3
pc_moves pausing = 2
pc_moves (woken error) = 1
pc_moves finished = 0

abbrev stop_moves : Stage → ℕ
stop_moves running = 3
stop_moves flagged = 2
stop_moves posted = 1
stop_moves closed = 0

abbrev left : Task → ℕ
left t = pc_moves t.pc + stop_moves t.stage

-- After `stop_on_owner` the task waits for nothing, and starts no wait.
abbrev is_waiting : Pc → Bool
is_waiting starting = true
is_waiting accepting = true
is_waiting arming = true
is_waiting pausing = true
is_waiting launching = true
is_waiting _ = false

abbrev is_closed : Stage → Bool
is_closed closed = true
is_closed _ = false

abbrev IsSettled : Task → Type 0
IsSettled t = (is_closed t.stage && is_waiting t.pc) ≡ false

module _ (os : Platform) (aborted : ErrorCode) where
  -- A task that is told to stop leaves `retry` at once.
  judge_stopping :
      (local : Option ℕ) (e : ErrorCode) (c : Control)
      → retried (judge os true local e c).0 ≡ finished
  unfolding judge
  judge_stopping local e c = refl

  Move-falls :
      {t u : Task}
      → Move os aborted t u
      → is_stopping t.stage ≡ true
      → (left u < left t) × (is_stopping u.stage ≡ true)
  Move-falls {t} (retry local {e} at) s =
      let none_left : pc_moves (retried (judge os (is_stopping t.stage) local e t.control).0) ≡ 0 =
        rw s (ap pc_moves (judge_stopping local e t.control)) in
      (omega (arith, ap pc_moves at, none_left), s)
  Move-falls (enter e) s = ground (arith, ap pc_moves e)
  Move-falls (set_up_throws e) s = ground (arith, ap pc_moves e)
  Move-falls (test e) s = ground (arith, ap pc_moves e)
  Move-falls (async_accept e) s = ground (arith, ap pc_moves e)
  Move-falls (resume {error} e) s = ground (arith, ap pc_moves e)
  Move-falls (check e) s = ground (arith, ap pc_moves e)
  Move-falls (launch e) s = ground (arith, ap pc_moves e)
  Move-falls (launch_throws e) s = ground (arith, ap pc_moves e)
  Move-falls (async_wait e) s = ground (arith, ap pc_moves e)
  Move-falls (wake {error} e) s = ground (arith, ap pc_moves e)
  Move-falls (store_stopping e) s = ground (arith, ap stop_moves e)
  Move-falls (post e) s = ground (arith, ap stop_moves e)
  Move-falls {t} (stop_on_owner e free) s = ground (arith, ap stop_moves e)

  Step-falls :
      {t u : Task}
      → Step os aborted t u
      → is_stopping t.stage ≡ true
      → (left u < left t) × (is_stopping u.stage ≡ true)
  Step-falls (moves mv) s = Move-falls mv s
  Step-falls (completes (complete error e)) s = ground (arith, ap pc_moves e)
  Step-falls (completes (expire error e)) s = ground (arith, ap pc_moves e)

  closed-stopping : (g : Stage) → is_closed g ≡ true → is_stopping g ≡ true
  closed-stopping closed h = refl
  closed-stopping running h = absurd (false≢true h)
  closed-stopping flagged h = refl
  closed-stopping posted h = refl

  Move-IsSettled : {t u : Task} → Move os aborted t u → IsSettled t → IsSettled u
  Move-IsSettled (enter e) v = ground arith
  Move-IsSettled (set_up_throws e) v = ground arith
  Move-IsSettled (test e) v = ground arith
  Move-IsSettled (async_accept e) v = ground (arith, ap is_waiting e)
  Move-IsSettled (resume {error} e) v = ground (arith, ap is_waiting e)
  Move-IsSettled (check e) v = ground (arith, ap is_waiting e)
  Move-IsSettled (launch e) v = ground (arith, ap is_waiting e)
  Move-IsSettled (launch_throws e) v = ground (arith, ap is_waiting e)
  Move-IsSettled {t} (retry local {e} at) v = elim (Bool-cases (is_closed t.stage)) [
    | inr early ↦ rw early refl
    | inl late ↦
        let s : is_stopping t.stage ≡ true = closed-stopping t.stage late in
        let ended : is_waiting (retried (judge os (is_stopping t.stage) local e t.control).0)
            ≡ false =
          rw s (ap is_waiting (judge_stopping local e t.control)) in
        ground (arith, ended)
  ]
  Move-IsSettled (async_wait e) v = ground (arith, ap is_waiting e)
  Move-IsSettled (wake {error} e) v = ground (arith, ap is_waiting e)
  Move-IsSettled (store_stopping e) v = refl
  Move-IsSettled (post e) v = refl
  Move-IsSettled (stop_on_owner e free) v = ground arith

  Step-IsSettled : {t u : Task} → Step os aborted t u → IsSettled t → IsSettled u
  Step-IsSettled (moves mv) v = Move-IsSettled mv v
  Step-IsSettled (completes (complete error e)) v = ground (arith, ap is_waiting e)
  Step-IsSettled (completes (expire error e)) v = ground (arith, ap is_waiting e)

  Steps-IsSettled :
      {t : Task} {n : ℕ} {u : Task} → IsSettled t → Steps os aborted t n u → IsSettled u
  Steps-IsSettled v here = v
  Steps-IsSettled v (more r st) = Step-IsSettled st (Steps-IsSettled v r)

  Steps-fall :
      {t : Task} {n : ℕ} {u : Task}
      → is_stopping t.stage ≡ true
      → Steps os aborted t n u
      → (left u + n ≤ left t) × (is_stopping u.stage ≡ true)
  Steps-fall s here = (omega arith, s)
  Steps-fall s (more r st) =
      let (fell, s1) = Steps-fall s r in
      let (falls, s2) = Step-falls st s1 in (omega (arith, fell, falls), s2)

  -- A wait is ended by `stop`.
  wait_moves :
      (t : Task) (g : Stage)
      → t.stage ≡ g
      → is_stopping g ≡ true
      → is_closed g ≡ false
      → is_on_loop t.pc ≡ false
      → (u : Task) × Move os aborted t u
  wait_moves t running e s c free = absurd (false≢true s)
  wait_moves t flagged e s c free = (_, post e)
  wait_moves t posted e s c free = (_, stop_on_owner e free)
  wait_moves t closed e s c free = absurd (false≢true (sym c))

  pc_moves_on :
      (t : Task) (p : Pc)
      → t.pc ≡ p
      → is_stopping t.stage ≡ true
      → IsSettled t
      → (t.pc ≡ finished) ⊎ ((u : Task) × Move os aborted t u)
  pc_moves_on t spawned e s v = inr (_, enter e)
  pc_moves_on t testing e s v = inr (_, test e)
  pc_moves_on t starting e s v = inr (_, async_accept e)
  pc_moves_on t accepting e s v =
      inr (wait_moves t t.stage refl s (ground (arith, ap is_waiting e)) (ap is_on_loop e))
  pc_moves_on t (accepted error) e s v = inr (_, resume e)
  pc_moves_on t checking e s v = inr (_, check e)
  pc_moves_on t launching e s v = inr (_, launch e)
  pc_moves_on t (retrying error) e s v = inr (_, retry none e)
  pc_moves_on t arming e s v = inr (_, async_wait e)
  pc_moves_on t pausing e s v =
      inr (wait_moves t t.stage refl s (ground (arith, ap is_waiting e)) (ap is_on_loop e))
  pc_moves_on t (woken error) e s v = inr (_, wake e)
  pc_moves_on t finished e s v = inl e

-- From each state that the task can reach with `stopping` set: at most six steps are left, of the task,
-- of `stop` and of what the task waits for together, and as long as the task has not finished one of
-- them is a move of its own or of `stop`, whatever the system and the timer do. So the task
-- finishes, and `AcceptControl::wait` returns.
pub stop_ends :
    (os : Platform) (aborted : ErrorCode) (bound m n : ℕ) (t u : Task)
    → Steps os aborted (begin bound) m t
    → is_stopping t.stage ≡ true
    → Steps os aborted t n u
    → (n ≤ 6) × ((u.pc ≡ finished) ⊎ ((w : Task) × Move os aborted u w))
stop_ends os aborted bound m n t u r s later =
    let v : IsSettled u = Steps-IsSettled os aborted (Steps-IsSettled os aborted refl r) later in
    let (fell, s') = Steps-fall os aborted s later in
    (omega (arith, fell, at_most t.pc t.stage s), pc_moves_on os aborted u u.pc refl s' v)
  where
    at_most : (p : Pc) (g : Stage) → is_stopping g ≡ true → pc_moves p + stop_moves g ≤ 6
    at_most p g h = ground arith
