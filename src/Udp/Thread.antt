-- ===== src/Udp/Thread.antt =====
-- reactor_udp.h: the thread of `UdpServer`, which runs the loop again after an exception.
use reactor.Prelude.{ℕ, ◌+◌, ◌-◌, ◌^◌, ◌<◌, ◌≡◌, ◌⊎◌, Bool, true, false, List, [], ◌∷◌, arith, All}
use reactor.RunScope.{enter_scope, leave_scope}

-- `depth` is the thread's `run_depth`, `reports` counts the exceptions that were reported, and `loops`
-- the claims on the reactor's loop.
pub record Thread : Type 0 where
  pub depth : ℕ
  pub reports : ℕ
  pub loops : ℕ

-- What a pass of the thread's `while` meets: a stopped loop, or a `run` that returns or throws.
pub data Pass : Type 0 where
  stopped returns throws : Pass

-- `Reactor::run`, whose scope is left also when the loop throws.
abbrev pub run : Thread → Thread
run t = record t { depth = leave_scope (enter_scope t.depth) }

-- `release_loop`
abbrev pub release : Thread → Thread
release t = record t { loops = t.loops - 1 }

-- The thread, with whether it has ended.
pub thread : List Pass → Thread → Thread × Bool
thread [] t = (t, false)
thread (stopped ∷ ps) t = (release t, true)
thread (returns ∷ ps) t = (release (run t), true)
thread (throws ∷ ps) t =
    let t' : Thread = run t in thread ps (record t' { reports = t'.reports + 1 })

-- The exceptions before the thread's end.
abbrev pub thrown : List Pass → ℕ
thrown (throws ∷ ps) = thrown ps + 1
thrown _ = 0

abbrev pub IsThrow : Pass → Type 0
IsThrow throws = Unit
IsThrow _ = ⊥

-- The thread goes on after every exception and reports it; it ends at the first `run` that returns or
-- stopped loop that it meets, and has released its claim then, and never before; and its `run_depth`
-- is what it was.
pub thread_lem :
    (ps : List Pass) (t : Thread)
    → t.depth + 1 < 2 ^ 32
    → let (t', ended) = thread ps t in
      (t'.depth ≡ t.depth)
      × (t'.reports ≡ t.reports + thrown ps)
      × (((ended ≡ true) × (t'.loops ≡ t.loops - 1))
          ⊎ ((ended ≡ false) × (t'.loops ≡ t.loops) × All IsThrow ps))
unfolding thread
thread_lem [] t small = ground arith
thread_lem (stopped ∷ ps) t small = ground arith
thread_lem (returns ∷ ps) t small = ground arith
thread_lem (throws ∷ ps) t small =
    let t' : Thread = record (run t) { reports = t.reports + 1 } in
    ground (arith, thread_lem ps t' (omega arith))
