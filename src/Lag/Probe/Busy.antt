-- ===== src/Lag/Probe/Busy.antt =====
-- The two intervals of `LagProbe`, and what stops it.
use reactor.Prelude.{
  ℕ, ◌+◌, ◌≤◌, ◌<◌, ◌≡◌, ◌≢◌, refl, ◌∙◌, List, [], ◌∷◌, true, false, arith, length,
}
use reactor.Lag.Probe.{
  Probe, Event, starts, stops, notes, fires, step, run, stop, fire, busy_window, busy_interval,
}

-- The clock does not run backwards: no wake reads a time before `t`.
abbrev pub From : ℕ → List Event → Type 0
From t [] = Unit
From t (starts now ∷ es) = From t es
From t (stops ∷ es) = From t es
From t (notes ∷ es) = From t es
From t (fires error now again ∷ es) = (t ≤ now) × From t es

-- The timer ends a wait, without an error, on a probe that runs.
pub record IsLive (p : Probe) : Type 0 where
  pub waiting : 0 < length p.waits
  pub running : p.stopped ≡ false

step-busy :
    (t : ℕ) (p : Probe) (e : Event)
    → From t (e ∷ [])
    → t + busy_window ≤ p.busy_until
    → t + busy_window ≤ (step p e).busy_until
unfolding step
step-busy t p (starts now) f h = ground arith
step-busy t p stops f h = ground arith
step-busy t p notes f h = ground arith
step-busy t p (fires error now again) f h = ground arith

run-busy :
    (t : ℕ) (p : Probe) (es : List Event)
    → From t es
    → t + busy_window ≤ p.busy_until
    → t + busy_window ≤ (run p es).busy_until
unfolding run
run-busy t p [] f h = h
run-busy t p (starts now ∷ es) f h =
    run-busy t (step p (starts now)) es f (step-busy t p (starts now) tt h)
run-busy t p (stops ∷ es) f h = run-busy t (step p stops) es f (step-busy t p stops tt h)
run-busy t p (notes ∷ es) f h = run-busy t (step p notes) es f (step-busy t p notes tt h)
run-busy t p (fires error now again ∷ es) f h =
    run-busy t (step p (fires error now again)) es f.1
      (step-busy t p (fires error now again) (f.0, tt) h)

seen-busy :
    (p : Probe) (t again : ℕ)
    → IsLive p
    → p.activity ≢ p.last_activity
    → t + busy_window ≤ (fire false t again p).busy_until
unfolding fire
seen-busy p t again l n = ground arith

busy-fire :
    (p : Probe) (now again : ℕ)
    → IsLive p
    → now < p.busy_until
    → (fire false now again p).due ≡ again + busy_interval
unfolding fire
busy-fire p now again l h = ground arith

-- Activity keeps the probe busy for a second: when a wake at `t` sees activity that the last one
-- did not, then, whatever happens after it, each wake before `t` plus a second is followed by one
-- a millisecond later.
pub busy_for_a_second :
    (p : Probe) (es : List Event) (t again now later : ℕ)
    → IsLive p
    → p.activity ≢ p.last_activity
    → From t es
    → IsLive (run (fire false t again p) es)
    → now < t + busy_window
    → (fire false now later (run (fire false t again p) es)).due ≡ later + busy_interval
busy_for_a_second p es t again now later l n f l' h =
    busy-fire _ now later l'
      (omega (arith, run-busy t (fire false t again p) es f (seen-busy p t again l n)))

-- A probe that has been stopped after its start.
pub record IsStopped (p : Probe) : Type 0 where
  pub started : p.started ≡ true
  pub stopped : p.stopped ≡ true

step-IsStopped :
    (p : Probe) (e : Event)
    → IsStopped p
    → IsStopped (step p e)
      × ((step p e).counters ≡ p.counters)
      × ((step p e).due ≡ p.due)
      × (length (step p e).waits ≤ length p.waits)
unfolding step
step-IsStopped p (starts now) h = ground arith
step-IsStopped p stops h = ground arith
step-IsStopped p notes h = ground arith
step-IsStopped p (fires error now again) h = ground arith

run-IsStopped :
    (p : Probe) (es : List Event)
    → IsStopped p
    → IsStopped (run p es)
      × ((run p es).counters ≡ p.counters)
      × ((run p es).due ≡ p.due)
      × (length (run p es).waits ≤ length p.waits)
unfolding run
run-IsStopped p [] h = (h, refl, refl, omega arith)
run-IsStopped p (e ∷ es) h =
    let (stays, counters, due, waits) = step-IsStopped p e h in
    let (stays', counters', due', waits') = run-IsStopped (step p e) es stays in
    (stays', counters' ∙ counters, due' ∙ due, omega arith)

stop-IsStopped :
    (p : Probe)
    → p.started ≡ true
    → IsStopped (stop p)
      × ((stop p).counters ≡ p.counters)
      × ((stop p).due ≡ p.due)
      × (length (stop p).waits ≡ length p.waits)
unfolding stop
stop-IsStopped p h = ground arith

-- `stop` on a probe that has started is for good: whatever is called on the probe afterwards, its
-- counters stay as they are, and its timer is never armed again.
pub run-stop :
    (p : Probe) (es : List Event)
    → p.started ≡ true
    → let q = run (stop p) es in
      IsStopped q × (q.counters ≡ p.counters) × (q.due ≡ p.due) × (length q.waits ≤ length p.waits)
run-stop p es h =
    let (stopped, counters, due, waits) = stop-IsStopped p h in
    let (stays, counters', due', waits') = run-IsStopped (stop p) es stopped in
    (stays, counters' ∙ counters, due' ∙ due, omega arith)
