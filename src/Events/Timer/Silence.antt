-- ===== src/Events/Timer/Silence.antt =====
-- A stopped `PeriodicTimer` stays silent until it is armed again.
use reactor.Prelude.{
  ℕ, ◌+◌, ◌^◌, ◌≤◌, ◌<◌, ◌≡◌, inl, inr, refl, ◌∙◌, ap, Bool, List, [], ◌∷◌, ◌++◌, arith, All,
  All-mono, All-get, get_elem?, length, Option-cases,
}
use reactor.Events.Timer.{
  Timer, fresh, cancel, again, drop_at, fire, Event, starts, agains, stops, fires, step, run,
}
use reactor.Events.Timer.Once.{All-drop, handle-stale, step-generation, run-Inv, fresh-Inv}

-- What does not arm the timer: no `start`, and no `again` with a positive interval.
abbrev pub IsQuiet : Event → Type 0
IsQuiet starts = ⊥
IsQuiet (agains repeat) = repeat ≡ 0
IsQuiet _ = Unit

-- No pending wait is of the present generation.
abbrev IsStale : Timer → Type 0
IsStale t = All (λ w. w < t.generation) t.waits

cancel-IsStale :
    (t : Timer)
    → t.generation + 1 < 2 ^ 64
    → All (λ w. w ≤ t.generation) t.waits
    → IsStale (cancel t)
unfolding cancel
cancel-IsStale t small h = All-mono _ _ t.waits (λ w l. omega arith) h

cancel-called : (t : Timer) → (cancel t).called ≡ t.called
unfolding cancel
cancel-called t = refl

-- What a quiet event leaves.
record Kept (t t' : Timer) : Type 0 where
  stale : IsStale t'
  called : t'.called ≡ t.called

cancel-Kept : (t : Timer) → t.generation + 1 < 2 ^ 64 → IsStale t → Kept t (cancel t)
cancel-Kept t small h = record {
  stale = cancel-IsStale t small (All-mono _ _ t.waits (λ w l. omega arith) h);
  called = cancel-called t;
}

fire-Kept :
    (t : Timer) (i : ℕ) (error has_callback : Bool) (repeat : ℕ)
    → IsStale t
    → Kept t (fire i error has_callback repeat t)
unfolding fire
fire-Kept t i error has_callback repeat h = elim (Option-cases (get_elem? t.waits i)) [
  | inl e ↦ rw (fire, e) (record { stale = h; called = refl })
  | inr (a, e) ↦
      let late : a < t.generation = All-get _ t.waits i a h e in
      rw
        (
          fire,
          e,
          handle-stale error has_callback repeat a (record t { waits = drop_at i t.waits })
              (ground (arith, late)),
        )
        (record { stale = All-drop _ i t.waits h; called = refl })
]

step-Kept :
    (t : Timer) (e : Event) → t.generation + 1 < 2 ^ 64 → IsQuiet e → IsStale t → Kept t (step t e)
unfolding step again
step-Kept t starts small q h = absurd q
step-Kept t (agains r) small q h = rw q (cancel-Kept t small h)
step-Kept t stops small q h = cancel-Kept t small h
step-Kept t (fires i error has_callback repeat) small q h =
    fire-Kept t i error has_callback repeat h

run-called :
    (t : Timer) (es : List Event)
    → t.generation + length es < 2 ^ 64
    → All IsQuiet es
    → IsStale t
    → (run t es).called ≡ t.called
unfolding run
run-called t [] small q h = refl
run-called t (e ∷ es) small q h =
    let k = step-Kept t e (omega arith) q.0 h in
    run-called (step t e) es (omega (arith, step-generation t e)) q.1 k.stale ∙ k.called

run-append : (t : Timer) (es fs : List Event) → run t (es ++ fs) ≡ run (run t es) fs
unfolding run
run-append t [] fs = refl
run-append t (e ∷ es) fs = run-append (step t e) es fs

run-generation : (t : Timer) (es : List Event) → (run t es).generation ≤ t.generation + length es
unfolding run
run-generation t [] = omega arith
run-generation t (e ∷ es) = omega (arith, step-generation t e, run-generation (step t e) es)

generation-cancel : (t : Timer) → (cancel t).generation ≤ t.generation + 1
unfolding cancel
generation-cancel t = omega arith

stops-cancel : (t : Timer) (es : List Event) → run t (stops ∷ es) ≡ run (cancel t) es
unfolding run step
stops-cancel t es = refl

-- Once a timer's `stop` has been handled, no callback is called until a `start` or an `again` with a
-- positive interval is handled, whichever of the waits that were pending complete and however, with
-- fewer than `2 ^ 64` handlers.
pub stop_silences :
    (before after : List Event)
    → length before + length after + 1 < 2 ^ 64
    → All IsQuiet after
    → (run fresh (before ++ (stops ∷ after))).called ≡ (run fresh before).called
stop_silences before after small quiet =
    let t = run fresh before in
    let g = run-generation fresh before in
    let v = run-Inv fresh before (omega arith) fresh-Inv in
    ap (λ (u : Timer). u.called) (run-append fresh before (stops ∷ after) ∙ stops-cancel t after)
    ∙ (run-called (cancel t) after (omega (arith, g, generation-cancel t)) quiet
          (cancel-IsStale t (omega (arith, g)) v.waits)
        ∙ cancel-called t)
