-- ===== src/Events/Timer/Once.antt =====
-- Which callbacks a `PeriodicTimer` calls.
use reactor.Prelude.{
  ℕ, zero, suc, ◌+◌, ◌^◌, ◌≤◌, ◌<◌, ◌≡◌, inl, inr, refl, Bool, true, false, not, ◌||◌, List, [],
  ◌∷◌, some, arith, if◌then◌else◌, ◌==◌, ltb, u64, All, All-mono, get_elem?, total, length,
  Option-cases, Bool-cases,
}
use reactor.Events.Timer.{
  Timer, fresh, cancel, arm, again, drop_at, handle, fire, Event, starts, agains, stops, fires,
  step, run,
}

-- The items of `xs` that are `g`, counted.
abbrev pub is_now : ℕ → ℕ → ℕ
is_now g w = if w == g then 1 else 0

abbrev pub live : Timer → ℕ
live t = total (is_now t.generation) t.waits

-- Greatest first, and no item twice.
abbrev pub IsDecreasing : List ℕ → Type 0
IsDecreasing [] = Unit
IsDecreasing (x ∷ xs) = All (λ y. y < x) xs × IsDecreasing xs

pub record Inv (t : Timer) : Type 0 where
  pub waits : All (λ w. w ≤ t.generation) t.waits
  pub single : live t ≤ 1
  pub called : All (λ c. c + live t ≤ t.generation) t.called
  pub ordered : IsDecreasing t.called

none_now : (g : ℕ) (ws : List ℕ) → All (λ w. w ≤ g) ws → total (is_now (g + 1)) ws ≡ 0
none_now g [] h = refl
none_now g (w ∷ ws) h = ground (arith, none_now g ws h.1)

pub All-drop : (P : ℕ → Type 0) (i : ℕ) (xs : List ℕ) → All P xs → All P (drop_at i xs)
All-drop P i [] h = tt
All-drop P zero (x ∷ xs) h = h.1
All-drop P (suc i) (x ∷ xs) h = (h.0, All-drop P i xs h.1)

total-drop :
    (g i a : ℕ) (xs : List ℕ)
    → get_elem? xs i ≡ some a
    → total (is_now g) xs ≡ is_now g a + total (is_now g) (drop_at i xs)
total-drop g i a [] h = cc
total-drop g zero a (x ∷ xs) h = ground arith
total-drop g (suc i) a (x ∷ xs) h = omega (arith, total-drop g i a xs h)

cancel-Inv : (t : Timer) → t.generation + 1 < 2 ^ 64 → Inv t → Inv (cancel t)
unfolding cancel
cancel-Inv t small v =
    let e : u64 (t.generation + 1) ≡ t.generation + 1 = omega arith in
    let z : total (is_now (t.generation + 1)) t.waits ≡ 0 = none_now t.generation t.waits v.waits in
    rw e (record {
      waits = All-mono _ _ t.waits (λ w h. omega arith) v.waits;
      single = omega (arith, z);
      called = All-mono _ _ t.called (λ c h. omega (arith, z)) v.called;
      ordered = v.ordered;
    })

arm-Inv : (t : Timer) → t.generation + 1 < 2 ^ 64 → Inv t → Inv (arm t)
unfolding arm
arm-Inv t small v =
    let e : u64 (t.generation + 1) ≡ t.generation + 1 = omega arith in
    let z : total (is_now (t.generation + 1)) t.waits ≡ 0 = none_now t.generation t.waits v.waits in
    rw e (record {
      waits = (omega arith, All-mono _ _ t.waits (λ w h. omega arith) v.waits);
      single = ground (arith, z);
      called = All-mono _ _ t.called (λ c h. ground (arith, z)) v.called;
      ordered = v.ordered;
    })

-- A wait that is not the current one, or that failed, is dropped.
drop-Inv :
    (t : Timer) (i a : ℕ)
    → get_elem? t.waits i ≡ some a
    → Inv t
    → Inv (record t { waits = drop_at i t.waits })
drop-Inv t i a e v =
    let d = total-drop t.generation i a t.waits e in
    record {
      waits = All-drop _ i t.waits v.waits;
      single = omega (arith, d, v.single);
      called = All-mono _ _ t.called (λ c h. omega (arith, d, h)) v.called;
      ordered = v.ordered;
    }

-- The current wait is dropped, and its callback called.
call-Inv :
    (t : Timer) (i a : ℕ)
    → get_elem? t.waits i ≡ some a
    → a ≡ t.generation
    → Inv t
    → Inv (record t { waits = drop_at i t.waits; called = a ∷ t.called })
call-Inv t i a e now v =
    let d = total-drop t.generation i a t.waits e in
    let one : is_now t.generation a ≡ 1 = ground arith in
    record {
      waits = All-drop _ i t.waits v.waits;
      single = omega (arith, d, v.single);
      called = (
        omega (arith, d, one, v.single),
        All-mono _ _ t.called (λ c h. omega (arith, d, h)) v.called,
      );
      ordered = (All-mono _ _ t.called (λ c h. omega (arith, d, one, h)) v.called, v.ordered);
    }

rearm-Inv :
    (b : Bool) (t : Timer) → t.generation + 1 < 2 ^ 64 → Inv t → Inv (if b then arm t else t)
rearm-Inv true t small v = arm-Inv t small v
rearm-Inv false t small v = v

again-Inv :
    (b : Bool) (t : Timer) → t.generation + 1 < 2 ^ 64 → Inv t → Inv (if b then arm t else cancel t)
again-Inv true t small v = arm-Inv t small v
again-Inv false t small v = cancel-Inv t small v

handle-now :
    (error has_callback : Bool) (repeat a : ℕ) (t : Timer)
    → (error || not (a == t.generation)) ≡ false
    → handle error has_callback repeat a t ≡ (
        let t' : Timer = if has_callback then record t { called = a ∷ t.called } else t in
        if ltb 0 repeat then arm t' else t')
unfolding handle
handle-now true has_callback repeat a t h = cc
handle-now false true repeat a t h = ground arith
handle-now false false repeat a t h = ground arith

pub handle-stale :
    (error has_callback : Bool) (repeat a : ℕ) (t : Timer)
    → (error || not (a == t.generation)) ≡ true
    → handle error has_callback repeat a t ≡ t
unfolding handle
handle-stale error has_callback repeat a t h = ground arith

handle-Inv :
    (t : Timer) (i a : ℕ) (error has_callback : Bool) (repeat : ℕ)
    → get_elem? t.waits i ≡ some a
    → t.generation + 1 < 2 ^ 64
    → Inv t
    → Inv (handle error has_callback repeat a (record t { waits = drop_at i t.waits }))
handle-Inv t i a error has_callback repeat e small v =
    elim (Bool-cases (error || not (a == t.generation))) [
      | inl stale ↦
          rw
            (handle-stale error has_callback repeat a (record t { waits = drop_at i t.waits })
              stale)
            (drop-Inv t i a e v)
      | inr now ↦
          rw (handle-now error has_callback repeat a (record t { waits = drop_at i t.waits }) now) (
            rearm-Inv (ltb 0 repeat) _ (later has_callback)
              (called has_callback (ground (arith, now))))
    ]
  where
    after : Bool → Timer
    after b =
        if b
        then record t { waits = drop_at i t.waits; called = a ∷ t.called }
        else record t { waits = drop_at i t.waits }

    later : (b : Bool) → (after b).generation + 1 < 2 ^ 64
    later true = small
    later false = small

    called : (b : Bool) → a ≡ t.generation → Inv (after b)
    called true same = call-Inv t i a e same v
    called false same = drop-Inv t i a e v

fire-Inv :
    (t : Timer) (i : ℕ) (error has_callback : Bool) (repeat : ℕ)
    → t.generation + 1 < 2 ^ 64
    → Inv t
    → Inv (fire i error has_callback repeat t)
unfolding fire
fire-Inv t i error has_callback repeat small v = elim (Option-cases (get_elem? t.waits i)) [
  | inl e ↦ rw (fire, e) v
  | inr (a, e) ↦ rw (fire, e) (handle-Inv t i a error has_callback repeat e small v)
]

step-Inv : (t : Timer) (e : Event) → t.generation + 1 < 2 ^ 64 → Inv t → Inv (step t e)
unfolding step again
step-Inv t starts small v = arm-Inv t small v
step-Inv t (agains r) small v = again-Inv (ltb 0 r) t small v
step-Inv t stops small v = cancel-Inv t small v
step-Inv t (fires i error has_callback repeat) small v =
    fire-Inv t i error has_callback repeat small v

pub step-generation : (t : Timer) (e : Event) → (step t e).generation ≤ t.generation + 1
unfolding step again arm cancel fire handle
step-generation t starts = omega arith
step-generation t (agains r) = ground arith
step-generation t stops = omega arith
step-generation t (fires i error has_callback repeat) = ground arith

pub run-Inv :
    (t : Timer) (es : List Event) → t.generation + length es < 2 ^ 64 → Inv t → Inv (run t es)
unfolding run
run-Inv t [] small v = v
run-Inv t (e ∷ es) small v =
    run-Inv (step t e) es (omega (arith, step-generation t e)) (step-Inv t e (omega arith) v)

pub fresh-Inv : Inv fresh
fresh-Inv = record { waits = tt; single = omega arith; called = tt; ordered = tt }

-- Whatever is posted to a timer and however its waits complete, with fewer than `2 ^ 64` handlers: the
-- callback is called at most once for each arming of the timer, and at most one pending wait is one
-- that can still call it.
pub run_once :
    (es : List Event)
    → length es < 2 ^ 64
    → IsDecreasing (run fresh es).called × (live (run fresh es) ≤ 1)
run_once es small = (v.ordered, v.single)
  where
    v : Inv (run fresh es)
    v = run-Inv fresh es (omega arith) fresh-Inv
