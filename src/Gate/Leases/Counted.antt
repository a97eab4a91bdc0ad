-- ===== src/Gate/Leases/Counted.antt =====
-- A gate counts the leases that name it, whatever is done with lease variables.
use reactor.Prelude.{
  ℕ, ◌+◌, ◌-◌, ◌^◌, ◌≤◌, ◌<◌, ◌≡◌, ◌⊎◌, List, [], ◌∷◌, Bool, true, false, none, some, arith,
  if◌then◌else◌, get_elem?, set, total-set, Option-cases, ◌∙◌, inl, inr, false≢true, refl, ap, zero,
  suc, u64, ◌&&◌, get-lt, get_elem?-set_self,
}
use reactor.Gate.{Gate}
use reactor.Gate.Single.{try_enter, leave}
use reactor.Gate.Leases.{
  Lease, World, update, reset, reset_at, take, assign, move_assign, enter_into, Op, enters, moves,
  resets, has_var, step, run, holds, held,
}

-- Gate `a` has a positive limit, and counts exactly the leases that name it, within the limit; `l` is
-- the lease in a temporary.
record Counts (w : World) (l : Lease) (a : ℕ) : Type 0 where
  positive : 0 < (w.gate a).limit
  size : (w.gate a).limit < 2 ^ 31
  inflight : (w.gate a).inflight ≡ held w a + holds a l
  within : (w.gate a).inflight ≤ (w.gate a).limit

-- What `try_enter` does below the limit and at it.
try_enter-cases :
    (g : Gate)
    → 0 < g.limit
    → g.limit < 2 ^ 31
    → g.inflight ≤ g.limit
    → ((g.inflight < g.limit) × (try_enter g ≡ (record g { inflight = g.inflight + 1 }, true)))
      ⊎ ((g.inflight ≡ g.limit)
          × (try_enter g ≡ (record g { rejected = u64 (g.rejected + 1) }, false)))
unfolding try_enter
try_enter-cases g positive size within = ground arith

leave-cases :
    (g : Gate)
    → g.inflight < 2 ^ 31
    → 0 < g.inflight
    → leave g ≡ record g { inflight = g.inflight - 1 }
unfolding leave
leave-cases g size some_in = ground arith

reset_at-Counts :
    (w : World) (i a : ℕ) (l old : Lease)
    → get_elem? w.leases i ≡ some old
    → Counts w l a
    → Counts (reset_at w i) l a
unfolding reset_at reset
reset_at-Counts w i a l none e v = ground (arith, total-set (holds a) w.leases i none none e)
reset_at-Counts w i a l (some b) e v =
    ground (arith, total-set (holds a) w.leases i (some b) none e, leave-cases (w.gate a))

leases-reset_at :
    (w : World) (i : ℕ) (old : Lease)
    → get_elem? w.leases i ≡ some old
    → (reset_at w i).leases ≡ set w.leases i none
unfolding reset_at
leases-reset_at w i old e = rw (reset_at, e) refl

empty-reset_at :
    (w : World) (i : ℕ) (old : Lease)
    → get_elem? w.leases i ≡ some old
    → get_elem? (reset_at w i).leases i ≡ some none
empty-reset_at w i old e =
    ap (λ ls. get_elem? ls i) (leases-reset_at w i old e)
    ∙ get_elem?-set_self w.leases i none (get-lt w.leases i e)

-- Variables that exist, and empty ones, stay so when another is emptied.
get-set-none :
    (ls : List Lease) (i j : ℕ) (l : Lease)
    → get_elem? ls j ≡ some l
    → (k : Lease) × (get_elem? (set ls i none) j ≡ some k)
get-set-none [] i j l e = ground arith
get-set-none (x ∷ ls) zero zero l e = (none, refl)
get-set-none (x ∷ ls) zero (suc j) l e = (l, e)
get-set-none (x ∷ ls) (suc i) zero l e = (l, e)
get-set-none (x ∷ ls) (suc i) (suc j) l e = get-set-none ls i j l e

none-set-none :
    (ls : List Lease) (i j : ℕ)
    → get_elem? ls i ≡ some none
    → get_elem? (set ls j none) i ≡ some none
none-set-none [] i j e = e
none-set-none (x ∷ ls) zero zero e = refl
none-set-none (x ∷ ls) zero (suc j) e = e
none-set-none (x ∷ ls) (suc i) zero e = e
none-set-none (x ∷ ls) (suc i) (suc j) e = none-set-none ls i j e

assign-Counts :
    (w : World) (i a : ℕ) (l : Lease)
    → get_elem? w.leases i ≡ some none
    → Counts w l a
    → Counts (assign w i l) none a
assign-Counts w i a l e v = ground (arith, total-set (holds a) w.leases i none l e)

-- A move: the variable is reset, the other one's lease taken, and put into it.
take-Counts :
    (w : World) (i j a : ℕ) (l : Lease)
    → get_elem? w.leases i ≡ some none
    → get_elem? w.leases j ≡ some l
    → Counts w none a
    → Counts (assign (take w j).1 i (take w j).0) none a
take-Counts w i j a l e f v =
    rw (take, f)
      (assign-Counts (record w { leases = set w.leases j none }) i a l
        (none-set-none w.leases i j e) (ground (arith, total-set (holds a) w.leases j l none f)))

move_assign-Counts :
    (w : World) (i j a : ℕ) (old l : Lease)
    → get_elem? w.leases i ≡ some old
    → get_elem? w.leases j ≡ some l
    → Counts w none a
    → Counts (move_assign w i j) none a
unfolding move_assign
move_assign-Counts w i j a old l e f v =
    let (k, g) = get-set-none w.leases i j l f in
    take-Counts (reset_at w i) i j a k (empty-reset_at w i old e)
      (ap (λ ls. get_elem? ls j) (leases-reset_at w i old e) ∙ g)
      (reset_at-Counts w i a none old e v)

-- `try_enter` leaves an admission in a temporary.
try_enter-Counts :
    (w : World) (a b : ℕ)
    → Counts w none a
    → Counts w none b
    → let (g, admitted) = try_enter (w.gate a) in
      Counts (record w { gate = update w.gate a g }) (if admitted then some a else none) b
try_enter-Counts w a b u v = elim (try_enter-cases (w.gate a) u.positive u.size u.within) [
  | inl (room, e) ↦ rw e (ground arith)
  | inr (full, e) ↦ rw e (ground arith)
]

enter_into-Counts :
    (w : World) (a i b : ℕ) (old : Lease)
    → get_elem? w.leases i ≡ some old
    → Counts w none a
    → Counts w none b
    → Counts (enter_into w a i) none b
unfolding enter_into
enter_into-Counts w a i b old e u v =
    let (g, admitted) = try_enter (w.gate a) in
    let l : Lease = if admitted then some a else none in
    let w' : World = record w { gate = update w.gate a g } in
    assign-Counts (reset_at w' i) i b l (empty-reset_at w' i old e)
      (reset_at-Counts w' i b l old e (try_enter-Counts w a b u v))

-- A guarded operation keeps what it keeps when its variables exist.
guarded :
    (w u : World) (go : Bool) (a : ℕ)
    → Counts w none a
    → (go ≡ true → Counts u none a)
    → Counts (if go then u else w) none a
guarded w u true a v f = f refl
guarded w u false a v f = v

has_var-some :
    (w : World) (i : ℕ) → has_var w i ≡ true → (l : Lease) × (get_elem? w.leases i ≡ some l)
has_var-some w i h = elim (Option-cases (get_elem? w.leases i)) [
  | inl e ↦ absurd (false≢true (rw (has_var, e) at h))
  | inr (l, e) ↦ (l, e)
]

step-Counts :
    (w : World) (o : Op) → ((a : ℕ) → Counts w none a) → (a : ℕ) → Counts (step w o) none a
unfolding step
step-Counts w (enters a i) v b =
    guarded w _ (has_var w i) b (v b)
      (λ h. let (old, e) = has_var-some w i h in enter_into-Counts w a i b old e (v a) (v b))
step-Counts w (moves i j) v b = guarded w _ (has_var w i && has_var w j) b (v b) (λ h.
    let (old, e) = has_var-some w i (ground (arith, h)) in
    let (l, f) = has_var-some w j (ground (arith, h)) in move_assign-Counts w i j b old l e f (v b))
step-Counts w (resets i) v b =
    guarded w _ (has_var w i) b (v b)
      (λ h. let (old, e) = has_var-some w i h in reset_at-Counts w i b none old e (v b))

-- Gate `a` has a positive limit, and counts exactly the leases that name it, within the limit.
pub record IsCounted (w : World) (a : ℕ) : Type 0 where
  pub positive : 0 < (w.gate a).limit
  pub size : (w.gate a).limit < 2 ^ 31
  pub inflight : (w.gate a).inflight ≡ held w a
  pub within : held w a ≤ (w.gate a).limit

run-Counts :
    (w : World) (os : List Op) → ((a : ℕ) → Counts w none a) → (a : ℕ) → Counts (run w os) none a
unfolding run
run-Counts w [] v = v
run-Counts w (o ∷ os) v = run-Counts (step w o) os (step-Counts w o v)

-- Whatever a program does with its leases (entering, moving one over another or over itself,
-- resetting), every gate whose limit is a positive `int` keeps counting exactly the leases that name
-- it, and these are never more than its limit.
pub run-IsCounted :
    (w : World) (os : List Op) → ((a : ℕ) → IsCounted w a) → (a : ℕ) → IsCounted (run w os) a
run-IsCounted w os v a =
    let counts : (b : ℕ) → Counts w none b = λ b. let v' = v b in ground arith in
    let u = run-Counts w os counts a in ground arith
