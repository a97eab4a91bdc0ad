-- ===== src/Shutdown/Walk.antt =====
-- A walk of shutdown ends, and reaches every node that is tracked when it is over.
use reactor.Prelude.{
  ℕ, zero, suc, ◌<◌, ◌≤◌, ◌≡◌, ◌≢◌, sym, subst, ◌∙◌, true, false, List, [], ◌∷◌, ◌++◌, arith, ◌==◌,
  ==_iff, some, Option, Bool-cases, inl, inr, length, All, All-mono, All-append, ◌⊎◌, if◌then◌else◌,
  refl,
}
use reactor.AbortList.{add}
use reactor.AbortList.Links.{erase}
use reactor.AbortList.Ops.{Holds, add-Holds}
use reactor.AbortList.Removal.{eq_of_ne, remove-Holds}
use reactor.AbortList.Each.{advance-Holds}
use reactor.Shutdown.{
  Hook, abort, force, Reactor, call, Deeds, nothing, tracks_then, untracks_then, aborts_again_then,
  track_with, is_taken, delist, perform_all, walk_loop,
}
use reactor.Shutdown.Hooks.{
  IsReachedBut, entered, entered-aborts, entered-keeps, entered-reaches, late_forced,
  late_forced-keeps, delist-keeps, visit, visit-reaches, visit-keeps,
}

All-erase : (P : ℕ → Type 0) (a : ℕ) (xs : List ℕ) → All P xs → All P (erase a xs)
All-erase P a [] h = tt
All-erase P a (x ∷ xs) h = elim (Bool-cases (a == x)) [
  | inl same ↦ rw same (All-erase P a xs h.1)
  | inr other ↦ rw other (h.0, All-erase P a xs h.1)
]

abbrev pub other : Hook → Hook
other abort = force
other force = abort

-- What holds of the reactor while its list is `done ++ rest` and a walk over `h` stands before `rest`.
pub record Walked (late : List ℕ) (h : Hook) (r : Reactor) (done rest : List ℕ) : Type 0 where
  pub list : Holds r.aborts done rest
  pub aborted : IsReachedBut late abort r done
  pub forced : IsReachedBut late force r done
  pub others : IsReachedBut late (other h) r rest

-- What a function of the reactor leaves of a walk.
abbrev pub Keeps : (Reactor → Reactor) → Type 0
Keeps g =
    (late : List ℕ) (h : Hook) (r : Reactor) (done rest : List ℕ)
    → Walked late h r done rest
    → (done' : List ℕ) × (rest' : List ℕ) × Walked late h (g r) done' rest'
      × (length rest' ≤ length rest)

entered-Walked :
    (late : List ℕ) (h : Hook) (r : Reactor) (a : ℕ) (done rest : List ℕ)
    → Walked late h r done rest
    → a ≢ 0
    → (r.aborts.heap a).list ≡ 0
    → Walked (a ∷ late) h (entered a r) (a ∷ done) rest
entered-Walked late h r a done rest v ne free = record {
  list =
      subst (λ l. Holds l (a ∷ done) rest) (sym (entered-aborts a r))
        (add-Holds a r.aborts done rest v.list ne free);
  aborted =
      (entered-reaches late abort a r, All-mono _ _ done (entered-keeps late abort a r) v.aborted);
  forced =
      (entered-reaches late force a r, All-mono _ _ done (entered-keeps late force a r) v.forced);
  others = All-mono _ _ rest (entered-keeps late (other h) a r) v.others;
}

late_forced-aborts : (a : ℕ) (r : Reactor) → (late_forced a r).aborts ≡ r.aborts
late_forced-aborts a r = ground arith

late_forced-Walked :
    (late : List ℕ) (h : Hook) (r : Reactor) (a : ℕ) (done rest : List ℕ)
    → Walked (a ∷ late) h r done rest
    → Walked late h (late_forced a r) done rest
late_forced-Walked late h r a done rest v = record {
  list = subst (λ l. Holds l done rest) (sym (late_forced-aborts a r)) v.list;
  aborted = All-mono _ _ done (late_forced-keeps late abort a r) v.aborted;
  forced = All-mono _ _ done (late_forced-keeps late force a r) v.forced;
  others = All-mono _ _ rest (late_forced-keeps late (other h) a r) v.others;
}

pub delist-Walked :
    (late : List ℕ) (h : Hook) (r : Reactor) (a : ℕ) (done rest : List ℕ)
    → Walked late h r done rest
    → Walked late h (delist a r) (erase a done) (erase a rest)
unfolding delist
delist-Walked late h r a done rest v = record {
  list = remove-Holds a r.aborts done rest v.list;
  aborted = All-erase _ a done (All-mono _ _ done (delist-keeps late abort r a) v.aborted);
  forced = All-erase _ a done (All-mono _ _ done (delist-keeps late force r a) v.forced);
  others = All-erase _ a rest (All-mono _ _ rest (delist-keeps late (other h) r a) v.others);
}

length-erase : (a : ℕ) (xs : List ℕ) → length (erase a xs) ≤ length xs
length-erase a [] = omega arith
length-erase a (x ∷ xs) = ground (arith, length-erase a xs)

-- `track` runs the late `abort` only once the walk of `abort_all` has begun, and so on.
late_abort_cases :
    (on_abort : Reactor → Reactor) (a : ℕ) (r : Reactor)
    → let added : Reactor = record r { aborts = add a r.aborts } in
      let late : Reactor = if added.walked then on_abort (call abort a added) else added in
      (late ≡ on_abort (entered a r)) ⊎ (late ≡ entered a r)
late_abort_cases on_abort a r = elim (Bool-cases r.walked) [
  | inl on ↦ inl (rw on refl)
  | inr off ↦ inr (rw off refl)
]

late_force_cases :
    (on_force : Reactor → Reactor) (a : ℕ) (r : Reactor)
    → ((if r.forced then on_force (call force a r) else r) ≡ on_force (late_forced a r))
      ⊎ ((if r.forced then on_force (call force a r) else r) ≡ late_forced a r)
late_force_cases on_force a r = elim (Bool-cases r.forced) [
  | inl on ↦ inl (rw on refl)
  | inr off ↦ inr (rw off refl)
]

late_force-Walked :
    (on_force : Reactor → Reactor)
    → Keeps on_force
    → (a : ℕ) (late : List ℕ) (h : Hook) (r : Reactor) (done rest : List ℕ)
    → Walked (a ∷ late) h r done rest
    → (done' : List ℕ) × (rest' : List ℕ) × Walked late h
        (if r.forced then on_force (call force a r) else r)
        done'
        rest'
      × (length rest' ≤ length rest)
late_force-Walked on_force keeps a late h r done rest v =
    let w = late_forced-Walked late h r a done rest v in
    elim (late_force_cases on_force a r) [
      | inl called ↦
          let (done', rest', u, fewer) = keeps late h (late_forced a r) done rest w in
          (done', rest', subst (λ s. Walked late h s done' rest') (sym called) u, fewer)
      | inr not_yet ↦
          (done, rest, subst (λ s. Walked late h s done rest) (sym not_yet) w, omega arith)
    ]

pub track_with-Walked :
    (on_abort on_force : Reactor → Reactor)
    → Keeps on_abort
    → Keeps on_force
    → (a : ℕ) (late : List ℕ) (h : Hook) (r : Reactor) (done rest : List ℕ)
    → Walked late h r done rest
    → a ≢ 0
    → (r.aborts.heap a).list ≡ 0
    → (done' : List ℕ) × (rest' : List ℕ) × Walked late h
        (track_with on_abort on_force a r)
        done'
        rest'
      × (length rest' ≤ length rest)
unfolding track_with
track_with-Walked on_abort on_force ka kf a late h r done rest v ne free =
    let w = entered-Walked late h r a done rest v ne free in
    elim (late_abort_cases on_abort a r) [
      | inl called ↦
          let (done1, rest1, w1, fewer1) = ka (a ∷ late) h (entered a r) (a ∷ done) rest w in
          let w2 = subst (λ s. Walked (a ∷ late) h s done1 rest1) (sym called) w1 in
          let (done2, rest2, w3, fewer2) =
            late_force-Walked on_force kf a late h _ done1 rest1 w2 in
          (done2, rest2, w3, omega (arith, fewer1, fewer2))
      | inr not_yet ↦
          let w2 = subst (λ s. Walked (a ∷ late) h s (a ∷ done) rest) (sym not_yet) w in
          late_force-Walked on_force kf a late h _ (a ∷ done) rest w2
    ]

pub perform_all-Walked : (ds : Deeds) → Keeps (perform_all ds)
unfolding perform_all
perform_all-Walked nothing late h r done rest v = (done, rest, v, omega arith)
perform_all-Walked (tracks_then a la lf ds) late h r done rest v =
    elim (Bool-cases (is_taken a r)) [
      | inl refused ↦ rw refused (perform_all-Walked ds late h r done rest v)
      | inr free ↦
          let (done1, rest1, v1, fewer1) =
            track_with-Walked (perform_all la) (perform_all lf) (perform_all-Walked la)
              (perform_all-Walked lf) a late h r done rest v (ground (arith, free))
              (ground (arith, free)) in
          let (done2, rest2, v2, fewer2) = perform_all-Walked ds late h _ done1 rest1 v1 in
          rw free (done2, rest2, v2, omega (arith, fewer1, fewer2))
    ]
perform_all-Walked (untracks_then a ds) late h r done rest v =
    let (done', rest', v', fewer) =
      perform_all-Walked ds late h (delist a r) (erase a done) (erase a rest)
        (delist-Walked late h r a done rest v) in
    (done', rest', v', omega (arith, fewer, length-erase a rest))
perform_all-Walked (aborts_again_then ds) late h r done rest v =
    perform_all-Walked ds late h r done rest v

visit-Walked :
    (late : List ℕ) (h : Hook) (r : Reactor) (done : List ℕ) (x : ℕ) (rest : List ℕ)
    → Walked late h r done (x ∷ rest)
    → Walked late h (visit h r) (done ++ x ∷ []) rest
visit-Walked late abort r done x rest v = record {
  list = (advance-Holds r.aborts done x rest v.list).2;
  aborted =
      All-append _ done (x ∷ []) (All-mono _ _ done (visit-keeps late abort abort r) v.aborted)
        (visit-reaches late abort r x v.list.cursor, tt);
  forced =
      All-append _ done (x ∷ []) (All-mono _ _ done (visit-keeps late force abort r) v.forced)
        (v.others.0, tt);
  others = v.others.1;
}
visit-Walked late force r done x rest v = record {
  list = (advance-Holds r.aborts done x rest v.list).2;
  aborted =
      All-append _ done (x ∷ []) (All-mono _ _ done (visit-keeps late abort force r) v.aborted)
        (v.others.0, tt);
  forced =
      All-append _ done (x ∷ []) (All-mono _ _ done (visit-keeps late force force r) v.forced)
        (visit-reaches late force r x v.list.cursor, tt);
  others = v.others.1;
}

pub some-eq : {r r' : Reactor} → ◌≡◌ {A = Option Reactor} (some r) (some r') → r ≡ r'
some-eq e = cc

-- With more fuel than there are nodes ahead, the walk ends.
pub walk_loop_ends :
    (h : Hook) (f : ℕ → Deeds) (fuel : ℕ) (r : Reactor) (done rest : List ℕ)
    → Walked [] h r done rest
    → length rest < fuel
    → (r' : Reactor) × (walk_loop h f fuel r ≡ some r')
unfolding walk_loop
walk_loop_ends h f zero r done rest v lt = absurd (omega arith)
walk_loop_ends h f (suc fuel) r done [] v lt =
    let test : (r.aborts.cursor == 0) ≡ true = (==_iff r.aborts.cursor 0).1 v.list.cursor in
    (r, rw test)
walk_loop_ends h f (suc fuel) r done (x ∷ rest) v lt =
    let (here, ne, w) = advance-Holds r.aborts done x rest v.list in
    let test : (r.aborts.cursor == 0) ≡ false =
      eq_of_ne r.aborts.cursor 0 (λ z. ne (sym here ∙ z)) in
    let (done', rest', v', fewer) =
      perform_all-Walked (f r.aborts.cursor) [] h (visit h r) (done ++ x ∷ []) rest
        (visit-Walked [] h r done x rest v) in
    let (r', e) =
      walk_loop_ends h f fuel (perform_all (f r.aborts.cursor) (visit h r)) done' rest' v'
        (omega (arith, fewer)) in
    (r', rw test e)

pub walk_loop-Walked :
    (h : Hook) (f : ℕ → Deeds) (fuel : ℕ) (r r' : Reactor) (done rest : List ℕ)
    → Walked [] h r done rest
    → walk_loop h f fuel r ≡ some r'
    → (done' : List ℕ) × Walked [] h r' done' []
unfolding walk_loop
walk_loop-Walked h f zero r r' done rest v e = cc
walk_loop-Walked h f (suc fuel) r r' done [] v e =
    let test : (r.aborts.cursor == 0) ≡ true = (==_iff r.aborts.cursor 0).1 v.list.cursor in
    (done, subst (λ s. Walked [] h s done []) (some-eq (rw test at e)) v)
walk_loop-Walked h f (suc fuel) r r' done (x ∷ rest) v e =
    let (here, ne, w) = advance-Holds r.aborts done x rest v.list in
    let test : (r.aborts.cursor == 0) ≡ false =
      eq_of_ne r.aborts.cursor 0 (λ z. ne (sym here ∙ z)) in
    let (done', rest', v', fewer) =
      perform_all-Walked (f r.aborts.cursor) [] h (visit h r) (done ++ x ∷ []) rest
        (visit-Walked [] h r done x rest v) in
    walk_loop-Walked h f fuel (perform_all (f r.aborts.cursor) (visit h r)) r' done' rest' v'
      (rw test at e)
