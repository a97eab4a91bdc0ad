-- ===== src/Teardown/Walks.antt =====
-- reactor.h: what the bodies of `abort_all` and `force_all` keep.
use reactor.Prelude.{
  false, Bool, if◌then◌else◌, ℕ, zero, suc, ◌≡◌, refl, sym, ap, ◌∙◌, true, List, Option-cases,
  Bool-cases, some, inl, inr, ◌==◌,
}
use reactor.AbortList.{add}
use reactor.Shutdown.{
  Reactor, Hook, abort, force, call, Deeds, nothing, tracks_then, untracks_then, aborts_again_then,
  track_with, is_taken, enlist, delist, perform_all, walk_loop, walk,
}
use reactor.Shutdown.Hooks.{begun}
use reactor.Shutdown.Walk.{some-eq}
use reactor.Shutdown.Tracked.{Tracked, none≢some, walk-Tracked}
use reactor.Teardown.{flagged, Body, walks}

pub delist-begun : (k : Hook) (a : ℕ) (r : Reactor) → begun k (delist a r) ≡ begun k r
unfolding delist
delist-begun abort a r = refl
delist-begun force a r = refl

call-begun : (k h : Hook) (a : ℕ) (r : Reactor) → begun k (call h a r) ≡ begun k r
call-begun abort abort a r = refl
call-begun abort force a r = refl
call-begun force abort a r = refl
call-begun force force a r = refl

-- A function of the reactor leaves the flags.
abbrev Leaves : Hook → (Reactor → Reactor) → Type 0
Leaves k g = (r : Reactor) → begun k (g r) ≡ begun k r

late-Leaves :
    (k h : Hook) (on : Bool) (g : Reactor → Reactor)
    → Leaves k g
    → (a : ℕ) → Leaves k (λ r. if on then g (call h a r) else r)
late-Leaves k h true g l a r = l (call h a r) ∙ call-begun k h a r
late-Leaves k h false g l a r = refl

added-begun :
    (k : Hook) (a : ℕ) (r : Reactor) → begun k (record r { aborts = add a r.aborts }) ≡ begun k r
added-begun abort a r = refl
added-begun force a r = refl

track_with-Leaves :
    (k : Hook) (on_abort on_force : Reactor → Reactor)
    → Leaves k on_abort
    → Leaves k on_force
    → (a : ℕ) → Leaves k (track_with on_abort on_force a)
unfolding track_with
track_with-Leaves k on_abort on_force la lf a r =
    let added : Reactor = record r { aborts = add a r.aborts } in
    let late : Reactor = if added.walked then on_abort (call abort a added) else added in
    late-Leaves k force late.forced on_force lf a late
    ∙ (late-Leaves k abort added.walked on_abort la a added ∙ added-begun k a r)

perform_all-begun : (k : Hook) (ds : Deeds) → Leaves k (perform_all ds)
unfolding perform_all
perform_all-begun k nothing r = refl
perform_all-begun k (tracks_then a la lf ds) r = elim (Bool-cases (is_taken a r)) [
  | inl refused ↦ rw refused (perform_all-begun k ds r)
  | inr free ↦ rw free (
      perform_all-begun k ds (track_with (perform_all la) (perform_all lf) a r)
      ∙ track_with-Leaves k (perform_all la) (perform_all lf) (perform_all-begun k la)
          (perform_all-begun k lf) a r)
]
perform_all-begun k (untracks_then a ds) r =
    perform_all-begun k ds (delist a r) ∙ delist-begun k a r
perform_all-begun k (aborts_again_then ds) r = perform_all-begun k ds r

pub enlist-begun :
    (k : Hook) (a : ℕ) (la lf : Deeds) (r : Reactor) → begun k (enlist a la lf r) ≡ begun k r
unfolding enlist
enlist-begun k a la lf r =
    track_with-Leaves k (perform_all la) (perform_all lf) (perform_all-begun k la)
      (perform_all-begun k lf) a r

moved-begun :
    (k : Hook) (r : Reactor) (cursor : ℕ)
    → begun k (record r { aborts = record r.aborts { cursor = cursor } }) ≡ begun k r
moved-begun abort r cursor = refl
moved-begun force r cursor = refl

walk_loop-begun :
    (k h : Hook) (f : ℕ → Deeds) (fuel : ℕ) (r r' : Reactor)
    → walk_loop h f fuel r ≡ some r'
    → begun k r' ≡ begun k r
unfolding walk_loop
walk_loop-begun k h f zero r r' e = cc
walk_loop-begun k h f (suc fuel) r r' e = elim (Bool-cases (r.aborts.cursor == 0)) [
  | inl over ↦ ap (begun k) (sym (some-eq (rw over at e)))
  | inr here ↦
      let a : ℕ = r.aborts.cursor in
      let moved : Reactor = record r {
        aborts = record r.aborts { cursor = (r.aborts.heap a).next };
      } in
      walk_loop-begun k h f fuel (perform_all (f a) (call h a moved)) r' (rw here at e)
      ∙ (perform_all-begun k (f a) (call h a moved)
          ∙ (call-begun k h a moved ∙ moved-begun k r (r.aborts.heap a).next))
]

-- A walk leaves the flags as they are.
walk-begun :
    (k h : Hook) (f : ℕ → Deeds) (fuel : ℕ) (r r' : Reactor)
    → walk h f fuel r ≡ some r'
    → begun k r' ≡ begun k r
unfolding walk
walk-begun k h f fuel r r' e =
    let rewound : Reactor = record r { aborts = record r.aborts { cursor = r.aborts.head } } in
    elim (Option-cases (walk_loop h f fuel rewound)) [
      | inl none_e ↦ absurd (none≢some (rw (none_e, walk) at e))
      | inr (s, some_e) ↦
          ap (begun k) (sym (some-eq (rw (some_e, walk) at e)))
          ∙ (moved-begun k s r.aborts.cursor
              ∙ (walk_loop-begun k h f fuel rewound s some_e ∙ moved-begun k r r.aborts.head))
    ]

flagged-begun : (k h : Hook) (r : Reactor) → begun k r ≡ true → begun k (flagged h r) ≡ true
flagged-begun abort abort r v = refl
flagged-begun abort force r v = v
flagged-begun force abort r v = v
flagged-begun force force r v = refl

begun-flagged : (h : Hook) (r : Reactor) → begun h (flagged h r) ≡ true
begun-flagged abort r = refl
begun-flagged force r = refl

-- A body sets its flag, and no body takes one back.
pub Body-begins : (h : Hook) {r r' : Reactor} → Body h r r' → begun h r' ≡ true
Body-begins h {r = r} {r' = r'} (walks f fuel e) =
    walk-begun h h f fuel (flagged h r) r' e ∙ begun-flagged h r

pub Body-keeps : (k h : Hook) {r r' : Reactor} → Body h r r' → begun k r ≡ true → begun k r' ≡ true
Body-keeps k h {r = r} {r' = r'} (walks f fuel e) v =
    walk-begun k h f fuel (flagged h r) r' e ∙ flagged-begun k h r v

pub Body-Tracked :
    (h : Hook) {r r' : Reactor} (xs : List ℕ)
    → Body h r r'
    → Tracked r xs
    → (ys : List ℕ) × Tracked r' ys
Body-Tracked abort {r = r} {r' = r'} xs (walks f fuel e) v =
    walk-Tracked abort f fuel (flagged abort r) r' xs v.list v.forced e
Body-Tracked force {r = r} {r' = r'} xs (walks f fuel e) v =
    walk-Tracked force f fuel (flagged force r) r' xs v.list v.aborted e
