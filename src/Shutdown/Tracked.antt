-- ===== src/Shutdown/Tracked.antt =====
-- The list that a reactor tracks, through every step of its loop.
use mathlib.Core.List.{append-nil}
use reactor.Prelude.{
  ℕ, suc, ◌≡◌, ◌≢◌, refl, sym, ap, subst, ◌∙◌, true, false, List, [], ◌∷◌, arith, some, none,
  Option, Option-cases, Bool-cases, inl, inr, length, ◌≤◌,
}
use reactor.AbortList.Links.{erase, head_of}
use reactor.AbortList.Ops.{Holds}
use reactor.Shutdown.{
  Step, tracks, untracks, aborts_all, forces_all, Reachable, start, next, make, abort_all,
  force_all, Hook, abort, force, Reactor, Deeds, enlist, delist, perform_all, walk_loop, walk,
}
use reactor.Shutdown.Hooks.{IsReached, IsReachedBut}
use reactor.Shutdown.Walk.{
  Walked, other, some-eq, walk_loop-Walked, walk_loop_ends, track_with-Walked, perform_all-Walked,
  delist-Walked,
}

-- What holds of the reactor between the steps of its loop, while its list is `xs`.
pub record Tracked (r : Reactor) (xs : List ℕ) : Type 0 where
  pub list : Holds r.aborts xs []
  pub aborted : IsReached abort r xs
  pub forced : IsReached force r xs

abbrev rewound : Reactor → Reactor
rewound r = record r { aborts = record r.aborts { cursor = r.aborts.head } }

others-rewound :
    (h : Hook) (r : Reactor) (xs : List ℕ)
    → IsReached (other h) r xs
    → IsReachedBut [] (other h) (rewound r) xs
others-rewound abort r xs o = o
others-rewound force r xs o = o

rewound-Walked :
    (h : Hook) (r : Reactor) (xs : List ℕ)
    → Holds r.aborts xs []
    → IsReached (other h) r xs
    → Walked [] h (rewound r) [] xs
rewound-Walked h r xs v o = record {
  list = record {
    self = v.self;
    head = v.head ∙ ap head_of (append-nil xs);
    links = rw (append-nil xs) at v.links;
    cursor = v.head ∙ ap head_of (append-nil xs);
    owned = rw (append-nil xs) at v.owned;
  };
  aborted = tt;
  forced = tt;
  others = others-rewound h r xs o;
}

pub none≢some : {r : Reactor} → ◌≢◌ {A = Option Reactor} none (some r)
none≢some e = cc

-- The walk is over, and the cursor is put back.
restored-Tracked :
    (h : Hook) (s : Reactor) (ys : List ℕ) (cursor : ℕ)
    → Walked [] h s ys []
    → cursor ≡ 0
    → Tracked (record s { aborts = record s.aborts { cursor = cursor } }) ys
restored-Tracked h s ys cursor w z = record {
  list = record {
    self = w.list.self;
    head = w.list.head;
    links = w.list.links;
    cursor = z;
    owned = w.list.owned;
  };
  aborted = w.aborted;
  forced = w.forced;
}

-- A walk over `h` begins: its flag is set already.
pub walk-Tracked :
    (h : Hook) (f : ℕ → Deeds) (fuel : ℕ) (r r' : Reactor) (xs : List ℕ)
    → Holds r.aborts xs []
    → IsReached (other h) r xs
    → walk h f fuel r ≡ some r'
    → (ys : List ℕ) × Tracked r' ys
unfolding walk
walk-Tracked h f fuel r r' xs v o e = elim (Option-cases (walk_loop h f fuel (rewound r))) [
  | inl none_e ↦ absurd (none≢some (rw (none_e, walk) at e))
  | inr (s, some_e) ↦
      let (ys, w) =
        walk_loop-Walked h f fuel (rewound r) s [] xs (rewound-Walked h r xs v o) some_e in
      (
        ys,
        subst (λ t. Tracked t ys) (some-eq (rw (some_e, walk) at e))
            (restored-Tracked h s ys r.aborts.cursor w v.cursor),
      )
]

pub walk_ends :
    (h : Hook) (f : ℕ → Deeds) (r : Reactor) (xs : List ℕ)
    → Holds r.aborts xs []
    → IsReached (other h) r xs
    → (r' : Reactor) × (walk h f (suc (length xs)) r ≡ some r')
unfolding walk
walk_ends h f r xs v o =
    let (s, e) =
      walk_loop_ends h f (suc (length xs)) (rewound r) [] xs (rewound-Walked h r xs v o)
        (omega arith) in
    (record s { aborts = record s.aborts { cursor = r.aborts.cursor } }, rw (e, walk))

pub enlist-Tracked :
    (r : Reactor) (a : ℕ) (la lf : Deeds) (xs : List ℕ)
    → Tracked r xs
    → a ≢ 0
    → (r.aborts.heap a).list ≡ 0
    → (ys : List ℕ) × Tracked (enlist a la lf r) ys
unfolding enlist
enlist-Tracked r a la lf xs v ne free =
    let (ys, rest, w, fewer) =
      track_with-Walked (perform_all la) (perform_all lf) (perform_all-Walked la)
        (perform_all-Walked lf) a [] abort r xs []
        (record { list = v.list; aborted = v.aborted; forced = v.forced; others = tt }) ne free in
    let w' = subst (Walked [] abort (enlist a la lf r) ys) (length_zero rest fewer) w in
    (ys, record { list = w'.list; aborted = w'.aborted; forced = w'.forced })
  where
    length_zero : (zs : List ℕ) → length zs ≤ 0 → zs ≡ []
    length_zero [] h = refl
    length_zero (z ∷ zs) h = absurd (omega arith)

pub delist-Tracked :
    (r : Reactor) (a : ℕ) (xs : List ℕ) → Tracked r xs → Tracked (delist a r) (erase a xs)
delist-Tracked r a xs v =
    let w =
      delist-Walked [] abort r a xs []
        (record { list = v.list; aborted = v.aborted; forced = v.forced; others = tt }) in
    record { list = w.list; aborted = w.aborted; forced = w.forced }

pub make-Tracked : (self : ℕ) → self ≢ 0 → Tracked (make self) []
make-Tracked self ne = record {
  list = record {
    self = ne;
    head = refl;
    links = tt;
    cursor = refl;
    owned = λ a e. absurd (ne (sym e));
  };
  aborted = tt;
  forced = tt;
}

pub abort_all_again :
    (f : ℕ → Deeds) (fuel : ℕ) (r : Reactor) → r.aborting ≡ true → abort_all f fuel r ≡ some r
unfolding abort_all
abort_all_again f fuel r e = ground arith

pub abort_all_first :
    (f : ℕ → Deeds) (fuel : ℕ) (r : Reactor)
    → r.aborting ≡ false
    → abort_all f fuel r ≡ walk abort f fuel (record r { aborting = true; walked = true })
unfolding abort_all
abort_all_first f fuel r e = ground arith

Step-Tracked :
    {r r' : Reactor} → Step r r' → (xs : List ℕ) → Tracked r xs → (ys : List ℕ) × Tracked r' ys
unfolding force_all
Step-Tracked {r = r} (tracks a la lf ne free) xs v = enlist-Tracked r a la lf xs v ne free
Step-Tracked {r = r} (untracks a) xs v = (erase a xs, delist-Tracked r a xs v)
Step-Tracked {r = r} {r' = r'} (aborts_all f fuel e) xs v = elim (Bool-cases r.aborting) [
  | inl before ↦
      (xs, subst (λ t. Tracked t xs) (some-eq (sym (abort_all_again f fuel r before) ∙ e)) v)
  | inr first ↦
      walk-Tracked abort f fuel (record r { aborting = true; walked = true }) r' xs v.list v.forced
        (sym (abort_all_first f fuel r first) ∙ e)
]
Step-Tracked {r = r} {r' = r'} (forces_all f fuel e) xs v =
    walk-Tracked force f fuel (record r { forced = true }) r' xs v.list v.aborted e

pub Reachable-Tracked :
    (self : ℕ) → self ≢ 0 → (r : Reactor) → Reachable self r → (xs : List ℕ) × Tracked r xs
Reachable-Tracked self ne r start = ([], make-Tracked self ne)
Reachable-Tracked self ne r' (next {r = r} before s) =
    let (xs, v) = Reachable-Tracked self ne r before in Step-Tracked s xs v
