-- ===== src/AbortList/Nested/Visits.antt =====
-- Which nodes an outer walk meets while its callbacks walk the list themselves.
use reactor.Prelude.{
  ℕ, zero, suc, ◌<◌, ◌+◌, ◌≡◌, refl, sym, ap, ◌∙◌, true, false, List, [], ◌∷◌, ◌++◌, arith, ◌==◌,
  ==_iff, some, Bool-cases, inl, inr, length,
}
use reactor.AbortList.{AbortList, Action, track, untrack, act, each}
use reactor.AbortList.Links.{has}
use reactor.AbortList.Ops.{Holds}
use reactor.AbortList.Removal.{eq_of_ne}
use reactor.AbortList.Each.{without, start-Holds, untracked, visits, act-Holds, advance-Holds}
use reactor.AbortList.Nested.{Deed, does, walks, deeds, nested_loop, nested_each}
use reactor.AbortList.Nested.Suffix.{spares, each-Split}
use reactor.AbortList.Nested.Fuel.{each-more, deeds-more, nested_loop-more}

-- What a callback does itself, without the walks in it.
pub direct : List Deed → List Action
direct [] = []
direct (does a ∷ ds) = a ∷ direct ds
direct (walks g ∷ ds) = direct ds

-- No inner walk among `ds` untracks a node of `rest`.
unfoldable pub Careful : (rest : List ℕ) → List Deed → Type 0
Careful rest [] = Unit
Careful rest (does a ∷ ds) = Careful rest ds
Careful rest (walks g ∷ ds) = ((a : ℕ) → spares rest (g a) ≡ true) × Careful rest ds

-- The inner walks in the callback of each node leave tracked the nodes that come after it.
unfoldable pub AllCareful : (ℕ → List Deed) → List ℕ → Type 0
unfolding Careful
AllCareful f [] = Unit
AllCareful f (x ∷ xs) = Careful xs (f x) × AllCareful f xs

has-without : (a : ℕ) (gone xs : List ℕ) → has a xs ≡ false → has a (without gone xs) ≡ false
unfolding without
has-without a gone [] h = refl
has-without a gone (x ∷ xs) h = ground (arith, has-without a gone xs)

spares-without :
    (gone xs : List ℕ) (as' : List Action)
    → spares xs as' ≡ true
    → spares (without gone xs) as' ≡ true
spares-without gone xs [] h = refl
spares-without gone xs (track a ∷ as') h = spares-without gone xs as' h
spares-without gone xs (untrack a ∷ as') h =
    let kept : has a (without gone xs) ≡ false = has-without a gone xs (ground arith) in
    rw kept (spares-without gone xs as' (ground arith))

deeds-visits :
    (l : AbortList) (done gone xs : List ℕ) (ds : List Deed)
    → Careful xs ds
    → Holds l done (without gone xs)
    → (inner : ℕ) × (l' : AbortList) × (done' : List ℕ) × (deeds inner l ds ≡ some l')
      × Holds l' done' (without (untracked (direct ds) gone) xs)
unfolding deeds direct Careful untracked
deeds-visits l done gone xs [] c v = (0, l, done, refl, v)
deeds-visits l done gone xs (does (track a) ∷ ds) c v =
    let (done1, v1) = act-Holds l done gone xs (track a) v in
    deeds-visits (act l (track a)) done1 gone xs ds c v1
deeds-visits l done gone xs (does (untrack a) ∷ ds) c v =
    let (done1, v1) = act-Holds l done gone xs (untrack a) v in
    deeds-visits (act l (untrack a)) done1 (a ∷ gone) xs ds c v1
deeds-visits l done gone xs (walks g ∷ ds) c v =
    let spared : (a : ℕ) → spares (without gone xs) (g a) ≡ true =
      λ a. spares-without gone xs (g a) (c.0 a) in
    let (fuel, seen, l1, done1, run, v1) = each-Split g l done (without gone xs) spared v in
    let (inner, l', done', e, v') = deeds-visits l1 done1 gone xs ds c.1 v1 in
    let walk : each (fuel + inner) g l ≡ some (seen, l1) =
      each-more fuel (fuel + inner) g l (seen, l1) (omega arith) run in
    let rest : deeds (fuel + inner) l1 ds ≡ some l' =
      deeds-more inner (fuel + inner) ds l1 l' (omega arith) e in
    (fuel + inner, l', done', rw (deeds, walk) rest, v')

loop-visits :
    (f : ℕ → List Deed) (xs : List ℕ) (fuel : ℕ) (gone done : List ℕ) (l : AbortList)
    → length xs < fuel
    → AllCareful f xs
    → Holds l done (without gone xs)
    → (inner : ℕ) × (l' : AbortList) × (done' : List ℕ) × (nested_loop inner fuel f l
        ≡ some (visits (λ a. direct (f a)) gone xs, l'))
      × Holds l' done' []
unfolding nested_loop visits without AllCareful
loop-visits f xs zero gone done l lt c v = absurd (omega arith)
loop-visits f [] (suc fuel) gone done l lt c v =
    let e : (l.cursor == 0) ≡ true = (==_iff l.cursor 0).1 v.cursor in (0, l, done, rw e, v)
loop-visits f (x ∷ xs) (suc fuel) gone done l lt c v = elim (Bool-cases (has x gone)) [
  | inl skip ↦ rw skip (loop-visits f xs (suc fuel) gone done l (omega arith) c.1 (rw skip at v))
  | inr visit ↦
      let (here, ne, w) = advance-Holds l done x (without gone xs) (rw visit at v) in
      let moved : AbortList = record l { cursor = (l.heap l.cursor).next } in
      let (inner1, m, done', e1, w') = deeds-visits moved (done ++ x ∷ []) gone xs (f x) c.0 w in
      let gone' : List ℕ = untracked (direct (f x)) gone in
      let (inner2, l', last, e2, h) = loop-visits f xs fuel gone' done' m (omega arith) c.1 w' in
      let inner : ℕ = inner1 + inner2 in
      let test : (l.cursor == 0) ≡ false = eq_of_ne l.cursor 0 (λ z. ne (sym here ∙ z)) in
      let body : deeds inner moved (f l.cursor) ≡ some m =
        ap (λ y. deeds inner moved (f y)) here
        ∙ deeds-more inner1 inner (f x) moved m (omega arith) e1 in
      let tail : nested_loop inner fuel f m ≡ some (visits (λ a. direct (f a)) gone' xs, l') =
        nested_loop-more inner2 inner fuel f m (visits (λ a. direct (f a)) gone' xs, l')
          (omega arith) e2 in
      (
        inner,
        l',
        last,
        rw (visit, test, body, tail)
            (ap (λ y. some (y ∷ visits (λ a. direct (f a)) gone' xs, l')) here),
        h,
      )
]

-- A walk whose callbacks walk the same list again, with callbacks of their own, ends, once the
-- inner walks have enough fuel, if no inner walk in the callback of a node untracks one of the nodes
-- after that one. It meets the nodes as if the inner walks were not there: in order, each once, every node that no
-- callback of the outer walk before it has untracked, and none that was tracked since. The list is
-- in order afterwards.
pub nested-visits :
    (f : ℕ → List Deed) (xs : List ℕ) (l : AbortList)
    → AllCareful f xs
    → Holds l xs []
    → (inner : ℕ) × (l' : AbortList) × (ys : List ℕ) × (nested_each inner (suc (length xs)) f l
        ≡ some (visits (λ a. direct (f a)) [] xs, l'))
      × Holds l' ys []
unfolding nested_each
nested-visits f xs l c v =
    let (inner, l', ys, e, h) =
      loop-visits f xs (suc (length xs)) [] [] (record l { cursor = l.head }) (omega arith) c
        (start-Holds l xs v) in
    (
      inner,
      record l' { cursor = l.cursor },
      ys,
      rw (e, nested_each),
      record { self = h.self; head = h.head; links = h.links; cursor = v.cursor; owned = h.owned },
    )
