-- ===== src/AbortList/Each.antt =====
-- `AbortList::each`: which nodes a walk meets while its callbacks change the list.
use mathlib.Core.List.{append_assoc, append-nil}
use reactor.Prelude.{
  ℕ, zero, suc, ◌<◌, ◌≡◌, ◌≢◌, refl, sym, ap, ◌∙◌, true, false, ◌||◌, not, List, [], ◌∷◌, ◌++◌,
  arith, ◌==◌, ==_iff, some, Bool-cases, inl, inr, if◌then◌else◌, length,
}
use reactor.AbortList.{AbortList, Action, track, untrack, Node, act, acts, each_loop, each}
use reactor.AbortList.Links.{has, erase, head_of}
use reactor.AbortList.Ops.{Holds, add-Holds}
use reactor.AbortList.Removal.{remove-Holds, suffix, eq_of_ne}

-- The nodes of `xs` that are not in `gone`.
unfoldable pub without : List ℕ → List ℕ → List ℕ
without gone [] = []
without gone (x ∷ xs) = let rest = without gone xs in if has x gone then rest else x ∷ rest

erase-without : (a : ℕ) (gone xs : List ℕ) → erase a (without gone xs) ≡ without (a ∷ gone) xs
unfolding without
erase-without a gone [] = refl
erase-without a gone (x ∷ xs) = ground (arith, erase-without a gone xs)

pub without-nil : (xs : List ℕ) → without [] xs ≡ xs
unfolding without
without-nil [] = refl
without-nil (x ∷ xs) = rw (without-nil xs)

-- The nodes untracked by a callback, before those that were untracked already.
unfoldable pub untracked : List Action → List ℕ → List ℕ
untracked [] gone = gone
untracked (track a ∷ as') gone = untracked as' gone
untracked (untrack a ∷ as') gone = untracked as' (a ∷ gone)

-- The nodes of `xs` in order, each unless a callback before it has untracked it.
unfoldable pub visits : (ℕ → List Action) → List ℕ → List ℕ → List ℕ
visits f gone [] = []
visits f gone (x ∷ xs) =
    let skip = visits f gone xs in
    let visit = x ∷ visits f (untracked (f x) gone) xs in if has x gone then skip else visit

pub act-Holds :
    (l : AbortList) (done gone xs : List ℕ) (a : Action)
    → Holds l done (without gone xs)
    → (done' : List ℕ) × Holds (act l a) done' (without (untracked (a ∷ []) gone) xs)
unfolding act untracked
act-Holds l done gone xs (track a) v = elim (Bool-cases (a == 0 || not ((l.heap a).list == 0))) [
  | inl refused ↦ rw refused (done, v)
  | inr free ↦
      let ne : a ≢ 0 = ground arith in
      let e : (l.heap a).list ≡ 0 = ground arith in
      rw free (a ∷ done, add-Holds a l done (without gone xs) v ne e)
]
act-Holds l done gone xs (untrack a) v =
    (erase a done, rw (← erase-without a gone xs) (remove-Holds a l done (without gone xs) v))

pub acts-Holds :
    (l : AbortList) (done gone xs : List ℕ) (as' : List Action)
    → Holds l done (without gone xs)
    → (done' : List ℕ) × Holds (acts l as') done' (without (untracked as' gone) xs)
unfolding acts untracked
acts-Holds l done gone xs [] v = (done, v)
acts-Holds l done gone xs (track a ∷ as') v =
    let (done', v') = act-Holds l done gone xs (track a) v in
    acts-Holds (act l (track a)) done' gone xs as' v'
acts-Holds l done gone xs (untrack a ∷ as') v =
    let (done', v') = act-Holds l done gone xs (untrack a) v in
    acts-Holds (act l (untrack a)) done' (a ∷ gone) xs as' v'

-- The walk takes the node at its cursor and moves on.
pub advance-Holds :
    (l : AbortList) (done : List ℕ) (x : ℕ) (rest : List ℕ)
    → Holds l done (x ∷ rest)
    → (l.cursor ≡ x)
      × (x ≢ 0)
      × Holds (record l { cursor = (l.heap l.cursor).next }) (done ++ x ∷ []) rest
advance-Holds l done x rest v =
    let (p, links) = suffix l.heap l.self 0 done (x ∷ rest) v.links in
    let same : (done ++ x ∷ []) ++ rest ≡ done ++ x ∷ rest = append_assoc done (x ∷ []) rest in
    (
      v.cursor,
      links.0,
      record {
        self = v.self;
        head = rw same v.head;
        links = rw same v.links;
        cursor = ap (λ c. (l.heap c).next) v.cursor ∙ ap (λ (n : Node). n.next) links.1;
        owned = rw same v.owned;
      },
    )

each_loop-visits :
    (f : ℕ → List Action) (xs : List ℕ) (fuel : ℕ) (gone done : List ℕ) (l : AbortList)
    → length xs < fuel
    → Holds l done (without gone xs)
    → (l' : AbortList) × (done' : List ℕ) × (each_loop fuel f l ≡ some (visits f gone xs, l'))
      × Holds l' done' []
unfolding each_loop visits without
each_loop-visits f xs zero gone done l lt v = absurd (omega arith)
each_loop-visits f [] (suc fuel) gone done l lt v =
    let e : (l.cursor == 0) ≡ true = (==_iff l.cursor 0).1 v.cursor in (l, done, rw e, v)
each_loop-visits f (x ∷ xs) (suc fuel) gone done l lt v = elim (Bool-cases (has x gone)) [
  | inl skip ↦ rw skip (each_loop-visits f xs (suc fuel) gone done l (omega arith) (rw skip at v))
  | inr visit ↦
      let (here, ne, w) = advance-Holds l done x (without gone xs) (rw visit at v) in
      let moved : AbortList = record l { cursor = (l.heap l.cursor).next } in
      let (done', w') = acts-Holds moved (done ++ x ∷ []) gone xs (f x) w in
      let gone' : List ℕ = untracked (f x) gone in
      let (l', last, e, h) =
        each_loop-visits f xs fuel gone' done' (acts moved (f x)) (omega arith) w' in
      let test : (l.cursor == 0) ≡ false = eq_of_ne l.cursor 0 (λ z. ne (sym here ∙ z)) in
      let run : each_loop fuel f (acts moved (f l.cursor)) ≡ some (visits f gone' xs, l') =
        ap (λ c. each_loop fuel f (acts moved (f c))) here ∙ e in
      rw (visit, test, run) (l', last, ap (λ y. some (y ∷ visits f gone' xs, l')) here, h)
]

-- The walk starts at the head of the list.
pub start-Holds :
    (l : AbortList) (xs : List ℕ)
    → Holds l xs []
    → Holds (record l { cursor = l.head }) [] (without [] xs)
start-Holds l xs v =
    let entire : xs ++ [] ≡ xs = append-nil xs in
    rw (without-nil xs) (record {
      self = v.self;
      head = v.head ∙ ap head_of entire;
      links = rw entire at v.links;
      cursor = v.head ∙ ap head_of entire;
      owned = rw entire at v.owned;
    })

-- A walk over the whole list, from outside any other walk, ends, and meets the nodes in order:
-- every node that no callback before it has untracked, each once, and none that was tracked since.
-- Callbacks may track and untrack any nodes, their own and the next one too. The list is in order
-- afterwards.
pub each-visits :
    (f : ℕ → List Action) (xs : List ℕ) (l : AbortList)
    → Holds l xs []
    → (l' : AbortList) × (ys : List ℕ) × (each (suc (length xs)) f l ≡ some (visits f [] xs, l'))
      × Holds l' ys []
unfolding each
each-visits f xs l v =
    let (l', ys, e, h) =
      each_loop-visits f xs (suc (length xs)) [] [] (record l { cursor = l.head }) (omega arith)
        (start-Holds l xs v) in
    (
      record l' { cursor = l.cursor },
      ys,
      rw (e, each),
      record { self = h.self; head = h.head; links = h.links; cursor = v.cursor; owned = h.owned },
    )
