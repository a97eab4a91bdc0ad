-- ===== src/AbortList/Nested/Stale.antt =====
-- A walk inside another one that untracks the node that the outer walk has next.
use mathlib.Core.List.{append_assoc, append-nil}
use reactor.Prelude.{
  ℕ, zero, suc, ◌<◌, ◌≡◌, ◌≢◌, refl, sym, ap, subst, ◌∙◌, true, false, List, [], ◌∷◌, ◌++◌, arith,
  ◌==◌, ==_iff, some, length,
}
use reactor.AbortList.{AbortList, untrack, Node, node, act, acts, remove, unlink, each_loop, each}
use reactor.AbortList.Links.{erase, erase_absent}
use reactor.AbortList.Ops.{Holds}
use reactor.AbortList.Removal.{remove-Holds, eq_of_ne}
use reactor.AbortList.Each.{without-nil, start-Holds, advance-Holds}
use reactor.AbortList.Nested.{Deed, walks, deeds, nested_loop, nested_each}

remove_absent : (y : ℕ) (l : AbortList) → (l.heap y).list ≢ l.self → remove y l ≡ l
unfolding remove
remove_absent y l ne = let e : ((l.heap y).list == l.self) ≡ false = eq_of_ne _ _ ne in rw e

remove_gone : (y : ℕ) (l : AbortList) → (l.heap y).list ≡ l.self → (remove y l).heap y ≡ node 0 0 0
unfolding remove unlink
remove_gone y l e =
    let own : ((l.heap y).list == l.self) ≡ true = (==_iff _ _).1 e in
    let here : (y == y) ≡ true = (==_iff y y).1 refl in rw (own, here)

-- Untracking a node that is in no list changes nothing, so the walk goes through the whole list.
idle_loop :
    (y fuel : ℕ) (d r : List ℕ) (l : AbortList)
    → length r < fuel
    → Holds l d r
    → (l.heap y).list ≡ 0
    → (v : List ℕ) × (m : AbortList) × (each_loop fuel (λ a. untrack y ∷ []) l ≡ some (v, m))
      × (m.heap ≡ l.heap)
      × Holds m (d ++ r) []
unfolding each_loop acts act
idle_loop y zero d r l lt h out = absurd (omega arith)
idle_loop y (suc fuel) d [] l lt h out =
    let e : (l.cursor == 0) ≡ true = (==_iff l.cursor 0).1 h.cursor in
    ([], l, rw e, refl, subst (λ xs. Holds l xs []) (sym (append-nil d)) h)
idle_loop y (suc fuel) d (x ∷ r) l lt h out =
    let (here, ne, w) = advance-Holds l d x r h in
    let moved : AbortList = record l { cursor = (l.heap l.cursor).next } in
    let same : remove y moved ≡ moved = remove_absent y moved (λ e. h.self (sym e ∙ out)) in
    let (v, m, e, heap, h') = idle_loop y fuel (d ++ x ∷ []) r moved (omega arith) w out in
    let test : (l.cursor == 0) ≡ false = eq_of_ne l.cursor 0 (λ z. ne (sym here ∙ z)) in
    (
      l.cursor ∷ v,
      m,
      rw (test, same, e),
      heap,
      subst (λ xs. Holds m xs []) (append_assoc d (x ∷ []) r) h',
    )

-- The inner walk, which begins when the outer one has moved on to `y`.
inner_walk :
    (x y : ℕ) (zs : List ℕ) (l : AbortList)
    → Holds l (x ∷ []) (y ∷ zs)
    → (v : List ℕ) × (m : AbortList) × (each (suc (suc (length zs))) (λ a. untrack y ∷ []) l
        ≡ some (v, record m { cursor = l.cursor }))
      × (m.heap y ≡ node 0 0 0)
      × Holds m (x ∷ zs) []
unfolding each each_loop acts act
inner_walk x y zs l h =
    let l1 : AbortList = record l { cursor = l.head } in
    let (here, ne, w) = advance-Holds l1 [] x (y ∷ zs) (record {
      self = h.self;
      head = h.head;
      links = h.links;
      cursor = h.head;
      owned = h.owned;
    }) in
    let l2 : AbortList = record l1 { cursor = (l1.heap l1.cursor).next } in
    let own : (l2.heap y).list ≡ l2.self = ap (λ (n : Node). n.list) (h.links.3).1 in
    let apart : erase y (x ∷ []) ≡ x ∷ [] = ground (arith, h.links.2) in
    let left : erase y (y ∷ zs) ≡ zs = ground (arith, (h.links.3).2, erase_absent y zs) in
    let h3 : Holds (remove y l2) (x ∷ []) zs =
      rw (apart, left) at (remove-Holds y l2 (x ∷ []) (y ∷ zs) w) in
    let gone : (remove y l2).heap y ≡ node 0 0 0 = remove_gone y l2 own in
    let (v, m, e, heap, h4) =
      idle_loop y (suc (length zs)) (x ∷ []) zs (remove y l2) (omega arith) h3
        (ap (λ (n : Node). n.list) gone) in
    let test : (l.head == 0) ≡ false = eq_of_ne l.head 0 (λ z. ne (sym here ∙ z)) in
    (l.head ∷ v, m, rw (each, test, e) refl, ap (λ g. g y) heap ∙ gone, h4)

-- When the callback of the first node `x` walks the list and untracks the second node `y` from
-- there, the outer walk meets `y` all the same, though `y` is in no list by then, and
-- ends there if the callback of `y` does nothing: it meets none of the nodes behind `y`, which are
-- still tracked.
pub stale-visit :
    (f : ℕ → List Deed) (x y : ℕ) (zs : List ℕ) (l : AbortList)
    → f x ≡ walks (λ a. untrack y ∷ []) ∷ []
    → f y ≡ []
    → Holds l (x ∷ y ∷ zs) []
    → (inner : ℕ) × (l' : AbortList) × (nested_each inner 3 f l ≡ some (x ∷ y ∷ [], l'))
      × (l'.heap y ≡ node 0 0 0)
      × Holds l' (x ∷ zs) []
unfolding nested_each nested_loop deeds
stale-visit f x y zs l fx fy h =
    let l0 : AbortList = record l { cursor = l.head } in
    let (here, nx, w) =
      advance-Holds l0 [] x (y ∷ zs)
        (rw (without-nil (x ∷ y ∷ zs)) at (start-Holds l (x ∷ y ∷ zs) h)) in
    let l1 : AbortList = record l0 { cursor = (l0.heap l0.cursor).next } in
    let (v, m, e, gone, h') = inner_walk x y zs l1 w in
    let ny : y ≢ 0 = (w.links.3).0 in
    let fh : f l.head ≡ walks (λ a. untrack y ∷ []) ∷ [] = ap f here ∙ fx in
    let fc : f l1.cursor ≡ [] = ap f w.cursor ∙ fy in
    let test : (l.head == 0) ≡ false = eq_of_ne l.head 0 (λ z. nx (sym here ∙ z)) in
    let test' : (l1.cursor == 0) ≡ false = eq_of_ne l1.cursor 0 (λ z. ny (sym w.cursor ∙ z)) in
    let next : (m.heap l1.cursor).next ≡ 0 =
      ap (λ c. (m.heap c).next) w.cursor ∙ ap (λ (n : Node). n.next) gone in
    let inner : ℕ = suc (suc (length zs)) in
    let m1 : AbortList = record m { cursor = l1.cursor } in
    let m2 : AbortList = record m { cursor = (m.heap l1.cursor).next } in
    let ended : (m2.cursor == 0) ≡ true = (==_iff m2.cursor 0).1 next in
    let deed : deeds inner l1 (f l.head) ≡ some m1 = ap (deeds inner l1) fh ∙ rw (deeds, e) refl in
    let idle : deeds inner m2 (f l1.cursor) ≡ some m2 = ap (deeds inner m2) fc in
    let third : nested_loop inner 1 f m2 ≡ some ([], m2) = rw (nested_loop, ended) refl in
    let second : nested_loop inner 2 f m1 ≡ some (l1.cursor ∷ [], m2) =
      rw (nested_loop, test', idle, third) refl in
    let first : nested_loop inner 3 f l0 ≡ some (l.head ∷ l1.cursor ∷ [], m2) =
      rw (nested_loop, test, deed, second) refl in
    (
      inner,
      record m { cursor = l.cursor },
      rw (nested_each, first)
          (ap (λ vs. some (vs, record m { cursor = l.cursor }))
            (ap (λ a. a ∷ l1.cursor ∷ []) here ∙ ap (λ a. x ∷ a ∷ []) w.cursor)),
      gone,
      record {
        self = h'.self;
        head = h'.head;
        links = h'.links;
        cursor = h.cursor;
        owned = h'.owned;
      },
    )
