-- ===== src/AbortList/Nested/Suffix.antt =====
-- An inner walk leaves what the outer one has before it, unless its callbacks untrack some of that.
use mathlib.Core.List.{append_assoc}
use reactor.Prelude.{
  ℕ, zero, suc, ◌<◌, ◌≤◌, ◌≡◌, refl, sym, ap, ◌∙◌, Bool, true, false, ◌||◌, ◌&&◌, not, List, [],
  ◌∷◌, ◌++◌, arith, ◌==◌, ==_iff, some, Bool-cases, inl, inr, length,
}
use reactor.AbortList.{AbortList, Action, track, untrack, act, acts, add, remove, each_loop, each}
use reactor.AbortList.Links.{has, erase, head_of, erase_absent}
use reactor.AbortList.Ops.{Holds, add-Holds, erase-append}
use reactor.AbortList.Removal.{remove-Holds, eq_of_ne}
use reactor.AbortList.Each.{advance-Holds}

-- No action untracks a node of `rest`.
abbrev pub spares : List ℕ → List Action → Bool
spares rest [] = true
spares rest (track a ∷ as') = spares rest as'
spares rest (untrack a ∷ as') = not (has a rest) && spares rest as'

length-erase : (a : ℕ) (xs : List ℕ) → length (erase a xs) ≤ length xs
length-erase a [] = omega arith
length-erase a (x ∷ xs) = ground (arith, length-erase a xs)

-- The walk stands before `r`, and the list ends with `rest`.
record Split (l : AbortList) (d r rest : List ℕ) : Type 0 where
  list : Holds l d r
  front : List ℕ
  ends : d ++ r ≡ front ++ rest

acts-Split :
    (l : AbortList) (d r rest : List ℕ) (as' : List Action)
    → spares rest as' ≡ true
    → Split l d r rest
    → (d' : List ℕ) × (r' : List ℕ) × Split (acts l as') d' r' rest × (length r' ≤ length r)
unfolding acts act
acts-Split l d r rest [] ok v = (d, r, v, omega arith)
acts-Split l d r rest (track a ∷ as') ok v =
    elim (Bool-cases (a == 0 || not ((l.heap a).list == 0))) [
      | inl refused ↦ rw refused (acts-Split l d r rest as' ok v)
      | inr free ↦ rw free (
          acts-Split (add a l) (a ∷ d) r rest as' ok (record {
            list = add-Holds a l d r v.list (ground arith) (ground arith);
            front = a ∷ v.front;
            ends = ap (λ zs. a ∷ zs) v.ends;
          }))
    ]
acts-Split l d r rest (untrack a ∷ as') ok v =
    let out : has a rest ≡ false = ground arith in
    let (d', r', v', fewer) =
      acts-Split (remove a l) (erase a d) (erase a r) rest as' (ground arith) (record {
        list = remove-Holds a l d r v.list;
        front = erase a v.front;
        ends =
            sym (erase-append a d r)
            ∙ (ap (erase a) v.ends
                ∙ (erase-append a v.front rest
                    ∙ ap (λ zs. erase a v.front ++ zs) (erase_absent a rest out)));
      }) in
    (d', r', v', omega (arith, fewer, length-erase a r))

loop-Split :
    (g : ℕ → List Action) (rest : List ℕ)
    → ((a : ℕ) → spares rest (g a) ≡ true)
    → (fuel : ℕ) (l : AbortList) (d r : List ℕ) → length r < fuel
    → Split l d r rest
    → (v : List ℕ) × (l' : AbortList) × (d' : List ℕ) × (each_loop fuel g l ≡ some (v, l'))
      × Split l' d' [] rest
unfolding each_loop
loop-Split g rest ok zero l d r lt v = absurd (omega arith)
loop-Split g rest ok (suc fuel) l d [] lt v =
    let e : (l.cursor == 0) ≡ true = (==_iff l.cursor 0).1 v.list.cursor in ([], l, d, rw e, v)
loop-Split g rest ok (suc fuel) l d (x ∷ r) lt v =
    let (here, ne, w) = advance-Holds l d x r v.list in
    let moved : AbortList = record l { cursor = (l.heap l.cursor).next } in
    let (d1, r1, s1, fewer) =
      acts-Split moved (d ++ x ∷ []) r rest (g l.cursor) (ok l.cursor)
        (record { list = w; front = v.front; ends = append_assoc d (x ∷ []) r ∙ v.ends }) in
    let (vs, l', d', e, s') =
      loop-Split g rest ok fuel (acts moved (g l.cursor)) d1 r1 (omega arith) s1 in
    let test : (l.cursor == 0) ≡ false = eq_of_ne l.cursor 0 (λ z. ne (sym here ∙ z)) in
    (l.cursor ∷ vs, l', d', rw (test, e), s')

-- The walk ends where the list does, and its cursor is put back before `rest`.
pub each-Split :
    (g : ℕ → List Action) (l : AbortList) (front rest : List ℕ)
    → ((a : ℕ) → spares rest (g a) ≡ true)
    → Holds l front rest
    → (fuel : ℕ) × (v : List ℕ) × (l' : AbortList) × (front' : List ℕ) × (each fuel g l
        ≡ some (v, l'))
      × Holds l' front' rest
unfolding each
each-Split g l front rest ok h =
    let all : List ℕ = front ++ rest in
    let (v, l', d', e, s) =
      loop-Split g rest ok (suc (length all)) (record l { cursor = l.head }) [] all (omega arith)
        (record {
          list = record {
            self = h.self;
            head = h.head;
            links = h.links;
            cursor = h.head;
            owned = h.owned;
          };
          front = front;
          ends = refl;
        }) in
    let same : d' ++ [] ≡ s.front ++ rest = s.ends in
    (
      suc (length all),
      v,
      record l' { cursor = l.cursor },
      s.front,
      rw (e, each),
      record {
        self = s.list.self;
        head = s.list.head ∙ ap head_of same;
        links = rw same at (s.list.links);
        cursor = h.cursor;
        owned = rw same at (s.list.owned);
      },
    )
