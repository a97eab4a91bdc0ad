-- ===== src/AbortList/Removal.antt =====
-- `AbortList::remove` as an operation on the list of nodes, also in the middle of a walk.
use reactor.Prelude.{
  ℕ, ◌≡◌, ◌≢◌, ◌⊎◌, refl, sym, ap, ◌∙◌, true, false, false≢true, ◌||◌, List, [], ◌∷◌, ◌++◌, arith,
  ◌==◌, ==_iff, ℕ_discrete, Bool-cases, inl, inr, if◌then◌else◌,
}
use reactor.AbortList.{AbortList, node, Node, Heap, unlink, remove}
use reactor.AbortList.Links.{
  has_here, has_there, head-cases, has, erase, head_of, Links, Links-Hooks, has-ne, erase_absent,
}
use reactor.AbortList.Unlink.{Links-unlink}
use reactor.AbortList.Ops.{Holds, has-append, erase-append, zero_out, has-erase_ne}

-- What becomes of the first node when `a` goes.
head_erase :
    (h : Heap) (self prev a : ℕ) (xs : List ℕ)
    → Links h self prev xs
    → has a xs ≡ true
    → ((a ≡ head_of xs) × ((h a).prev ≡ prev) × ((h a).next ≡ head_of (erase a xs)))
      ⊎ ((a ≢ head_of xs) × (has (h a).prev xs ≡ true) × (head_of (erase a xs) ≡ head_of xs))
head_erase h self prev a [] l m = cc
head_erase h self prev a (x ∷ xs) l m = elim (Bool-cases (a == x)) [
  | inl here ↦
      let e : a ≡ x = (==_iff a x).0 here in
      let ea : h a ≡ node self prev (head_of xs) = ap h e ∙ l.1 in
      let absent : has a xs ≡ false = ap (λ c. has c xs) e ∙ l.2 in
      rw (here, erase_absent a xs absent)
        (inl (e, ap (λ (n : Node). n.prev) ea, ap (λ (n : Node). n.next) ea))
  | inr later ↦
      let r = Links-Hooks h self x xs a (l.3) (ground arith) in
      rw later (
        inr (
          λ e. false≢true (sym later ∙ (==_iff a x).1 e),
          elim r.before [
            | inl (p, _) ↦ has_here (h a).prev x xs p
            | inr i ↦ has_there (h a).prev x xs i
          ],
          refl,
        ))
]

pub suffix :
    (h : Heap) (self prev : ℕ) (xs ys : List ℕ)
    → Links h self prev (xs ++ ys)
    → (p : ℕ) × Links h self p ys
suffix h self prev [] ys l = (prev, l)
suffix h self prev (x ∷ xs) ys l = suffix h self x xs ys l.3

unlink-list : (h : Heap) (a b : ℕ) → b ≢ a → (unlink h a b).list ≡ (h b).list
unfolding unlink
unlink-list h a b n = ground arith

unlink-list_self : (h : Heap) (a : ℕ) → (unlink h a a).list ≡ 0
unfolding unlink
unlink-list_self h a = ground arith

pub eq_of_ne : (a b : ℕ) → a ≢ b → (a == b) ≡ false
eq_of_ne a b n = ground arith

-- The list's head when `a` goes.
first_erase :
    (h : Heap) (self a : ℕ) (xs : List ℕ)
    → Links h self 0 xs
    → has a xs ≡ true
    → (if (h a).prev == 0 then (h a).next else head_of xs) ≡ head_of (erase a xs)
first_erase h self a xs l m = elim (head_erase h self 0 a xs l m) [
  | inl (_, before, behind) ↦ rw ((==_iff (h a).prev 0).1 before) behind
  | inr (_, before, same) ↦
      let n = has-ne (h a).prev 0 xs before (zero_out h self 0 xs l) in
      rw (eq_of_ne (h a).prev 0 n) (sym same)
]

owned-unlink :
    (h : Heap) (self a b : ℕ) (xs : List ℕ)
    → self ≢ 0
    → ((c : ℕ) → (h c).list ≡ self → has c xs ≡ true)
    → (unlink h a b).list ≡ self
    → has b (erase a xs) ≡ true
owned-unlink h self a b xs s owned e = elim (ℕ_discrete b a) [
  | yes here ↦ absurd (s (sym e ∙ ap (λ c. (unlink h a c).list) here ∙ unlink-list_self h a))
  | no n ↦ has-erase_ne a b xs n (owned b (sym (unlink-list h a b n) ∙ e))
]

-- Where the walk goes on when `a` goes.
cursor_erase :
    (h : Heap) (self prev a : ℕ) (rest : List ℕ)
    → Links h self prev rest
    → a ≢ 0
    → (if head_of rest == a then (h a).next else head_of rest) ≡ head_of (erase a rest)
cursor_erase h self prev a rest l ne = elim (Bool-cases (has a rest)) [
  | inl i ↦ elim (head_erase h self prev a rest l i) [
    | inl (e, _, behind) ↦ rw ((==_iff (head_of rest) a).1 (sym e)) behind
    | inr (n, _, same) ↦ rw (eq_of_ne (head_of rest) a (λ e. n (sym e))) (sym same)
  ]
  | inr o ↦
      let n : head_of rest ≢ a = elim (head-cases rest) [
        | inl z ↦ λ e. ne (sym e ∙ z)
        | inr j ↦ has-ne (head_of rest) a rest j o
      ] in
      rw (erase_absent a rest o, eq_of_ne (head_of rest) a n)
]

module _ (a : ℕ) (l : AbortList) (done rest : List ℕ) (v : Holds l done rest) where
  abbrev all : List ℕ
  all = done ++ rest

  remove_member : (l.heap a).list ≡ l.self → Holds (remove a l) (erase a done) (erase a rest)
  unfolding remove
  remove_member mine =
      let m : has a all ≡ true = v.owned a mine in
      let r = Links-Hooks l.heap l.self 0 all a v.links m in
      let out : has 0 all ≡ false = zero_out l.heap l.self 0 all v.links in
      let test : ((l.heap a).list == l.self) ≡ true = (==_iff (l.heap a).list l.self).1 mine in
      let (p, behind) = suffix l.heap l.self 0 done rest v.links in
      rw test (record {
        self = v.self;
        head = rw (v.head, ← erase-append a done rest) (first_erase l.heap l.self a all v.links m);
        links = rw (← erase-append a done rest) (Links-unlink l.heap l.self 0 all a v.links m out);
        cursor = rw v.cursor (cursor_erase l.heap l.self p a rest behind r.not_null);
        owned =
            rw (← erase-append a done rest)
              (λ b e. owned-unlink l.heap l.self a b all v.self v.owned e);
      })

-- `remove` takes a node out of the list, wherever a walk stands, and leaves all else in order; a
-- node that is not in the list is left alone.
pub remove-Holds :
    (a : ℕ) (l : AbortList) (done rest : List ℕ)
    → Holds l done rest
    → Holds (remove a l) (erase a done) (erase a rest)
unfolding remove
remove-Holds a l done rest v = elim (ℕ_discrete (l.heap a).list l.self) [
  | yes mine ↦ remove_member a l done rest v mine
  | no other ↦
      let out : has a (done ++ rest) ≡ false = elim (Bool-cases (has a (done ++ rest))) [
        | inl i ↦ absurd (other (Links-Hooks l.heap l.self 0 (done ++ rest) a v.links i).list)
        | inr o ↦ o
      ] in
      let parts : (has a done || has a rest) ≡ false = sym (has-append a done rest) ∙ out in
      let out_done : has a done ≡ false = ground arith in
      let out_rest : has a rest ≡ false = ground arith in
      rw
        (
          eq_of_ne (l.heap a).list l.self other,
          erase_absent a done out_done,
          erase_absent a rest out_rest,
        )
        v
]
