-- ===== src/AbortList/Unlink.antt =====
-- Unlinking a node of a chain.
use reactor.Prelude.{
  ℕ, ◌≡◌, ◌≢◌, ◌⊎◌, sym, ap, false≢true, ◌∙◌, true, false, List, [], ◌∷◌, arith, ◌==◌, ==_iff,
  Bool-cases, inl, inr,
}
use reactor.AbortList.{node, Node, Heap, unlink}
use reactor.AbortList.Links.{
  has, erase, head_of, Links, Links-frame, has-erase, erase_absent, has_out, has-ne, Links-Hooks,
  unlink_other, unlink_before, unlink_behind,
}

-- A node outside `xs` is neither null's neighbour nor one of `xs`.
ne_behind : (b x : ℕ) (xs : List ℕ) → x ≢ 0 → has x xs ≡ false → (b ≡ 0) ⊎ (has b xs ≡ true) → x ≢ b
ne_behind b x xs ne out (inl z) e = ne (e ∙ z)
ne_behind b x xs ne out (inr i) e = has-ne b x xs i out (sym e)

-- The first node goes: the second one takes its place behind `prev`.
unlink_first :
    (h : Heap) (self prev a : ℕ) (xs : List ℕ)
    → Links h self prev (a ∷ xs)
    → has prev (a ∷ xs) ≡ false
    → Links (unlink h a) self prev xs
unlink_first h self prev a [] l p = tt
unlink_first h self prev a (y ∷ ys) (ne, e, out, (ney, ey, outy, ly)) p =
    let out_y = has_out a y ys out in
    let p_y = has_out prev y ys (has_out prev a (y ∷ ys) p).1 in
    let before : (h a).prev ≡ prev = ap (λ n. n.prev) e in
    let behind : (h a).next ≡ y = ap (λ n. n.next) e in
    (
      ney,
      unlink_behind h a y (λ z. out_y.0 (sym z)) ney (λ z. p_y.0 (sym (z ∙ before))) (sym behind)
          ∙ ap (λ (n : Node). record n { prev = (h a).prev }) ey
          ∙ ap (λ q. node self q (head_of ys)) before,
      outy,
      Links-frame h (unlink h a) self y ys ly (λ b i.
          unlink_other h a b (has-ne b a ys i out_y.1) (Links-Hooks h self y ys b ly i).not_null
            (λ z. has-ne b prev ys i p_y.1 (z ∙ before)) (λ z. has-ne b y ys i outy (z ∙ behind))),
    )

-- A later node goes: the first one keeps its place.
kept_first :
    (h : Heap) (self prev x a : ℕ) (xs : List ℕ)
    → Links h self prev (x ∷ xs)
    → has a xs ≡ true
    → unlink h a x ≡ node self prev (head_of (erase a xs))
kept_first h self prev x a [] l m = cc
kept_first h self prev x a (y ∷ ys) (ne, e, out, l) m =
    let r = Links-Hooks h self x (y ∷ ys) a l m in
    let x_ne_a : x ≢ a = λ z. has-ne a x (y ∷ ys) m out (sym z) in
    let not_behind : x ≢ (h a).next = ne_behind (h a).next x (y ∷ ys) ne out r.behind in
    elim (Bool-cases (a == y)) [
      | inl here ↦
          let a_is_y : a ≡ y = (==_iff a y).0 here in
          let ea : h a ≡ node self x (head_of ys) = ap h a_is_y ∙ l.1 in
          let absent : has a ys ≡ false = ap (λ c. has c ys) a_is_y ∙ l.2 in
          rw (here, erase_absent a ys absent)
            (unlink_before h a x x_ne_a ne (sym (ap (λ n. n.prev) ea)) not_behind
              ∙ ap (λ (n : Node). record n { next = (h a).next }) e
              ∙ ap (λ q. node self prev q) (ap (λ n. n.next) ea))
      | inr later ↦
          let not_before : x ≢ (h a).prev = elim r.before [
            | inl (_, first) ↦ λ _. false≢true (sym later ∙ (==_iff a y).1 first)
            | inr i ↦ λ z. has-ne (h a).prev x (y ∷ ys) i out (sym z)
          ] in
          rw later (unlink_other h a x x_ne_a ne not_before not_behind ∙ e)
    ]

-- Unlinking a node of the chain leaves the others linked in order.
pub Links-unlink :
    (h : Heap) (self prev : ℕ) (xs : List ℕ) (a : ℕ)
    → Links h self prev xs
    → has a xs ≡ true
    → has prev xs ≡ false
    → Links (unlink h a) self prev (erase a xs)
Links-unlink h self prev [] a l m p = cc
Links-unlink h self prev (x ∷ xs) a l m p = elim (Bool-cases (a == x)) [
  | inl here ↦
      let a_is_x : a ≡ x = (==_iff a x).0 here in
      let absent : has a xs ≡ false = ap (λ c. has c xs) a_is_x ∙ l.2 in
      rw (here, erase_absent a xs absent, a_is_x) (unlink_first h self prev x xs l p)
  | inr later ↦
      let m' : has a xs ≡ true = ground arith in
      rw later (
        l.0,
        kept_first h self prev x a xs l m',
        has-erase a x xs l.2,
        Links-unlink h self x xs a l.3 m' l.2,
      )
]
