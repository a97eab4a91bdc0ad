-- ===== src/AbortList/Ops.antt =====
-- `AbortList::add` as an operation on the list of nodes, also in the middle of a walk.
use reactor.Prelude.{
  ℕ, ◌≡◌, ◌≢◌, refl, sym, ap, subst, ◌∙◌, true, false, ◌||◌, List, [], ◌∷◌, ◌++◌, arith, ℕ_discrete,
  Bool-cases, inl, inr,
}
use reactor.AbortList.{AbortList, node, Node, Heap, link, add}
use reactor.AbortList.Links.{
  has_here, has_there, has_out, head-cases, has, erase, head_of, Links, Links-frame, Links-Hooks,
  has-ne,
}

-- The list holds the nodes `done ++ rest`, and the walk stands before `rest`.
pub record Holds (l : AbortList) (done rest : List ℕ) : Type 0 where
  pub self : l.self ≢ 0
  pub head : l.head ≡ head_of (done ++ rest)
  pub links : Links l.heap l.self 0 (done ++ rest)
  pub cursor : l.cursor ≡ head_of rest
  pub owned : (a : ℕ) → (l.heap a).list ≡ l.self → has a (done ++ rest) ≡ true

pub has-append : (a : ℕ) (xs ys : List ℕ) → has a (xs ++ ys) ≡ (has a xs || has a ys)
has-append a [] ys = refl
has-append a (x ∷ xs) ys = ground (arith, has-append a xs ys)

pub erase-append : (a : ℕ) (xs ys : List ℕ) → erase a (xs ++ ys) ≡ erase a xs ++ erase a ys
erase-append a [] ys = refl
erase-append a (x ∷ xs) ys = ground (arith, erase-append a xs ys)

pub zero_out : (h : Heap) (self prev : ℕ) (xs : List ℕ) → Links h self prev xs → has 0 xs ≡ false
zero_out h self prev xs l = elim (Bool-cases (has 0 xs)) [
  | inl i ↦ absurd ((Links-Hooks h self prev xs 0 l i).not_null refl)
  | inr o ↦ o
]

pub has-erase_self : (a : ℕ) (xs : List ℕ) → has a (erase a xs) ≡ false
has-erase_self a [] = refl
has-erase_self a (x ∷ xs) = ground (arith, has-erase_self a xs)

pub has-erase_ne : (a b : ℕ) (xs : List ℕ) → b ≢ a → has b xs ≡ true → has b (erase a xs) ≡ true
has-erase_ne a b [] ne h = h
has-erase_ne a b (x ∷ xs) ne h = ground (arith, has-erase_ne a b xs ne)

module _ (h : Heap) (self head a : ℕ) where
  link_self : a ≢ head → link h self head a a ≡ node self 0 head
  unfolding link
  link_self n = ground arith

  link_head : a ≢ head → head ≢ 0 → link h self head a head ≡ record (h head) { prev = a }
  unfolding link
  link_head n z = ground arith

  link_other : (b : ℕ) → b ≢ a → b ≢ head → link h self head a b ≡ h b
  unfolding link
  link_other b n z = ground arith

  link_null : (b : ℕ) → b ≢ a → head ≡ 0 → link h self head a b ≡ h b
  unfolding link
  link_null b n z = ground arith

Links-link :
    (h : Heap) (self a : ℕ) (xs : List ℕ)
    → Links h self 0 xs
    → a ≢ 0
    → has a xs ≡ false
    → Links (link h self (head_of xs) a) self 0 (a ∷ xs)
Links-link h self a [] l ne out = (ne, link_self h self 0 a ne, refl, tt)
Links-link h self a (y ∷ ys) (ney, ey, outy, ly) ne out =
    let o = has_out a y ys out in
    (
      ne,
      link_self h self y a o.0,
      out,
      (
        ney,
        link_head h self y a o.0 ney ∙ ap (λ (n : Node). record n { prev = a }) ey,
        outy,
        Links-frame h (link h self y a) self y ys ly
            (λ b i. link_other h self y a b (has-ne b a ys i o.1) (has-ne b y ys i outy)),
      ),
    )

owned-link :
    (h : Heap) (self a b : ℕ) (xs : List ℕ)
    → ((c : ℕ) → (h c).list ≡ self → has c xs ≡ true)
    → (link h self (head_of xs) a b).list ≡ self
    → has b (a ∷ xs) ≡ true
owned-link h self a b xs owned e = elim (ℕ_discrete b a) [
  | yes here ↦ has_here b a xs here
  | no n ↦ has_there b a xs (elim (ℕ_discrete b (head_of xs)) [
    | yes first ↦ elim (head-cases xs) [
      | inl z ↦
          owned b (ap (λ (m : Node). m.list) (sym (link_null h self (head_of xs) a b n z)) ∙ e)
      | inr i ↦ ap (λ c. has c xs) first ∙ i
    ]
    | no m ↦ owned b (ap (λ (m : Node). m.list) (sym (link_other h self (head_of xs) a b n m)) ∙ e)
  ])
]

-- `add` puts a node that is in no list in front; a walk does not meet it.
pub add-Holds :
    (a : ℕ) (l : AbortList) (done rest : List ℕ)
    → Holds l done rest
    → a ≢ 0
    → (l.heap a).list ≡ 0
    → Holds (add a l) (a ∷ done) rest
unfolding add
add-Holds a l done rest v ne free =
    let xs : List ℕ = done ++ rest in
    let out : has a xs ≡ false = elim (Bool-cases (has a xs)) [
      | inl i ↦ absurd (v.self (sym (Links-Hooks l.heap l.self 0 xs a v.links i).list ∙ free))
      | inr o ↦ o
    ] in
    record {
      self = v.self;
      head = refl;
      links =
          subst (λ q. Links (link l.heap l.self q a) l.self 0 (a ∷ xs)) (sym v.head)
            (Links-link l.heap l.self a xs v.links ne out);
      cursor = v.cursor;
      owned = λ b e.
          owned-link l.heap l.self a b xs v.owned
            (subst (λ q. (link l.heap l.self q a b).list ≡ l.self) v.head e);
    }
