-- ===== src/AbortList/Links.antt =====
-- A chain of nodes with hooks both ways, and what unlinking a node does to it.
use reactor.Prelude.{
  ℕ, ◌≡◌, ◌≢◌, ◌⊎◌, refl, Bool, true, false, ◌||◌, List, [], ◌∷◌, arith, if◌then◌else◌, ◌==◌,
  Bool-cases, inl, inr, ◌∙◌, ==_iff, sym, ap, false≢true,
}
use reactor.AbortList.{node, Heap, unlink}

abbrev pub has : ℕ → List ℕ → Bool
has a [] = false
has a (x ∷ xs) = (a == x) || has a xs

abbrev pub erase : ℕ → List ℕ → List ℕ
erase a [] = []
erase a (x ∷ xs) = if a == x then erase a xs else x ∷ erase a xs

abbrev pub head_of : List ℕ → ℕ
head_of [] = 0
head_of (x ∷ xs) = x

-- The distinct nodes `xs` of list `self` are linked both ways, in order, behind the node `prev`.
abbrev pub Links : Heap → ℕ → ℕ → List ℕ → Type 0
Links h self prev [] = Unit
Links h self prev (x ∷ xs) =
    (x ≢ 0) × (h x ≡ node self prev (head_of xs)) × (has x xs ≡ false) × Links h self x xs

-- A chain survives any change that spares its own nodes.
pub Links-frame :
    (h g : Heap) (self prev : ℕ) (xs : List ℕ)
    → Links h self prev xs
    → ((a : ℕ) → has a xs ≡ true → g a ≡ h a)
    → Links g self prev xs
Links-frame h g self prev [] l same = tt
Links-frame h g self prev (x ∷ xs) (ne, e, out, l) same =
    (ne, same x (ground arith) ∙ e, out, Links-frame h g self x xs l (λ a m. same a (ground arith)))

pub has-head : (xs : List ℕ) → head_of xs ≢ 0 → has (head_of xs) xs ≡ true
has-head [] h = absurd (h refl)
has-head (x ∷ xs) h = ground arith

pub has-erase : (a b : ℕ) (xs : List ℕ) → has b xs ≡ false → has b (erase a xs) ≡ false
has-erase a b [] h = refl
has-erase a b (x ∷ xs) h = ground (arith, has-erase a b xs)

pub erase_absent : (a : ℕ) (xs : List ℕ) → has a xs ≡ false → erase a xs ≡ xs
erase_absent a [] h = refl
erase_absent a (x ∷ xs) h = ground (arith, erase_absent a xs)

pub has_here : (b x : ℕ) (xs : List ℕ) → b ≡ x → has b (x ∷ xs) ≡ true
has_here b x xs h = ground arith

pub has_there : (b x : ℕ) (xs : List ℕ) → has b xs ≡ true → has b (x ∷ xs) ≡ true
has_there b x xs h = ground arith

pub has_out : (b x : ℕ) (xs : List ℕ) → has b (x ∷ xs) ≡ false → (b ≢ x) × (has b xs ≡ false)
has_out b x xs h = ground arith

pub has-ne : (a b : ℕ) (xs : List ℕ) → has a xs ≡ true → has b xs ≡ false → a ≢ b
has-ne a b xs m o e = false≢true (sym o ∙ ap (λ c. has c xs) (sym e) ∙ m)

pub head-cases : (xs : List ℕ) → (head_of xs ≡ 0) ⊎ (has (head_of xs) xs ≡ true)
head-cases [] = inl refl
head-cases (x ∷ xs) = inr (has_here x x xs refl)

-- The hooks of the node `a` of a chain that begins behind `prev`.
pub record Hooks (h : Heap) (self prev : ℕ) (xs : List ℕ) (a : ℕ) : Type 0 where
  pub not_null : a ≢ 0
  pub list : (h a).list ≡ self
  pub before : (((h a).prev ≡ prev) × (a ≡ head_of xs)) ⊎ (has (h a).prev xs ≡ true)
  pub behind : ((h a).next ≡ 0) ⊎ (has (h a).next xs ≡ true)

pub Links-Hooks :
    (h : Heap) (self prev : ℕ) (xs : List ℕ) (a : ℕ)
    → Links h self prev xs
    → has a xs ≡ true
    → Hooks h self prev xs a
Links-Hooks h self prev [] a l m = cc
Links-Hooks h self prev (x ∷ xs) a (ne, e, out, l) m = elim (Bool-cases (a == x)) [
  | inl here ↦
      let a_is_x : a ≡ x = (==_iff a x).0 here in
      let ea : h a ≡ node self prev (head_of xs) = ap h a_is_x ∙ e in
      record {
        not_null = λ z. ne (sym a_is_x ∙ z);
        list = ap (λ n. n.list) ea;
        before = inl (ap (λ n. n.prev) ea, a_is_x);
        behind = elim (head-cases xs) [
          | inl z ↦ inl (ap (λ n. n.next) ea ∙ z)
          | inr i ↦ inr (has_there (h a).next x xs (ap (λ n. has n.next xs) ea ∙ i))
        ];
      }
  | inr later ↦
      let r = Links-Hooks h self x xs a l (ground arith) in
      record {
        not_null = r.not_null;
        list = r.list;
        before = inr (elim r.before [
          | inl (p, _) ↦ has_here (h a).prev x xs p
          | inr i ↦ has_there (h a).prev x xs i
        ]);
        behind = elim r.behind [ inl z ↦ inl z | inr i ↦ inr (has_there (h a).next x xs i) ];
      }
]

-- What `unlink` leaves in the hooks of another node.
module _ (h : Heap) (a b : ℕ) (ne : b ≢ a) where
  pub unlink_other : b ≢ 0 → b ≢ (h a).prev → b ≢ (h a).next → unlink h a b ≡ h b
  unfolding unlink
  unlink_other z p q = ground arith

  pub unlink_before :
      b ≢ 0 → b ≡ (h a).prev → b ≢ (h a).next → unlink h a b ≡ record (h b) { next = (h a).next }
  unfolding unlink
  unlink_before z p q = ground arith

  pub unlink_behind :
      b ≢ 0 → b ≢ (h a).prev → b ≡ (h a).next → unlink h a b ≡ record (h b) { prev = (h a).prev }
  unfolding unlink
  unlink_behind z p q = ground arith
