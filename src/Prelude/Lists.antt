-- ===== src/Prelude/Lists.antt =====
-- Lists measured and indexed by native numbers, with sums and predicates over their items.
use Prim.Native.Nat.{ℕ, zero, suc, ◌+◌, ◌≤◌, ◌<◌}
use mathlib.Core.Path.{◌≡◌, refl, ap}
use mathlib.Core.Logic.{◌≢◌}
use mathlib.Core.List.{List, [], ◌∷◌, ◌++◌}
use mathlib.Core.Option.{Option, none, some}
use native.Mathlib.Omega.{arith}

module _ {ℓ} {A : Type ℓ} where
  abbrev pub length : List A → ℕ
  length [] = 0
  length (x ∷ xs) = suc (length xs)

  abbrev pub get_elem? : List A → ℕ → Option A
  get_elem? [] i = none
  get_elem? (x ∷ xs) zero = some x
  get_elem? (x ∷ xs) (suc i) = get_elem? xs i

  -- A write out of bounds changes nothing.
  abbrev pub set : List A → ℕ → A → List A
  set [] i v = []
  set (x ∷ xs) zero v = v ∷ xs
  set (x ∷ xs) (suc i) v = x ∷ set xs i v

  pub length-append : (xs ys : List A) → length (xs ++ ys) ≡ length xs + length ys
  length-append [] ys = omega arith
  length-append (x ∷ xs) ys = omega (arith, length-append xs ys)

  -- The sum of the weights of the items.
  abbrev pub total : (A → ℕ) → List A → ℕ
  total w [] = 0
  total w (x ∷ xs) = w x + total w xs

  abbrev pub All {κ} : (A → Type κ) → List A → Type κ
  All P [] = Unit
  All P (x ∷ xs) = P x × All P xs

module _ {ℓ} {A : Type ℓ} where
  -- Replacing one item moves the sum by the difference of the two weights.
  pub total-set :
      (w : A → ℕ) (xs : List A) (i : ℕ) (a b : A)
      → get_elem? xs i ≡ some a
      → total w (set xs i b) + w a ≡ total w xs + w b
  total-set w [] i a b h = cc
  total-set w (x ∷ xs) zero a b h = ground arith
  total-set w (x ∷ xs) (suc i) a b h = omega (arith, total-set w xs i a b h)

  pub total-le-length : (w : A → ℕ) → ((a : A) → w a ≤ 1) → (xs : List A) → total w xs ≤ length xs
  total-le-length w small [] = omega arith
  total-le-length w small (x ∷ xs) = omega (arith, small x, total-le-length w small xs)

  pub total_mono : (v w : A → ℕ) → ((a : A) → v a ≤ w a) → (xs : List A) → total v xs ≤ total w xs
  total_mono v w small [] = omega arith
  total_mono v w small (x ∷ xs) = omega (arith, small x, total_mono v w small xs)

  pub length-set : (xs : List A) (i : ℕ) (b : A) → length (set xs i b) ≡ length xs
  length-set [] i b = refl
  length-set (x ∷ xs) zero b = refl
  length-set (x ∷ xs) (suc i) b = omega (arith, length-set xs i b)

  pub All-get {κ} :
      (P : A → Type κ) (xs : List A) (i : ℕ) (a : A) → All P xs → get_elem? xs i ≡ some a → P a
  All-get P [] i a all h = cc
  All-get P (x ∷ xs) zero a all h = ground arith
  All-get P (x ∷ xs) (suc i) a all h = All-get P xs i a all.1 h

  pub All-mono {κ} : (P Q : A → Type κ) (xs : List A) → ((a : A) → P a → Q a) → All P xs → All Q xs
  All-mono P Q [] f h = tt
  All-mono P Q (x ∷ xs) f h = (f x h.0, All-mono P Q xs f h.1)

  pub All-append {κ} : (P : A → Type κ) (xs ys : List A) → All P xs → All P ys → All P (xs ++ ys)
  All-append P [] ys a b = b
  All-append P (x ∷ xs) ys a b = (a.0, All-append P xs ys a.1 b)

  pub All-both {κ μ} :
      (P : A → Type κ) (Q : A → Type μ) (xs : List A)
      → All P xs
      → All Q xs
      → All (λ a. P a × Q a) xs
  All-both P Q [] p q = tt
  All-both P Q (x ∷ xs) p q = ((p.0, q.0), All-both P Q xs p.1 q.1)

  -- One item is replaced, and the others keep what they are known to satisfy.
  pub All-set {κ} :
      (P Q : A → Type κ)
      → ((a : A) → P a → Q a)
      → (xs : List A) (i : ℕ) (b : A) → All P xs
      → Q b
      → All Q (set xs i b)
  All-set P Q keep [] i b all q = tt
  All-set P Q keep (x ∷ xs) zero b all q = (q, All-mono P Q xs keep all.1)
  All-set P Q keep (x ∷ xs) (suc i) b all q = (keep x all.0, All-set P Q keep xs i b all.1 q)

  pub All-le-total : (w : A → ℕ) (xs : List A) → All (λ a. w a ≤ total w xs) xs
  All-le-total w [] = tt
  All-le-total w (x ∷ xs) =
      (omega arith, All-mono _ _ xs (λ a h. omega (arith, h)) (All-le-total w xs))

  pub total-eq-zero : (w : A → ℕ) (xs : List A) → All (λ a. w a ≡ 0) xs → total w xs ≡ 0
  total-eq-zero w [] h = refl
  total-eq-zero w (x ∷ xs) h = omega (arith, h.0, total-eq-zero w xs h.1)

  pub get-lt : (xs : List A) (i : ℕ) {a : A} → get_elem? xs i ≡ some a → i < length xs
  get-lt [] i h = cc
  get-lt (x ∷ xs) zero h = omega arith
  get-lt (x ∷ xs) (suc i) h = omega (arith, get-lt xs i h)

  pub get_elem?-set_self :
      (xs : List A) (i : ℕ) (b : A) → i < length xs → get_elem? (set xs i b) i ≡ some b
  get_elem?-set_self [] i b h = absurd (omega arith)
  get_elem?-set_self (x ∷ xs) zero b h = refl
  get_elem?-set_self (x ∷ xs) (suc i) b h = get_elem?-set_self xs i b (omega arith)

  pub set_get : (xs : List A) (i : ℕ) {a : A} → get_elem? xs i ≡ some a → set xs i a ≡ xs
  set_get [] i h = refl
  set_get (x ∷ xs) zero h = ground arith
  set_get (x ∷ xs) (suc i) h = rw (set_get xs i h)

  pub set-set : (xs : List A) (i : ℕ) (a b : A) → set (set xs i a) i b ≡ set xs i b
  set-set [] i a b = refl
  set-set (x ∷ xs) zero a b = refl
  set-set (x ∷ xs) (suc i) a b = rw (set-set xs i a b)

  pub get_elem?-set_ne :
      (xs : List A) (i j : ℕ) (b : A) → i ≢ j → get_elem? (set xs i b) j ≡ get_elem? xs j
  get_elem?-set_ne [] i j b h = refl
  get_elem?-set_ne (x ∷ xs) zero zero b h = absurd (h refl)
  get_elem?-set_ne (x ∷ xs) zero (suc j) b h = refl
  get_elem?-set_ne (x ∷ xs) (suc i) zero b h = refl
  get_elem?-set_ne (x ∷ xs) (suc i) (suc j) b h = get_elem?-set_ne xs i j b (λ e. h (ap suc e))

module _ {ℓ} {A : Type ℓ} where
  abbrev pub replicate : ℕ → A → List A
  replicate zero a = []
  replicate (suc n) a = a ∷ replicate n a

  abbrev pub take : ℕ → List A → List A
  take zero xs = []
  take (suc n) [] = []
  take (suc n) (x ∷ xs) = x ∷ take n xs
