-- ===== src/TcpServer/Forced.antt =====
-- reactor.h: `TcpServer::stop` forces what the grace leaves.
use reactor.Prelude.{
  ℕ, zero, suc, ◌+◌, ◌≡◌, ◌<◌, ◌≤◌, ◌⊎◌, ◌↔◌, inl, inr, refl, sym, subst, ◌∙◌, Bool, true, false,
  ◌&&◌, List, [], ◌∷◌, ◌++◌, arith, Bool-cases, if◌then◌else◌, total, ◌==◌, false≢true,
}
use reactor.TcpServer.{
  Server, Effect, Accept, for_each, for_accepts, shutdown, sessions_end, abort_all, stop_accept,
  wait_accept, await_sessions, force_all, await_again, stop_lag, stop_io, join,
}

-- How often an effect forces reactor `r`.
abbrev pub forcing : ℕ → Effect → ℕ
forcing r (force_all q) = if q == r then 1 else 0
forcing r _ = 0

total-append : (w : Effect → ℕ) (xs ys : List Effect) → total w (xs ++ ys) ≡ total w xs + total w ys
total-append w [] ys = omega arith
total-append w (x ∷ xs) ys = omega (arith, total-append w xs ys)

for_each-none :
    (w : Effect → ℕ) (f : ℕ → List Effect)
    → ((q : ℕ) → total w (f q) ≡ 0)
    → (k i : ℕ) → total w (for_each f k i) ≡ 0
for_each-none w f h zero i = refl
for_each-none w f h (suc k) i =
    total-append w (f i) (for_each f k (i + 1)) ∙ omega (arith, h i, for_each-none w f h k (i + 1))

for_accepts-none :
    (w : Effect → ℕ) (f : Accept → Effect)
    → ((a : Accept) → w (f a) ≡ 0)
    → (as' : List Accept) → total w (for_accepts f as') ≡ 0
for_accepts-none w f h [] = refl
for_accepts-none w f h (a ∷ as') = omega (arith, h a, for_accepts-none w f h as')

le-cases : (i q : ℕ) → i ≤ q → (i ≡ q) ⊎ (i + 1 ≤ q)
le-cases i q le = ground arith

forces :
    (r k i : ℕ)
    → (total (forcing r) (for_each (λ q. force_all q ∷ []) k i) ≡ 1) × (i ≤ r) × (r < i + k)
      ⊎ (total (forcing r) (for_each (λ q. force_all q ∷ []) k i) ≡ 0) × ((r < i) ⊎ (i + k ≤ r))
forces r zero i = ground arith
forces r (suc k) i = ground (arith, forces r k (i + 1))

-- The sessions ended when those of every reactor did.
drained_lem :
    (ended : ℕ → Bool) (k i : ℕ) (drained : Bool)
    → sessions_end ended k i drained ≡ true
    → drained ≡ true
unfolding sessions_end
drained_lem ended zero i drained h = h
drained_lem ended (suc k) i drained h =
    ground (arith, drained_lem ended k (i + 1) (ended i && drained) h)

-- No number is in an empty range.
apart : {i q : ℕ} → i ≤ q → q < i + 0 → ⊥
apart le lt = omega arith

ended_lem :
    (ended : ℕ → Bool) (k i : ℕ) (drained : Bool) (q : ℕ)
    → sessions_end ended k i drained ≡ true
    → i ≤ q
    → q < i + k
    → ended q ≡ true
unfolding sessions_end
ended_lem ended zero i drained q h le lt = absurd (apart le lt)
ended_lem ended (suc k) i drained q h le lt = elim (le-cases i q le) [
  | inl same ↦
      subst (λ j. ended j ≡ true) same
        (ground (arith, drained_lem ended k (i + 1) (ended i && drained) h))
  | inr later ↦ ended_lem ended k (i + 1) (ended i && drained) q h (omega arith) (omega arith)
]

-- And otherwise some reactor's did not.
late_lem :
    (ended : ℕ → Bool) (k i : ℕ) (drained : Bool)
    → sessions_end ended k i drained ≡ false
    → (drained ≡ false) ⊎ ((q : ℕ) × (i ≤ q) × (q < i + k) × (ended q ≡ false))
unfolding sessions_end
late_lem ended zero i drained h = inl h
late_lem ended (suc k) i drained h = elim (late_lem ended k (i + 1) (ended i && drained) h) [
  | inr (q, le, lt, e) ↦ inr (q, omega arith, omega arith, e)
  | inl f ↦ elim (Bool-cases (ended i)) [
    | inl t ↦ inl (ground arith)
    | inr e ↦ inr (i, omega arith, omega arith, e)
  ]
]

apart-zero : {n : ℕ} → n ≡ 0 → n ≡ 1 → ⊥
apart-zero z one = omega arith

skip : (w : Effect → ℕ) (xs ys : List Effect) → total w xs ≡ 0 → total w (xs ++ ys) ≡ total w ys
skip w xs ys e = omega (arith, total-append w xs ys)

forcing-shutdown :
    (ended : ℕ → Bool) (s : Server) (r : ℕ)
    → r < s.reactors
    → total (forcing r) (shutdown ended s) ≡ (if sessions_end ended s.reactors 0 true then 0 else 1)
unfolding shutdown
forcing-shutdown ended s r lt =
    let n = s.reactors in
    let w = forcing r in
    let tail = for_each-none w (λ q. stop_lag q ∷ stop_io q ∷ []) (λ q. refl) n 0 in
    let joins = for_each-none w (λ t. join t ∷ []) (λ t. refl) s.threads 0 in
    let again = for_each-none w (λ q. await_again q ∷ []) (λ q. refl) n 0 in
    let ends = skip w (for_each (λ q. stop_lag q ∷ stop_io q ∷ []) n 0) _ tail ∙ joins in
    skip w (for_each (λ q. abort_all q ∷ []) n 0) _
      (for_each-none w (λ q. abort_all q ∷ []) (λ q. refl) n 0)
    ∙ (skip w (for_accepts stop_accept s.accepts) _
          (for_accepts-none w stop_accept (λ a. refl) s.accepts)
        ∙ (skip w (for_accepts wait_accept s.accepts) _
              (for_accepts-none w wait_accept (λ a. refl) s.accepts)
            ∙ (skip w (for_each (λ q. await_sessions q ∷ []) n 0) _
                  (for_each-none w (λ q. await_sessions q ∷ []) (λ q. refl) n 0)
                ∙ elim (Bool-cases (sessions_end ended n 0 true)) [
                  | inl e ↦ rw e (omega (arith, ends))
                  | inr e ↦ rw e (
                      total-append w
                        (for_each (λ q. force_all q ∷ []) n 0
                          ++ for_each (λ q. await_again q ∷ []) n 0)
                        _
                      ∙ ground (
                        arith,
                        ends,
                        again,
                        forces r n 0,
                        total-append w (for_each (λ q. force_all q ∷ []) n 0)
                            (for_each (λ q. await_again q ∷ []) n 0),
                      ))
                ])))

-- A shutdown forces a reactor once if the sessions of any reactor did not end within the first
-- grace, and never otherwise.
pub forced_once :
    (ended : ℕ → Bool) (s : Server) (r : ℕ)
    → r < s.reactors
    → (total (forcing r) (shutdown ended s) ≤ 1)
      × ((total (forcing r) (shutdown ended s) ≡ 1)
          ↔ ((q : ℕ) × (q < s.reactors) × (ended q ≡ false)))
forced_once ended s r lt =
    let e = forcing-shutdown ended s r lt in
    elim (Bool-cases (sessions_end ended s.reactors 0 true)) [
      | inl all ↦ (
        ground (arith, e, all),
        (
          (λ one. absurd (apart-zero (ground (arith, e, all)) one)),
          (λ (q, below, f). absurd (
              false≢true
                (sym f ∙ ended_lem ended s.reactors 0 true q all (omega arith) (omega arith)))),
        ),
      )
      | inr late ↦ (
        ground (arith, e, late),
        (
          (λ one. elim (late_lem ended s.reactors 0 true late) [
            | inl f ↦ absurd (false≢true (sym f))
            | inr (q, le, below, f) ↦ (q, omega arith, f)
          ]),
          (λ w. ground (arith, e, late)),
        ),
      )
    ]
