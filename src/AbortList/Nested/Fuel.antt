-- ===== src/AbortList/Nested/Fuel.antt =====
-- More fuel does not change what a walk returns.
use reactor.Prelude.{
  ℕ, zero, suc, ◌≤◌, ◌≡◌, List, [], ◌∷◌, arith, ◌==◌, some, Bool-cases, inl, inr, Option-cases,
}
use reactor.AbortList.{AbortList, Action, act, acts, each_loop, each}
use reactor.AbortList.Nested.{Deed, does, walks, deeds, nested_loop}

each_loop-more :
    (less more : ℕ) (g : ℕ → List Action) (l : AbortList) (r : List ℕ × AbortList)
    → less ≤ more
    → each_loop less g l ≡ some r
    → each_loop more g l ≡ some r
unfolding each_loop
each_loop-more zero more g l r le e = absurd (grind arith)
each_loop-more (suc less) zero g l r le e = absurd (omega arith)
each_loop-more (suc less) (suc more) g l r le e = elim (Bool-cases (l.cursor == 0)) [
  | inl last ↦ rw last (rw last at e)
  | inr here ↦
      let after : AbortList = acts (record l { cursor = (l.heap l.cursor).next }) (g l.cursor) in
      elim (Option-cases (each_loop less g after)) [
        | inl out ↦ absurd (grind (arith, rw (here, out) at e))
        | inr (q, run) ↦
            rw (here, each_loop-more less more g after q (omega arith) run) (rw (here, run) at e)
      ]
]

pub each-more :
    (less more : ℕ) (g : ℕ → List Action) (l : AbortList) (r : List ℕ × AbortList)
    → less ≤ more
    → each less g l ≡ some r
    → each more g l ≡ some r
unfolding each
each-more less more g l r le e =
    let l0 : AbortList = record l { cursor = l.head } in
    elim (Option-cases (each_loop less g l0)) [
      | inl out ↦ absurd (grind (arith, rw (each, out) at e))
      | inr (q, run) ↦ rw (each, each_loop-more less more g l0 q le run) (rw (each, run) at e)
    ]

pub deeds-more :
    (less more : ℕ) (ds : List Deed) (l : AbortList) (l' : AbortList)
    → less ≤ more
    → deeds less l ds ≡ some l'
    → deeds more l ds ≡ some l'
unfolding deeds
deeds-more less more [] l l' le e = e
deeds-more less more (does a ∷ ds) l l' le e = deeds-more less more ds (act l a) l' le e
deeds-more less more (walks g ∷ ds) l l' le e = elim (Option-cases (each less g l)) [
  | inl out ↦ absurd (grind (arith, rw (deeds, out) at e))
  | inr ((v, m), run) ↦
      let rest : deeds less m ds ≡ some l' = rw (deeds, run) at e in
      rw (deeds, each-more less more g l (v, m) le run) (deeds-more less more ds m l' le rest)
]

pub nested_loop-more :
    (less more fuel : ℕ) (f : ℕ → List Deed) (l : AbortList) (r : List ℕ × AbortList)
    → less ≤ more
    → nested_loop less fuel f l ≡ some r
    → nested_loop more fuel f l ≡ some r
unfolding nested_loop
nested_loop-more less more zero f l r le e = absurd (grind arith)
nested_loop-more less more (suc fuel) f l r le e = elim (Bool-cases (l.cursor == 0)) [
  | inl last ↦ rw last (rw last at e)
  | inr here ↦
      let moved : AbortList = record l { cursor = (l.heap l.cursor).next } in
      elim (Option-cases (deeds less moved (f l.cursor))) [
        | inl out ↦ absurd (grind (arith, rw (here, out) at e))
        | inr (m, done) ↦ elim (Option-cases (nested_loop less fuel f m)) [
          | inl out ↦ absurd (grind (arith, rw (here, done, out) at e))
          | inr (q, run) ↦
              rw
                (
                  here,
                  deeds-more less more (f l.cursor) moved m le done,
                  nested_loop-more less more fuel f m q le run,
                )
                (rw (here, done, run) at e)
        ]
      ]
]
