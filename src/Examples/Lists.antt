-- ===== src/Examples/Lists.antt =====
-- reactor.h: an `AbortList` of two nodes.
use reactor.Prelude.{ℕ, ◌≡◌, refl, List, [], ◌∷◌, some, arith, ◌==◌, if◌then◌else◌}
use reactor.AbortList.{AbortList, Heap, node, Action, track, untrack, each}
use reactor.AbortList.Nested.{Deed, does, walks, nested_each}
use reactor.AbortList.Nested.Stale.{stale-visit}
use reactor.AbortList.Nested.Visits.{Careful, AllCareful, direct, nested-visits}
use reactor.AbortList.Ops.{Holds}
use reactor.AbortList.Each.{visits, each-visits}

-- Nodes 2 and 3 in list 9, and node 4 in none.
abbrev heap : Heap
heap a = if a == 2 then node 9 0 3 else if a == 3 then node 9 2 0 else node 0 0 0

abbrev pub two : AbortList
two = record { heap = heap; self = 9; head = 2; cursor = 0 }

pub two-Holds : Holds two (2 ∷ 3 ∷ []) []
two-Holds = record {
  self = omega arith;
  head = refl;
  links = ((omega arith), refl, refl, (omega arith, refl, refl, tt));
  cursor = refl;
  owned = λ a h. ground arith;
}

-- The callback of the first node untracks the second and tracks another.
abbrev callback : ℕ → List Action
callback a = if a == 2 then untrack 3 ∷ track 4 ∷ [] else []

each-visits_example :
    (l' : AbortList) × (ys : List ℕ) × (each 3 callback two
      ≡ some (visits callback [] (2 ∷ 3 ∷ []), l'))
    × Holds l' ys []
each-visits_example = each-visits callback (2 ∷ 3 ∷ []) two two-Holds

-- The callback of the first node walks the list, with a callback that tracks a node, and then
-- untracks the second node itself.
abbrev walking : ℕ → List Deed
walking a = if a == 2 then walks (λ b. track 4 ∷ []) ∷ does (untrack 3) ∷ [] else []

walking-AllCareful : AllCareful walking (2 ∷ 3 ∷ [])
unfolding Careful AllCareful
walking-AllCareful = (((λ a. refl), tt), (tt, tt))

nested-visits_example :
    (inner : ℕ) × (l' : AbortList) × (ys : List ℕ) × (nested_each inner 3 walking two
      ≡ some (visits (λ a. direct (walking a)) [] (2 ∷ 3 ∷ []), l'))
    × Holds l' ys []
nested-visits_example = nested-visits walking (2 ∷ 3 ∷ []) two walking-AllCareful two-Holds

-- The callback of the first node walks the list, with a callback that untracks the second node.
abbrev undermining : ℕ → List Deed
undermining a = if a == 2 then walks (λ b. untrack 3 ∷ []) ∷ [] else []

stale-visit_example :
    (inner : ℕ) × (l' : AbortList) × (nested_each inner 3 undermining two ≡ some (2 ∷ 3 ∷ [], l'))
    × (l'.heap 3 ≡ node 0 0 0)
    × Holds l' (2 ∷ []) []
stale-visit_example = stale-visit undermining 2 3 [] two refl refl two-Holds
