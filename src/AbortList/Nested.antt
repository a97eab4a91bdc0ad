-- ===== src/AbortList/Nested.antt =====
-- `AbortList::each` where a callback walks the same list again, as a hook of `abort_all` that calls
-- `force_all` does.
pub mod Suffix
pub mod Fuel
pub mod Visits
pub mod Stale
use reactor.Prelude.{
  ℕ, zero, suc, ◌≡◌, Bool, true, false, Option, none, some, List, [], ◌∷◌, if◌then◌else◌, ◌==◌,
}
use reactor.AbortList.{AbortList, Action, act, acts, each}

-- What a callback of the outer walk does: it tracks or untracks a node, or walks the list with
-- callbacks of its own.
pub data Deed : Type 0 where
  does : Action → Deed
  walks : (ℕ → List Action) → Deed

-- `none`: out of fuel.
pub deeds : ℕ → AbortList → List Deed → Option AbortList
unfolding each
deeds fuel l [] = some l
deeds fuel l (does a ∷ ds) = deeds fuel (act l a) ds
deeds fuel l (walks g ∷ ds) = elim (each fuel g l) [
  | none ↦ none
  | some (visited, l') ↦ deeds fuel l' ds
]

-- The outer walk, where each inner one has the fuel `inner`.
pub nested_loop : (inner fuel : ℕ) → (ℕ → List Deed) → AbortList → Option (List ℕ × AbortList)
unfolding deeds
nested_loop inner zero f l = none
nested_loop inner (suc fuel) f l =
    let node : ℕ = l.cursor in
    let rest : Option (List ℕ × AbortList) =
      elim (deeds inner (record l { cursor = (l.heap node).next }) (f node)) [
        | none ↦ none
        | some l' ↦ nested_loop inner fuel f l'
      ] in
    if node == 0
    then some ([], l)
    else elim rest [ none ↦ none | some (visited, l') ↦ some (node ∷ visited, l') ]

pub nested_each : (inner fuel : ℕ) → (ℕ → List Deed) → AbortList → Option (List ℕ × AbortList)
unfolding nested_loop
nested_each inner fuel f l = elim (nested_loop inner fuel f (record l { cursor = l.head })) [
  | none ↦ none
  | some (visited, l') ↦ some (visited, record l' { cursor = l.cursor })
]
