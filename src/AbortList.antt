-- ===== src/AbortList.antt =====
-- reactor.h: `AbortList`, the intrusive list behind `Reactor::track`, on an explicit heap. A node
-- (`Abortable`) and a list are named by numbers, and 0 is the null pointer.
pub mod Links
pub mod Unlink
pub mod Ops
pub mod Removal
pub mod Each
pub mod Nested
use reactor.Prelude.{
  ℕ, zero, suc, ◌+◌, Bool, true, false, not, ◌||◌, Option, none, some, List, [], ◌∷◌, ◌++◌,
  if◌then◌else◌, ◌==◌,
}

-- The hooks of an `Abortable`.
pub record Node : Type 0 where
  pub list : ℕ
  pub prev : ℕ
  pub next : ℕ

abbrev pub node : ℕ → ℕ → ℕ → Node
node l p q = record { list = l; prev = p; next = q }

abbrev pub Heap : Type 0
Heap = ℕ → Node

abbrev pub write : Heap → ℕ → Node → Heap
write h a n b = if a == b then n else h b

-- The list `self`, with the nodes that it links.
pub record AbortList : Type 0 where
  pub heap : Heap
  pub self : ℕ
  pub head : ℕ
  pub cursor : ℕ

abbrev pub set_prev : Heap → ℕ → ℕ → Heap
set_prev h a p = write h a (record (h a) { prev = p })

abbrev pub set_next : Heap → ℕ → ℕ → Heap
set_next h a q = write h a (record (h a) { next = q })

-- The writes of `add` to the hooks of `a` and to the first node.
unfoldable pub link : Heap → (self head a : ℕ) → Heap
link h self head a =
    let g : Heap = write h a (node self 0 head) in if head == 0 then g else set_prev g head a

unfoldable pub add : ℕ → AbortList → AbortList
add a l = record l { heap = link l.heap l.self l.head a; head = a }

-- The writes of `remove` to the neighbours of `a`, and to its own hooks.
unfoldable pub unlink : Heap → ℕ → Heap
unlink h a =
    let n : Node = h a in
    let g : Heap = if n.prev == 0 then h else set_next h n.prev n.next in
    let k : Heap = if n.next == 0 then g else set_prev g n.next n.prev in write k a (node 0 0 0)

unfoldable pub remove : ℕ → AbortList → AbortList
remove a l =
    let n : Node = l.heap a in
    if not (n.list == l.self) then l else record l {
      heap = unlink l.heap a;
      head = if n.prev == 0 then n.next else l.head;
      cursor = if l.cursor == a then n.next else l.cursor;
    }

abbrev pub is_empty : AbortList → Bool
is_empty l = l.head == 0

-- What a callback does to the list that is walked. It tracks only nodes that are in no list.
pub data Action : Type 0 where
  track : (a : ℕ) → Action
  untrack : (a : ℕ) → Action

pub act : AbortList → Action → AbortList
unfolding add remove
act l (track a) = if a == 0 || not ((l.heap a).list == 0) then l else add a l
act l (untrack a) = remove a l

pub acts : AbortList → List Action → AbortList
acts l [] = l
acts l (a ∷ as') = acts (act l a) as'

-- The loop of `each`, where the callback does `f node` to the list: the nodes that it is called
-- with, and the list after it. `none`: out of fuel.
pub each_loop : ℕ → (ℕ → List Action) → AbortList → Option (List ℕ × AbortList)
each_loop zero f l = none
each_loop (suc fuel) f l =
    let node : ℕ = l.cursor in
    let rest = each_loop fuel f (acts (record l { cursor = (l.heap node).next }) (f node)) in
    if node == 0
    then some ([], l)
    else elim rest [ none ↦ none | some (visited, l') ↦ some (node ∷ visited, l') ]

pub each : ℕ → (ℕ → List Action) → AbortList → Option (List ℕ × AbortList)
unfolding each_loop
each fuel f l = elim (each_loop fuel f (record l { cursor = l.head })) [
  | none ↦ none
  | some (visited, l') ↦ some (visited, record l' { cursor = l.cursor })
]
