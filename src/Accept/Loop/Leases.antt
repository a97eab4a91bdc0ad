-- ===== src/Accept/Loop/Leases.antt =====
-- No accept loop loses a lease of the connection bound.
use reactor.Prelude.{ℕ, ◌+◌, ◌≡◌, Bool, List, [], ◌∷◌, arith, if◌then◌else◌, ◌==◌, length}
use reactor.Accept.{Platform}
use reactor.Accept.Loop.{Turn, Loop, turn, accept_loop, shared_accept_loop}

-- Each lease taken is in the ticket of a launched session or was given back, and without a
-- connection bound none is taken.
abbrev pub IsBalanced : Bool → Loop → Type 0
IsBalanced bounded l = (l.taken ≡ l.returned + (if bounded then length l.launches else 0))

module _ (os : Platform) (bounded : Bool) where
  turn-IsBalanced :
      (r : ℕ) (t : Turn) (l : Loop)
      → IsBalanced bounded l
      → IsBalanced bounded (turn os bounded r t l).1
  unfolding turn
  turn-IsBalanced r t l h = ground arith

  -- A reactor's own accept loop keeps the leases that it takes equal to those given back and those of
  -- the sessions launched, however many turns it makes and however it ends.
  pub accept_loop-IsBalanced :
      (r : ℕ) (ts : List Turn) (l : Loop)
      → IsBalanced bounded l
      → IsBalanced bounded (accept_loop os bounded r ts l).1
  unfolding accept_loop
  accept_loop-IsBalanced r [] l h = h
  accept_loop-IsBalanced r (t ∷ ts) l h = ground (
    arith,
    turn-IsBalanced r t l h,
    accept_loop-IsBalanced r ts
        (record (turn os bounded r t l).1 { turns = (turn os bounded r t l).1.turns + 1 }),
  )

  -- The shared loop does so too.
  pub shared_accept_loop-IsBalanced :
      (n next : ℕ) (ts : List Turn) (l : Loop)
      → IsBalanced bounded l
      → IsBalanced bounded (shared_accept_loop os bounded n next ts l).1
  unfolding shared_accept_loop
  shared_accept_loop-IsBalanced n next [] l h = h
  shared_accept_loop-IsBalanced n next (t ∷ ts) l h = ground (
    arith,
    turn-IsBalanced next t l h,
    shared_accept_loop-IsBalanced n (if next + 1 == n then 0 else next + 1) ts
        (record (turn os bounded next t l).1 { turns = (turn os bounded next t l).1.turns + 1 }),
  )
