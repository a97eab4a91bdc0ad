-- ===== src/Accept/Loop/RoundRobin.antt =====
-- Which reactors the connections of `shared_accept_loop` go to.
use native.Mathlib.Nat.{mod-add-mod, mod_self, mod-eq_of_lt, mod-lt}
use reactor.Prelude.{
  ℕ_discrete, ℕ, ◌+◌, ◌%◌, ◌≡◌, ◌<◌, refl, Bool, not, ◌&&◌, ◌||◌, List, [], ◌∷◌, arith,
  if◌then◌else◌, ◌==◌, is_none,
}
use reactor.Accept.{Platform, Control}
use reactor.Accept.Loop.{Turn, Loop, again, begin, turn, shared_accept_loop}

module _ (os : Platform) (bounded : Bool) where
  -- The turn brings a connection that is launched.
  abbrev pub launches_one : Turn → Bool
  launches_one t =
      is_none t.accepted
      && not t.stopping_accepted
      && (not bounded || t.admitted)
      && not t.bad_alloc

  -- The launches of these turns in rotation over `n` reactors, the first being turn `i`.
  pub rotation : ℕ → ℕ → List Turn → List (ℕ × ℕ) → List (ℕ × ℕ)
  rotation n i [] done = done
  rotation n i (t ∷ ts) done =
      rotation n (i + 1) ts (if launches_one t then (i, i % n) ∷ done else done)

  turn-launches :
      (r : ℕ) (t : Turn) (l : Loop)
      → ((turn os bounded r t l).1.turns ≡ l.turns)
        × ((turn os bounded r t l).1.launches
            ≡ (if launches_one t then (l.turns, r) ∷ l.launches else l.launches))
  unfolding turn
  turn-launches r t l = ground arith

  following : (n i : ℕ) → 0 < n → (if i % n + 1 == n then 0 else i % n + 1) ≡ (i + 1) % n
  following n i h = elim (ℕ_discrete (i % n + 1) n) [
    | yes e ↦ let wrapped : n % n ≡ 0 = mod_self n in ground (arith, mod-add-mod i n 1, wrapped)
    | no ne ↦
        let small : (i % n + 1) % n ≡ i % n + 1 = mod-eq_of_lt (omega (arith, mod-lt i h)) in
        ground (arith, mod-add-mod i n 1, small)
  ]

  rotates :
      (n next : ℕ) (ts : List Turn) (l : Loop)
      → 0 < n
      → next ≡ l.turns % n
      → (shared_accept_loop os bounded n next ts l).0 ≡ again
      → (shared_accept_loop os bounded n next ts l).1.launches ≡ rotation n l.turns ts l.launches
  unfolding shared_accept_loop rotation
  rotates n next [] l pos e h = refl
  rotates n next (t ∷ ts) l pos e h = ground (
    arith,
    turn-launches next t l,
    following n l.turns pos,
    rotates n (if next + 1 == n then 0 else next + 1) ts
        (record (turn os bounded next t l).1 { turns = (turn os bounded next t l).1.turns + 1 })
        pos,
  )

  -- While the shared loop goes on, the connection of turn `i` goes to reactor `i % n`: the turns
  -- that bring no session (a failed accept, a refusal by the admission, a launch without memory)
  -- take their place in the rotation too, and each other turn launches exactly one session.
  pub shared_accept_loop-rotation :
      (n : ℕ) (ts : List Turn) (c : Control)
      → 0 < n
      → (shared_accept_loop os bounded n 0 ts (begin c)).0 ≡ again
      → (shared_accept_loop os bounded n 0 ts (begin c)).1.launches ≡ rotation n 0 ts []
  shared_accept_loop-rotation n ts c pos h = rotates n 0 ts (begin c) pos (omega arith) h
