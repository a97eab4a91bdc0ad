-- ===== src/Accept/Loop.antt =====
-- reactor.h: the loops `accept_loop` and `shared_accept_loop`. What the system, the timer and the
-- other threads answer during one turn of the loop is an input of the turn.
pub mod RoundRobin
pub mod Leases
use reactor.Prelude.{
  ℕ, zero, suc, ◌+◌, ◌≡◌, Bool, true, false, not, ◌&&◌, ◌||◌, Option, none, some, List, [], ◌∷◌,
  ◌++◌, if◌then◌else◌, ◌==◌,
}
use reactor.Accept.{
  ErrorCode, Platform, Control, Verdict, stopped, skip, fatal, pause, judge, reset,
}

-- What one call of `retry` meets: the flag `stopping` before and after the wait, the listener's
-- endpoint, and whether the timer's wait ended with an error.
pub record Retry : Type 0 where
  pub stopping : Bool
  pub local : Option ℕ
  pub timer_error : Bool
  pub stopping_after : Bool

pub data Next : Type 0 where
  again : Next  -- the loop goes on
  ends : Next  -- the task returns
  throws : ErrorCode → Next

module _ (os : Platform) where
  abbrev verdict_next : Retry → Verdict → Next
  verdict_next r stopped = ends
  verdict_next r skip = again
  verdict_next r (fatal e) = throws e
  verdict_next r (pause d) = if not r.timer_error && not r.stopping_after then again else ends

  -- `co_await control->retry(error)`
  pub retry : Retry → ErrorCode → Control → Next × Control
  unfolding judge
  retry r e c = let (v, c') = judge os r.stopping r.local e c in (verdict_next r v, c')

  -- `asio::error::no_memory`
  abbrev pub no_memory : ErrorCode
  no_memory = record { value = os.enomem; system = true }

-- One turn: the test of the loop, the accept, and what follows it.
pub record Turn : Type 0 where
  pub stopping : Bool
  pub accepted : Option ErrorCode  -- `none`: a connection
  pub retried : Retry
  pub stopping_accepted : Bool
  pub admitted : Bool  -- what `admission->try_enter()` answers
  pub bad_alloc : Bool  -- the launch throws it
  pub retried_memory : Retry

-- The loop's variables; the sessions launched so far, by their turn and their reactor, the latest first; and the
-- leases taken from the admission and given back to it.
pub record Loop : Type 0 where
  pub control : Control
  pub turns : ℕ
  pub launches : List (ℕ × ℕ)
  pub taken : ℕ
  pub returned : ℕ

abbrev pub begin : Control → Loop
begin c = record { control = c; turns = 0; launches = []; taken = 0; returned = 0 }

module _ (os : Platform) (bounded : Bool) where
  abbrev with_control : Loop → Next × Control → Next × Loop
  with_control l (n, c) = (n, record l { control = c })

  -- The launch, with the lease in the session's ticket: when it throws, the ticket is destroyed and
  -- its lease is given back.
  pub launch : ℕ → Turn → Loop → Next × Loop
  unfolding retry
  launch r t l =
      if t.bad_alloc
      then with_control (record l { returned = l.returned + (if bounded then 1 else 0) })
          (retry os t.retried_memory (no_memory os) l.control)
      else (again, record l { launches = (l.turns, r) ∷ l.launches })

  -- From the admission on. `bounded`: the server has a connection bound.
  pub admit : ℕ → Turn → Loop → Next × Loop
  unfolding launch
  admit r t l =
      if bounded
      then (if t.admitted then launch r t (record l { taken = l.taken + 1 }) else (again, l))
      else launch r t l

  -- The body of the loop, for a connection that goes to reactor `r`.
  unfoldable pub turn : ℕ → Turn → Loop → Next × Loop
  unfolding retry reset admit
  turn r t l = elim t.accepted [
    | some e ↦ with_control l (retry os t.retried e l.control)
    | none ↦
        let l' : Loop = record l { control = reset l.control } in
        if t.stopping_accepted then (ends, l') else admit r t l'
  ]

  abbrev counted : Next × Loop → Next × Loop
  counted (n, l) = (n, record l { turns = l.turns + 1 })

  -- `accept_loop` on reactor `r`, for as many turns as are given.
  pub accept_loop : ℕ → List Turn → Loop → Next × Loop
  accept_loop r [] l = (again, l)
  accept_loop r (t ∷ ts) l =
      let (n, l') = counted (turn r t l) in
      let rest = accept_loop r ts l' in
      if t.stopping
      then (ends, l)
      else elim n [ again ↦ rest | ends ↦ (ends, l') | throws e ↦ (throws e, l') ]

  -- `shared_accept_loop` over `n` reactors, where `next` is the index of the next one.
  unfoldable pub shared_accept_loop : ℕ → ℕ → List Turn → Loop → Next × Loop
  shared_accept_loop n next [] l = (again, l)
  shared_accept_loop n next (t ∷ ts) l =
      let following : ℕ = if next + 1 == n then 0 else next + 1 in
      let (v, l') = counted (turn next t l) in
      let rest = shared_accept_loop n following ts l' in
      if t.stopping
      then (ends, l)
      else elim v [ again ↦ rest | ends ↦ (ends, l') | throws e ↦ (throws e, l') ]
