-- ===== src/Events/Timer.antt =====
-- reactor_events.h: `PeriodicTimer`, as the handlers that its loop runs one after the other. Times are
-- natural numbers; what the repeat interval reads is an input of the handler that reads it.
pub mod Once
pub mod Silence
use reactor.Prelude.{
  ℕ, zero, suc, ◌+◌, ◌^◌, ◌≤◌, ◌<◌, ◌≡◌, ◌⊎◌, inl, inr, refl, Bool, true, false, not, ◌&&◌, ◌||◌,
  List, [], ◌∷◌, Option, none, some, arith, if◌then◌else◌, ◌==◌, ltb, u64, All, get_elem?, total,
}

-- `PeriodicTimer::State`: the waits that are pending with the generation that each was armed in, and
-- the generations of the callbacks that were called, the last first.
pub record Timer : Type 0 where
  pub generation : ℕ
  pub waits : List ℕ
  pub called : List ℕ

abbrev pub fresh : Timer
fresh = record { generation = 0; waits = []; called = [] }

pub cancel : Timer → Timer
cancel t = record t { generation = u64 (t.generation + 1) }

pub arm : Timer → Timer
arm t =
    let admitted : ℕ = u64 (t.generation + 1) in
    record t { generation = admitted; waits = admitted ∷ t.waits }

-- The handler that `again` posts, where the interval reads `repeat`
pub again : (repeat : ℕ) → Timer → Timer
unfolding arm cancel
again repeat t = if ltb 0 repeat then arm t else cancel t

abbrev pub drop_at : ℕ → List ℕ → List ℕ
drop_at i [] = []
drop_at zero (x ∷ xs) = xs
drop_at (suc i) (x ∷ xs) = x ∷ drop_at i xs

-- The handler of the wait that was armed in generation `admitted`. `has_callback`: a callback is set;
-- the interval reads `repeat` after it, whether or not it threw.
pub handle : (error has_callback : Bool) (repeat admitted : ℕ) → Timer → Timer
unfolding arm
handle error has_callback repeat admitted t =
    let t' : Timer = if has_callback then record t { called = admitted ∷ t.called } else t in
    let armed : Timer = arm t' in
    if error || not (admitted == t.generation)
    then t
    else if ltb 0 repeat && (admitted == t'.generation)
    then armed
    else t'

-- The loop completes the wait at place `i`.
pub fire : (i : ℕ) (error has_callback : Bool) (repeat : ℕ) → Timer → Timer
unfolding handle
fire i error has_callback repeat t = elim (get_elem? t.waits i) [
  | none ↦ t
  | some admitted ↦
      handle error has_callback repeat admitted (record t { waits = drop_at i t.waits })
]

-- What the loop runs: the handlers of `start`, `again` and `stop`, and the timer's completions.
pub data Event : Type 0 where
  starts : Event
  agains : (repeat : ℕ) → Event
  stops : Event
  fires : (i : ℕ) (error has_callback : Bool) (repeat : ℕ) → Event

pub step : Timer → Event → Timer
unfolding again fire
step t starts = arm t
step t (agains repeat) = again repeat t
step t stops = cancel t
step t (fires i error has_callback repeat) = fire i error has_callback repeat t

pub run : Timer → List Event → Timer
unfolding step
run t [] = t
run t (e ∷ es) = run (step t e) es
