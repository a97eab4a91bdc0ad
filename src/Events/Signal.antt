-- ===== src/Events/Signal.antt =====
-- reactor_events.h: `Signal`. Senders and the loop are tasks that interleave at each access of
-- `pending` and of the loop's queue.
use reactor.Prelude.{
  ℕ, zero, suc, ◌+◌, ◌≤◌, ◌≡◌, ◌⊎◌, refl, Bool, true, false, List, [], ◌∷◌, some, arith, get_elem?,
  set, total, total-set,
}
use reactor.Prelude.Threads.{Reach, Reach-inv}

-- The flag and the handlers that are posted, beside counts that only the statements read: the calls of
-- `send` that have set the flag, the value of that count when a handler last cleared it, and the
-- callbacks that were called.
pub record Memory : Type 0 where
  pub pending : Bool
  pub posted : ℕ
  pub sends : ℕ
  pub seen : ℕ
  pub calls : ℕ

-- Where a task stands: a sender in `send`, or the loop in a handler.
pub data Pc : Type 0 where
  outside : Pc
  posting : Pc  -- has set the flag, before the post
  waiting : Pc  -- the loop, between handlers
  calling : Pc  -- has cleared the flag, before the callback

pub data Move (m : Memory) : Pc → Memory → Pc → Type 0 where
  first :
      m.pending ≡ false → Move m outside (record m { pending = true; sends = m.sends + 1 }) posting
  coalesce : m.pending ≡ true → Move m outside (record m { sends = m.sends + 1 }) outside
  post : Move m posting (record m { posted = m.posted + 1 }) outside
  clear :
      {n : ℕ}
      → m.posted ≡ suc n
      → Move m waiting (record m { pending = false; posted = n; seen = m.sends }) calling
  call : Move m calling (record m { calls = m.calls + 1 }) waiting

abbrev pub init : Memory
init = record { pending = false; posted = 0; sends = 0; seen = 0; calls = 0 }

-- The loop and `n` senders.
abbrev pub senders : ℕ → List Pc
senders zero = []
senders (suc n) = outside ∷ senders n

abbrev pub Reachable : ℕ → Memory → List Pc → Type 0
Reachable n m ts = Reach Move init (waiting ∷ senders n) m ts

abbrev pub is_posting : Pc → ℕ
is_posting posting = 1
is_posting _ = 0

abbrev pub is_calling : Pc → ℕ
is_calling calling = 1
is_calling _ = 0

-- The flag is set exactly while one handler is posted or about to be; while it is clear, a callback
-- was called, or is about to be, after every send.
record Counts (m : Memory) (p c : ℕ) : Type 0 where
  state :
      ((m.pending ≡ true) × (m.posted + p ≡ 1))
      ⊎ ((m.pending ≡ false) × (m.posted + p ≡ 0) × (m.seen ≡ m.sends))
  runs : m.calls + c + (m.posted + p) ≤ m.sends

Move-Counts :
    {p c p' c' : ℕ} {m m' : Memory} {q r : Pc}
    → Move m q m' r
    → p' + is_posting q ≡ p + is_posting r
    → c' + is_calling q ≡ c + is_calling r
    → Counts m p c
    → Counts m' p' c'
Move-Counts (first e) a b k = ground arith
Move-Counts (coalesce e) a b k = ground arith
Move-Counts post a b k = ground arith
Move-Counts (clear e) a b k = ground arith
Move-Counts call a b k = ground arith

record Inv (m : Memory) (ts : List Pc) : Type 0 where
  counts : Counts m (total is_posting ts) (total is_calling ts)

Move-Inv :
    (m m' : Memory) (ts : List Pc) (i : ℕ) (p q : Pc)
    → get_elem? ts i ≡ some p
    → Move m p m' q
    → Inv m ts
    → Inv m' (set ts i q)
Move-Inv m m' ts i p q e mv v = record {
  counts =
      Move-Counts mv (total-set is_posting ts i p q e) (total-set is_calling ts i p q e) v.counts;
}

senders-zero : (n : ℕ) → (total is_posting (senders n) ≡ 0) × (total is_calling (senders n) ≡ 0)
senders-zero zero = (refl, refl)
senders-zero (suc n) = omega (arith, senders-zero n)

-- However senders and the loop interleave, at most one handler is posted or about to be; when there is
-- none, a handler has begun after every send, so that no send is lost; and callbacks, with the one that
-- the loop is about to call, are never more than the sends.
pub sends-coalesce :
    (n : ℕ) (m : Memory) (ts : List Pc)
    → Reachable n m ts
    → ((m.posted + total is_posting ts ≡ 1)
        ⊎ ((m.posted + total is_posting ts ≡ 0) × (m.seen ≡ m.sends)))
      × (m.calls + total is_calling ts ≤ m.sends)
sends-coalesce n m ts r = ground (arith, (Reach-inv Inv Move-Inv first_inv r).counts)
  where
    first_inv : Inv init (waiting ∷ senders n)
    first_inv = record { counts = ground (arith, senders-zero n) }
