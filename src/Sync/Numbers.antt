-- ===== src/Sync/Numbers.antt =====
-- The numbers that the tasks of `Reactor::on_loop_sync` carry, from one move to the next.
use reactor.Prelude.{ℕ, ◌+◌, ◌^◌, ◌≤◌, ◌<◌, subst, All, All-mono, All-append, [], ◌∷◌, arith}
use reactor.Sync.{Memory, Pc, handling, Move, lock_call, post, handle, take}
use reactor.Sync.Stages.{
  is_opening, is_posting, is_waiting, is_taken, is_returning, is_running, is_finishing, Tally,
  Counts, Sums, last_posted, Local,
}

-- A task whose number says something of the present call.
abbrev pub is_active : Pc → ℕ
is_active p =
    is_opening p
    + is_posting p
    + is_waiting p
    + is_taken p
    + is_returning p
    + is_running p
    + is_finishing p

-- What the other tasks' numbers say stays true: a new call begins only when no task is in one.
pub Move-keeps-Local :
    {m m' : Memory} {p q : Pc} {t t' : Tally}
    → Move m p m' q
    → m'.begun < 2 ^ 64
    → Sums p q t t'
    → Counts m t
    → (r : Pc)
    → is_active r
      ≤ t.opening + t.posting + t.waiting + t.taken + t.returning + t.running + t.finishing
    → Local m (last_posted m t) r
    → Local m' (last_posted m' t') r
Move-keeps-Local (lock_call e) small s k (handling id) a l = ground arith
Move-keeps-Local (lock_call e) small s k _ a l = ground arith
Move-keeps-Local _ small s k r a l = ground arith

-- The call has posted its handler, or an earlier one has.
abbrev pub IsPosted : ℕ → ℕ → Type 0
IsPosted b id = (0 < id) × (id ≤ b)

IsPosted-grows :
    {m m' : Memory} {p q : Pc} {t t' : Tally}
    → Move m p m' q
    → m'.begun < 2 ^ 64
    → Sums p q t t'
    → Counts m t
    → (id : ℕ) → IsPosted (last_posted m t) id
    → IsPosted (last_posted m' t') id
IsPosted-grows (lock_call e) small s k id h = ground arith
IsPosted-grows _ small s k id h = ground arith

-- A task's own number after its move.
pub Move-Local :
    {m m' : Memory} {p q : Pc} {t t' : Tally}
    → Move m p m' q
    → m'.begun < 2 ^ 64
    → Sums p q t t'
    → Counts m t
    → All (IsPosted (last_posted m t)) m.posted
    → Local m (last_posted m t) p
    → Local m' (last_posted m' t') q
Move-Local {m = m} {t = t} (handle {id = id} {ids = ids} e) small s k o l =
    IsPosted-grows (handle e) small s k id (subst (All (IsPosted (last_posted m t))) e o).0
Move-Local (take e) small s k o l = ground arith
Move-Local _ small s k o l = ground arith

-- The handlers that are posted belong to calls that have posted them.
pub Move-posted :
    {m m' : Memory} {p q : Pc} {t t' : Tally}
    → Move m p m' q
    → m'.begun < 2 ^ 64
    → Sums p q t t'
    → Counts m t
    → All (IsPosted (last_posted m t)) m.posted
    → Local m (last_posted m t) p
    → All (IsPosted (last_posted m' t')) m'.posted
Move-posted {m = m} (post {id = id}) small s k o l =
    All-append _ m.posted (id ∷ [])
      (All-mono _ _ m.posted (IsPosted-grows (post {id = id}) small s k) o) (ground arith)
Move-posted {m = m} {t = t} (handle {id = id} {ids = ids} e) small s k o l =
    All-mono _ _ ids (IsPosted-grows (handle e) small s k)
      (subst (All (IsPosted (last_posted m t))) e o).1
Move-posted {m = m} mv small s k o l = All-mono _ _ m.posted (IsPosted-grows mv small s k) o
