-- ===== src/Sync/Stages.antt =====
-- The stages of a call of `Reactor::on_loop_sync`, by how many tasks stand where.
use reactor.Prelude.{
  ℕ, zero, suc, ◌+◌, ◌-◌, ◌^◌, ◌≤◌, ◌<◌, ◌≡◌, ◌⊎◌, List, [], ◌∷◌, arith, if◌then◌else◌,
}
use reactor.Sync.{
  Memory, Pc, opening, posting, waiting, taken, returning, handling, running, finishing, Move,
  no_loop, run_inline, has_loop, lock_call, open_call, post, was_done, take_back, run_taken,
  unlock_call, claim, handle, too_late, take, run_posted, finish, run_on_loop, release,
}

abbrev pub is_opening : Pc → ℕ
is_opening (opening id) = 1
is_opening _ = 0

abbrev pub is_posting : Pc → ℕ
is_posting (posting id) = 1
is_posting _ = 0

abbrev pub is_waiting : Pc → ℕ
is_waiting (waiting id) = 1
is_waiting _ = 0

abbrev pub is_taken : Pc → ℕ
is_taken (taken id) = 1
is_taken _ = 0

abbrev pub is_returning : Pc → ℕ
is_returning (returning id) = 1
is_returning _ = 0

abbrev pub is_running : Pc → ℕ
is_running (running id) = 1
is_running _ = 0

abbrev pub is_finishing : Pc → ℕ
is_finishing (finishing id) = 1
is_finishing _ = 0

-- The calls from `n` down to the first.
abbrev pub countdown : ℕ → List ℕ
countdown zero = []
countdown (suc n) = suc n ∷ countdown n

-- How many tasks stand at each point of a call.
pub record Tally : Type 0 where
  pub opening : ℕ
  pub posting : ℕ
  pub waiting : ℕ
  pub taken : ℕ
  pub returning : ℕ
  pub running : ℕ
  pub finishing : ℕ

-- The stage of the call that holds `sync_call_`, if there is one, after `u` calls have run.
abbrev pub Stage : Memory → Tally → ℕ → Type 0
Stage m t u =
    ((t.waiting ≡ 0)
      × (t.running + t.finishing ≡ 0)
      × (u + (t.opening + t.posting + t.taken) ≡ m.sync_calls)
      × (m.sync_done ≤ u)
      × (((t.posting ≡ 1) × (m.sync_open ≡ m.sync_calls)) ⊎ ((t.posting ≡ 0) × (m.sync_open ≡ 0))))
    ⊎ ((t.waiting ≡ 1)
        × (t.running + t.finishing ≡ 0)
        × (u + 1 ≡ m.sync_calls)
        × (m.sync_done ≤ u)
        × (m.sync_open ≡ m.sync_calls))
    ⊎ ((t.waiting ≡ 1)
        × (t.running + t.finishing ≡ 1)
        × (u + t.running ≡ m.sync_calls)
        × (m.sync_done < m.sync_calls)
        × (m.sync_open ≡ 0))
    ⊎ ((t.waiting ≡ 1)
        × (t.running + t.finishing ≡ 0)
        × (u ≡ m.sync_calls)
        × (m.sync_done ≡ m.sync_calls)
        × (m.sync_open ≡ 0))

pub record Counts (m : Memory) (t : Tally) : Type 0 where
  pub holder : t.opening + t.posting + t.waiting + t.taken + t.returning ≡ (if m.held then 1 else 0)
  pub numbered : m.sync_calls ≡ m.begun
  pub ran_calls : ℕ
  pub ran_all : m.ran ≡ countdown ran_calls
  pub stage : Stage m t ran_calls

-- The tallies before and after a task goes from `p` to `q`.
pub record Sums (p q : Pc) (t t' : Tally) : Type 0 where
  pub opening : t'.opening + is_opening p ≡ t.opening + is_opening q
  pub posting : t'.posting + is_posting p ≡ t.posting + is_posting q
  pub waiting : t'.waiting + is_waiting p ≡ t.waiting + is_waiting q
  pub taken : t'.taken + is_taken p ≡ t.taken + is_taken q
  pub returning : t'.returning + is_returning p ≡ t.returning + is_returning q
  pub running : t'.running + is_running p ≡ t.running + is_running q
  pub finishing : t'.finishing + is_finishing p ≡ t.finishing + is_finishing q

-- The last call whose handler has been posted.
abbrev pub last_posted : Memory → Tally → ℕ
last_posted m t = m.sync_calls - (t.opening + t.posting)

-- The number that a task of the present call carries is that call's; a handler may belong to any
-- call up to `b`.
abbrev pub Local : Memory → ℕ → Pc → Type 0
Local m b (opening id) = id ≡ m.sync_calls
Local m b (posting id) = id ≡ m.sync_calls
Local m b (waiting id) = id ≡ m.sync_calls
Local m b (taken id) = id ≡ m.sync_calls
Local m b (returning id) = id ≡ m.sync_calls
Local m b (running id) = id ≡ m.sync_calls
Local m b (finishing id) = id ≡ m.sync_calls
Local m b (handling id) = (0 < id) × (id ≤ b)
Local m b _ = Unit

-- The calls that have run after a task's move.
abbrev runs_after : {m m' : Memory} {p q : Pc} → Move m p m' q → ℕ → ℕ
runs_after run_taken u = suc u
runs_after run_posted u = suc u
runs_after _ u = u

Move-ran :
    {m m' : Memory} {p q : Pc} {t t' : Tally}
    → (mv : Move m p m' q) → Local m (last_posted m t) p
    → Sums p q t t'
    → (k : Counts m t) → m'.ran ≡ countdown (runs_after mv k.ran_calls)
Move-ran run_taken l s k = ground arith
Move-ran run_posted l s k = ground arith
Move-ran _ l s k = k.ran_all

Move-Stage :
    {m m' : Memory} {p q : Pc} {t t' : Tally}
    → (mv : Move m p m' q) → m'.begun < 2 ^ 64
    → Local m (last_posted m t) p
    → Sums p q t t'
    → (k : Counts m t) → Stage m' t' (runs_after mv k.ran_calls)
Move-Stage (no_loop e) small l s k = ground arith
Move-Stage run_inline small l s k = ground arith
Move-Stage (has_loop e) small l s k = ground arith
Move-Stage (lock_call e) small l s k = ground arith
Move-Stage open_call small l s k = ground arith
Move-Stage post small l s k = ground arith
Move-Stage (was_done e) small l s k = ground arith
Move-Stage (take_back n e z) small l s k = ground arith
Move-Stage run_taken small l s k = ground arith
Move-Stage unlock_call small l s k = ground arith
Move-Stage claim small l s k = ground arith
Move-Stage (handle e) small l s k = ground arith
Move-Stage (too_late e) small l s k = ground arith
Move-Stage (take e) small l s k = ground arith
Move-Stage run_posted small l s k = ground arith
Move-Stage finish small l s k = ground arith
Move-Stage run_on_loop small l s k = ground arith
Move-Stage release small l s k = ground arith

Move-holder :
    {m m' : Memory} {p q : Pc} {t t' : Tally}
    → Move m p m' q
    → Sums p q t t'
    → Counts m t
    → t'.opening + t'.posting + t'.waiting + t'.taken + t'.returning ≡ (if m'.held then 1 else 0)
Move-holder (lock_call e) s k = ground arith
Move-holder unlock_call s k = ground arith
Move-holder _ s k = omega arith

Move-numbered :
    {m m' : Memory} {p q : Pc} {t : Tally}
    → Move m p m' q
    → m'.begun < 2 ^ 64
    → Counts m t
    → m'.sync_calls ≡ m'.begun
Move-numbered (lock_call e) small k = omega arith
Move-numbered _ small k = k.numbered

pub Move-Counts :
    {m m' : Memory} {p q : Pc} {t t' : Tally}
    → Move m p m' q
    → m'.begun < 2 ^ 64
    → Local m (last_posted m t) p
    → Sums p q t t'
    → Counts m t
    → Counts m' t'
Move-Counts mv small l s k = record {
  holder = Move-holder mv s k;
  numbered = Move-numbered mv small k;
  ran_calls = runs_after mv k.ran_calls;
  ran_all = Move-ran mv l s k;
  stage = Move-Stage mv small l s k;
}
