-- ===== src/Gate.antt =====
-- reactor.h: the bound on requests in flight, `AdmissionGate`, and its `Lease`. `try_enter` and the
-- release run on any thread, so their model is a set of tasks that interleave at each atomic access.
-- An `int` is its 32-bit pattern.
pub mod Bound
pub mod Unlimited
pub mod Single
pub mod Leases
use reactor.Prelude.{
  ℕ, zero, suc, ◌+◌, ◌-◌, ◌%◌, ◌^◌, ◌≡◌, List, [], ◌∷◌, Bool, true, false, not, ◌&&◌, ltb, u64, u32,
}
use reactor.Prelude.Threads.{Reach}

pub record Gate : Type 0 where
  pub inflight : ℕ
  pub rejected : ℕ
  pub limit : ℕ

-- `AdmissionGate(limit_)`
abbrev pub make : ℕ → Gate
make limit = record { inflight = 0; rejected = 0; limit = limit }

-- `a - 1` in 32 bits.
abbrev pub pred32 : ℕ → ℕ
pred32 a = u32 (a + (2 ^ 32 - 1))

-- `a < b` for `int`.
abbrev pub slt : ℕ → ℕ → Bool
slt a b = ltb ((a + 2 ^ 31) % 2 ^ 32) ((b + 2 ^ 31) % 2 ^ 32)

-- The test of `try_enter`, on the value that its `fetch_add` returned.
abbrev pub refuses : (limit old : ℕ) → Bool
refuses limit old = not (slt old limit) && slt 0 limit

-- Where a task stands.
pub data Pc : Type 0 where
  outside : Pc
  backing : Pc  -- refused, before it takes its increment back
  counting : Pc  -- before it counts the refusal
  inside : Pc  -- holds a lease

-- The gate beside the number of calls that were refused, which only the statements read.
pub record Memory : Type 0 where
  pub gate : Gate
  pub open gate use *
  pub refusals : ℕ

abbrev pub with_inflight : Gate → ℕ → Gate
with_inflight g n = record g { inflight = n }

-- One atomic access of one task.
pub data Move (m : Memory) : Pc → Memory → Pc → Type 0 where
  enter :
      refuses m.limit m.inflight ≡ false
      → Move m outside (record m { gate = with_inflight m.gate (u32 (m.inflight + 1)) }) inside
  refuse :
      refuses m.limit m.inflight ≡ true
      → Move m outside
          (record { gate = with_inflight m.gate (u32 (m.inflight + 1)); refusals = m.refusals + 1 })
          backing
  take_back : Move m backing (record m { gate = with_inflight m.gate (pred32 m.inflight) }) counting
  count :
      Move m counting
        (record m { gate = record m.gate { rejected = u64 (m.rejected + 1) } })
        outside
  -- `leave`, through `Lease::reset`
  release : Move m inside (record m { gate = with_inflight m.gate (pred32 m.inflight) }) outside

abbrev pub init : ℕ → Memory
init limit = record { gate = make limit; refusals = 0 }

abbrev pub idle : ℕ → List Pc
idle zero = []
idle (suc n) = outside ∷ idle n

-- The states that `n` tasks can reach on a fresh gate with this limit.
abbrev pub Reachable : ℕ → ℕ → Memory → List Pc → Type 0
Reachable n limit m ts = Reach Move (init limit) (idle n) m ts
