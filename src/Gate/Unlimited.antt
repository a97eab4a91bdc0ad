-- ===== src/Gate/Unlimited.antt =====
-- `AdmissionGate` without a limit, under any interleaving of its callers.
use reactor.Prelude.{
  ℕ, ◌+◌, ◌^◌, ◌≤◌, ◌<◌, ◌≡◌, ◌⊎◌, inl, inr, List, some, arith, get_elem?, set, total, total-set,
  length, length-set,
}
use reactor.Prelude.Threads.{Reach-inv}
use reactor.Gate.{Memory, Pc, Move, enter, refuse, take_back, count, release, init, idle, Reachable}
use reactor.Gate.Bound.{is_inside, is_backing, is_counting, roles-le, idle-zero}

-- A limit that is zero or negative: the gate, where `i` tasks are inside and `b` and `c` are on the
-- way out of a refusal.
record Unlimited (n bound : ℕ) (m : Memory) (i b c : ℕ) : Type 0 where
  limit_kept : m.limit ≡ bound
  none_rejected : m.rejected ≡ 0
  inflight : m.inflight ≡ i
  none_refused : b + c ≡ 0
  tasks : i ≤ n

Move-Unlimited :
    {n bound i b c i' b' c' : ℕ} {m m' : Memory} {p q : Pc}
    → n < 2 ^ 32
    → (bound ≡ 0) ⊎ (2 ^ 31 ≤ bound)
    → bound < 2 ^ 32
    → Move m p m' q
    → i' + is_inside p ≡ i + is_inside q
    → b' + is_backing p ≡ b + is_backing q
    → c' + is_counting p ≡ c + is_counting q
    → i' ≤ n
    → Unlimited n bound m i b c
    → Unlimited n bound m' i' b' c'
Move-Unlimited small (inl none) lim (enter e) s t r k u = ground arith
Move-Unlimited small (inr neg) lim (enter e) s t r k u = ground arith
Move-Unlimited small (inl none) lim (refuse e) s t r k u = ground arith
Move-Unlimited small (inr neg) lim (refuse e) s t r k u = ground arith
Move-Unlimited small non lim take_back s t r k u = ground arith
Move-Unlimited small non lim count s t r k u = ground arith
Move-Unlimited small non lim release s t r k u = ground arith

record Open (n bound : ℕ) (m : Memory) (ts : List Pc) : Type 0 where
  size : length ts ≡ n
  state : Unlimited n bound m (total is_inside ts) (total is_backing ts) (total is_counting ts)

Move-Open :
    (n bound : ℕ)
    → n < 2 ^ 32
    → (bound ≡ 0) ⊎ (2 ^ 31 ≤ bound)
    → bound < 2 ^ 32
    → (m m' : Memory) (ts : List Pc) (i : ℕ) (p q : Pc) → get_elem? ts i ≡ some p
    → Move m p m' q
    → Open n bound m ts
    → Open n bound m' (set ts i q)
Move-Open n bound small non lim m m' ts i p q e mv v = record {
  size = omega (arith, length-set ts i q, v.size);
  state =
      Move-Unlimited small non lim mv (total-set is_inside ts i p q e)
        (total-set is_backing ts i p q e) (total-set is_counting ts i p q e)
        (omega (arith, roles-le (set ts i q), length-set ts i q, v.size)) v.state;
}

init-Open : (n bound : ℕ) → Open n bound (init bound) (idle n)
init-Open n bound = record { size = (idle-zero n).0; state = ground (arith, idle-zero n) }

-- A gate whose limit is zero or negative refuses nothing: `rejected` stays 0, no call is being
-- refused, and `inflight` is exactly the number of leases held.
pub unlimited-admits :
    (n limit : ℕ) (m : Memory) (ts : List Pc)
    → n < 2 ^ 32
    → (limit ≡ 0) ⊎ (2 ^ 31 ≤ limit)
    → limit < 2 ^ 32
    → Reachable n limit m ts
    → (m.rejected ≡ 0)
      × (m.inflight ≡ total is_inside ts)
      × (total is_backing ts + total is_counting ts ≡ 0)
unlimited-admits n limit m ts small non lim r = ground (arith, v.state)
  where
    v : Open n limit m ts
    v = Reach-inv (Open n limit) (Move-Open n limit small non lim) (init-Open n limit) r
