-- ===== src/Sessions/Counted.antt =====
-- What the session count and the admission say of the sessions that live.
use reactor.Prelude.{
  ℕ, zero, suc, ◌+◌, ◌^◌, ◌≤◌, ◌<◌, ◌≡◌, refl, Bool, true, false, List, [], ◌∷◌, some, arith,
  get_elem?, set, total, total-set, length, length-set, if◌then◌else◌, total-le-length,
}
use reactor.Prelude.Threads.{Reach-inv}
use reactor.Admission.{State}
use reactor.Admission.Solo.{try_enter, leave}
use reactor.Sessions.{
  Memory, Pc, outside, admitted, refunded, Move, accept, refuse, accept_unbounded, refund,
  no_refund, init, idle, Reachable,
}

-- A connection whose ticket has not been destroyed, and one that holds a lease.
abbrev pub is_counted : Pc → ℕ
is_counted outside = 0
is_counted admitted = 0
is_counted _ = 1

abbrev pub is_leased : Pc → ℕ
is_leased outside = 0
is_leased refunded = 0
is_leased _ = 1

enter_active :
    (s : State)
    → s.maximum < 2 ^ 64
    → (try_enter s).1 ≡ true
    → (s.active < s.maximum)
      × ((try_enter s).0.active ≡ s.active + 1)
      × ((try_enter s).0.maximum ≡ s.maximum)
unfolding try_enter
enter_active s h e = ground arith

refuse_active :
    (s : State)
    → (try_enter s).1 ≡ false
    → ((try_enter s).0.active ≡ s.active) × ((try_enter s).0.maximum ≡ s.maximum)
unfolding try_enter
refuse_active s e = ground arith

leave_active :
    (s : State)
    → 0 < s.active
    → s.active < 2 ^ 64
    → ((leave s).active + 1 ≡ s.active) × ((leave s).maximum ≡ s.maximum)
unfolding leave
leave_active s pos h = ground arith

-- The memory over connections of which `c` are counted and `l` hold a lease.
pub record Counts (bounded : Bool) (bound : ℕ) (m : Memory) (c l : ℕ) : Type 0 where
  pub kind : m.bounded ≡ bounded
  pub maximum : m.admission.maximum ≡ bound
  pub active : m.admission.active ≡ (if bounded then l else 0)
  pub within : m.admission.active ≤ bound
  pub sessions : m.sessions ≡ c

pub Move-Counts :
    {b : Bool} {n bound c l c' l' : ℕ} {m m' : Memory} {p q : Pc}
    → bound < 2 ^ 64
    → n < 2 ^ 64
    → Move m p m' q
    → c' + is_counted p ≡ c + is_counted q
    → l' + is_leased p ≡ l + is_leased q
    → c' ≤ n
    → Counts b bound m c l
    → Counts b bound m' c' l'
Move-Counts {m = m} small few (accept e t) x y z k = ground (arith, enter_active m.admission)
Move-Counts {m = m} small few (refuse e t) x y z k = ground (arith, refuse_active m.admission)
Move-Counts {m = m} small few (refund e) x y z k = ground (arith, leave_active m.admission)
Move-Counts small few (no_refund e) x y z k = ground arith
Move-Counts small few (accept_unbounded e) x y z k = ground arith
Move-Counts small few _ x y z k = ground arith

record Inv (bounded : Bool) (n bound : ℕ) (m : Memory) (ts : List Pc) : Type 0 where
  size : length ts ≡ n
  counts : Counts bounded bound m (total is_counted ts) (total is_leased ts)

pub counted-le-1 : (p : Pc) → is_counted p ≤ 1
counted-le-1 p = ground arith

Move-Inv :
    (bounded : Bool) (n bound : ℕ)
    → n < 2 ^ 64
    → bound < 2 ^ 64
    → (m m' : Memory) (ts : List Pc) (i : ℕ) (p q : Pc) → get_elem? ts i ≡ some p
    → Move m p m' q
    → Inv bounded n bound m ts
    → Inv bounded n bound m' (set ts i q)
Move-Inv bounded n bound few small m m' ts i p q e mv v = record {
  size = omega (arith, length-set ts i q, v.size);
  counts =
      Move-Counts small few mv (total-set is_counted ts i p q e) (total-set is_leased ts i p q e)
        (omega
          (arith, total-le-length is_counted counted-le-1 (set ts i q), length-set ts i q, v.size))
        v.counts;
}

idle-zero :
    (n : ℕ)
    → (length (idle n) ≡ n) × (total is_counted (idle n) ≡ 0) × (total is_leased (idle n) ≡ 0)
idle-zero zero = (refl, refl, refl)
idle-zero (suc n) = omega (arith, idle-zero n)

init-Inv : (bounded : Bool) (n bound : ℕ) → Inv bounded n bound (init bounded bound) (idle n)
init-Inv bounded n bound = record { size = (idle-zero n).0; counts = ground (arith, idle-zero n) }

-- A connection between its accept and its ticket.
abbrev pub is_admitted : Pc → ℕ
is_admitted admitted = 1
is_admitted _ = 0

-- A connection whose ticket is refunded and not yet counted off.
abbrev pub is_refunded : Pc → ℕ
is_refunded refunded = 1
is_refunded _ = 0

leased-counted :
    (ts : List Pc)
    → total is_leased ts + total is_refunded ts ≡ total is_counted ts + total is_admitted ts
leased-counted [] = refl
leased-counted (outside ∷ ts) = omega (arith, leased-counted ts)
leased-counted (admitted ∷ ts) = omega (arith, leased-counted ts)
leased-counted (refunded ∷ ts) = omega (arith, leased-counted ts)
leased-counted (_ ∷ ts) = omega (arith, leased-counted ts)

-- However connections interleave and whichever of their steps fail: `sessions_` counts exactly the
-- tickets that have not been destroyed. With a connection bound, `active` counts exactly the leases, so
-- that the connections that hold one never pass the bound, and once `sessions_` is 0 the only leases
-- left are those of connections that have no ticket yet.
pub sessions_count :
    (bounded : Bool) (n bound : ℕ) (m : Memory) (ts : List Pc)
    → n < 2 ^ 64
    → bound < 2 ^ 64
    → Reachable bounded bound n m ts
    → (m.sessions ≡ total is_counted ts)
      × (m.admission.active ≡ (if bounded then total is_leased ts else 0))
      × (m.admission.active ≤ bound)
      × (m.admission.active ≤ m.sessions + total is_admitted ts)
sessions_count bounded n bound m ts few small r = ground (arith, v.counts, leased-counted ts)
  where
    v : Inv bounded n bound m ts
    v =
        Reach-inv (Inv bounded n bound) (Move-Inv bounded n bound few small)
          (init-Inv bounded n bound) r
