-- ===== src/Sync/Once.antt =====
-- What `Reactor::on_loop_sync` promises over every interleaving.
use reactor.Prelude.{
  ℕ, zero, suc, ◌+◌, ◌^◌, ◌≤◌, ◌<◌, ◌≡◌, refl, List, [], ◌∷◌, some, arith, get_elem?, set, total,
  All, total-set, All-get, All-set, All-mono, All-both, All-le-total,
}
use reactor.Prelude.Threads.{Reach-inv}
use reactor.Sync.{
  Memory, Pc, taken, returning, running, finishing, Move, lock_call, init, idle, Reachable,
}
use reactor.Sync.Stages.{
  is_opening, is_posting, is_waiting, is_taken, is_returning, is_running, is_finishing, countdown,
  Tally, Counts, Sums, last_posted, Local, Move-Counts,
}
use reactor.Sync.Numbers.{is_active, IsPosted, Move-keeps-Local, Move-Local, Move-posted}

abbrev pub tally : List Pc → Tally
tally ts = record {
  opening = total is_opening ts;
  posting = total is_posting ts;
  waiting = total is_waiting ts;
  taken = total is_taken ts;
  returning = total is_returning ts;
  running = total is_running ts;
  finishing = total is_finishing ts;
}

sums :
    (ts : List Pc) (i : ℕ) (p q : Pc)
    → get_elem? ts i ≡ some p
    → Sums p q (tally ts) (tally (set ts i q))
sums ts i p q e = record {
  opening = total-set is_opening ts i p q e;
  posting = total-set is_posting ts i p q e;
  waiting = total-set is_waiting ts i p q e;
  taken = total-set is_taken ts i p q e;
  returning = total-set is_returning ts i p q e;
  running = total-set is_running ts i p q e;
  finishing = total-set is_finishing ts i p q e;
}

pub record Inv (m : Memory) (ts : List Pc) : Type 0 where
  pub counts : Counts m (tally ts)
  pub posted : All (IsPosted (last_posted m (tally ts))) m.posted
  pub locals : All (Local m (last_posted m (tally ts))) ts

active-total :
    (ts : List Pc)
    → let t = tally ts in
      total is_active ts
      ≡ t.opening + t.posting + t.waiting + t.taken + t.returning + t.running + t.finishing
active-total [] = refl
active-total (p ∷ ts) = omega (arith, active-total ts)

Move-Inv :
    (m m' : Memory) (ts : List Pc) (i : ℕ) (p q : Pc)
    → get_elem? ts i ≡ some p
    → Move m p m' q
    → m'.begun < 2 ^ 64
    → Inv m ts
    → Inv m' (set ts i q)
Move-Inv m m' ts i p q e mv small v = record {
  counts = Move-Counts mv small l s v.counts;
  posted = Move-posted mv small s v.counts v.posted l;
  locals =
      All-set (λ r. Local m (last_posted m (tally ts)) r × (is_active r ≤ total is_active ts))
        (Local m' (last_posted m' (tally (set ts i q))))
        (λ r h. Move-keeps-Local mv small s v.counts r (omega (arith, h.1, active-total ts)) h.0) ts
        i q (All-both _ _ ts v.locals (All-le-total is_active ts))
        (Move-Local mv small s v.counts v.posted l);
}
  where
    l : Local m (last_posted m (tally ts)) p
    l = All-get _ ts i p v.locals e

    s : Sums p q (tally ts) (tally (set ts i q))
    s = sums ts i p q e

pub begun-grows : {m m' : Memory} {p q : Pc} → Move m p m' q → m.begun ≤ m'.begun
begun-grows (lock_call e) = omega arith
begun-grows _ = omega arith

zeros :
    (n : ℕ)
    → let t = tally (idle n) in
      (t.opening ≡ 0)
      × (t.posting ≡ 0)
      × (t.waiting ≡ 0)
      × (t.taken ≡ 0)
      × (t.returning ≡ 0)
      × (t.running ≡ 0)
      × (t.finishing ≡ 0)
zeros zero = (refl, refl, refl, refl, refl, refl, refl)
zeros (suc n) = omega (arith, zeros n)

idle-Local : (b n : ℕ) → All (Local init b) (idle n)
idle-Local b zero = tt
idle-Local b (suc n) = (tt, idle-Local b n)

init-Inv : (n : ℕ) → Inv init (idle n)
init-Inv n = record {
  counts = record {
    holder = omega (arith, zeros n);
    numbered = refl;
    ran_calls = 0;
    ran_all = refl;
    stage = ground (arith, zeros n);
  };
  posted = tt;
  locals = idle-Local _ n;
}

-- Fewer than `2 ^ 64` calls have begun, so that each has a number of its own.
pub Reachable-Inv :
    (n : ℕ) (m : Memory) (ts : List Pc) → m.begun < 2 ^ 64 → Reachable n m ts → Inv m ts
Reachable-Inv n m ts small r =
    Reach-inv (λ m ts. m.begun < 2 ^ 64 → Inv m ts) step (λ _. init-Inv n) r small
  where
    step :
        (m m' : Memory) (ts : List Pc) (i : ℕ) (p q : Pc)
        → get_elem? ts i ≡ some p
        → Move m p m' q
        → (m.begun < 2 ^ 64 → Inv m ts)
        → m'.begun < 2 ^ 64
        → Inv m' (set ts i q)
    step m m' ts i p q e mv v small =
        Move-Inv m m' ts i p q e mv small (v (omega (arith, begun-grows mv)))

-- What a task's place says of its call, after `k` calls have run.
abbrev pub Knows : ℕ → Pc → Type 0
Knows k (taken id) = id ≡ k + 1
Knows k (running id) = id ≡ k + 1
Knows k (finishing id) = id ≡ k
Knows k (returning id) = id ≡ k
Knows k _ = Unit

-- The callers whose `f` may not have run yet.
abbrev pub is_unserved : Pc → ℕ
is_unserved p = is_opening p + is_posting p + is_waiting p + is_taken p

-- A task that is in the `f` of a posted handler, or has just been.
abbrev pub is_serving : Pc → ℕ
is_serving p = is_running p + is_finishing p

unserved-total :
    (ts : List Pc)
    → let t = tally ts in
      (total is_unserved ts ≡ t.opening + t.posting + t.waiting + t.taken)
      × (total is_serving ts ≡ t.running + t.finishing)
unserved-total [] = (refl, refl)
unserved-total (p ∷ ts) = omega (arith, unserved-total ts)

Counts-Knows :
    {m : Memory} {t : Tally}
    → (c : Counts m t) → (b : ℕ) (p : Pc) → Local m b p
    → is_taken p ≤ t.taken
    → is_returning p ≤ t.returning
    → is_running p ≤ t.running
    → is_finishing p ≤ t.finishing
    → Knows c.ran_calls p
Counts-Knows c b p l x y z w = ground arith

Inv-Knows : (m : Memory) (ts : List Pc) → (v : Inv m ts) → All (Knows v.counts.ran_calls) ts
Inv-Knows m ts v =
    All-mono _ _ ts (λ p h. Counts-Knows v.counts _ p h.0 h.1.0 h.1.1.0 h.1.1.1.0 h.1.1.1.1)
      (All-both _ _ ts v.locals (
        All-both _ _ ts (All-le-total is_taken ts) (
          All-both _ _ ts (All-le-total is_returning ts)
            (All-both _ _ ts (All-le-total is_running ts) (All-le-total is_finishing ts)))))

-- However callers and loop threads interleave, with fewer than `2 ^ 64` calls through the loop: the
-- calls whose `f` has run are those from 1 to some `k`, in this order and each once; all calls that
-- have begun are among them, but at most one, whose caller has not left it; a task that is about to
-- run the `f` of a call is in call `k + 1`, and one that has just run it, or whose call has
-- returned, is in call `k`; and while a handler is in a call's `f`, its caller still waits, so that
-- `f` is alive.
pub on_loop_sync_once :
    (n : ℕ) (m : Memory) (ts : List Pc)
    → m.begun < 2 ^ 64
    → Reachable n m ts
    → (k : ℕ) × (m.ran ≡ countdown k)
      × (m.sync_calls ≤ k + total is_unserved ts)
      × (k ≤ m.sync_calls)
      × (total is_unserved ts ≤ 1)
      × (total is_serving ts ≤ total is_waiting ts)
      × All (Knows k) ts
on_loop_sync_once n m ts small r = (
  v.counts.ran_calls,
  v.counts.ran_all,
  ground (arith, v.counts, unserved-total ts),
  ground (arith, v.counts),
  ground (arith, v.counts, unserved-total ts),
  ground (arith, v.counts, unserved-total ts),
  Inv-Knows m ts v,
)
  where
    v : Inv m ts
    v = Reachable-Inv n m ts small r
