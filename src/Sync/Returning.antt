-- ===== src/Sync/Returning.antt =====
-- A call of `Reactor::on_loop_sync` that is about to return is among those whose `f` has run.
use reactor.Prelude.{
  ℕ, zero, suc, ◌^◌, ◌<◌, ◌≡◌, sym, subst, true, List, some, arith, get_elem?, set, All, All-get,
  All-set,
}
use reactor.Prelude.Threads.{Reach-inv, start, later, turn}
use reactor.AbortList.Links.{has}
use reactor.Sync.{
  Memory, Pc, opening, posting, waiting, taken, returning, Move, lock_call, idle, Reachable,
}
use reactor.Sync.Stages.{countdown}
use reactor.Sync.Once.{Knows, Reachable-Inv, begun-grows, on_loop_sync_once}

-- The number of a call is not 0.
abbrev IsNumbered : Pc → Type 0
IsNumbered (opening id) = 0 < id
IsNumbered (posting id) = 0 < id
IsNumbered (waiting id) = 0 < id
IsNumbered (taken id) = 0 < id
IsNumbered (returning id) = 0 < id
IsNumbered _ = Unit

Move-IsNumbered :
    {m m' : Memory} {p q : Pc}
    → Move m p m' q
    → m.sync_calls ≡ m.begun
    → m'.begun < 2 ^ 64
    → IsNumbered p
    → IsNumbered q
Move-IsNumbered (lock_call e) n small v = omega arith
Move-IsNumbered _ n small v = ground arith

idle-IsNumbered : (n : ℕ) → All IsNumbered (idle n)
idle-IsNumbered zero = tt
idle-IsNumbered (suc n) = (tt, idle-IsNumbered n)

-- With the calls counted, which is what gives each a number.
record Numbered (n : ℕ) (m : Memory) (ts : List Pc) : Type 0 where
  reachable : Reachable n m ts
  calls : m.begun < 2 ^ 64 → All IsNumbered ts

has-countdown : (k id : ℕ) → 0 < id → id ≡ k → has id (countdown k) ≡ true
has-countdown zero id p e = absurd (omega arith)
has-countdown (suc k) id p e = ground arith

Reachable-Numbered : (n : ℕ) (m : Memory) (ts : List Pc) → Reachable n m ts → Numbered n m ts
Reachable-Numbered n m ts r =
    Reach-inv (Numbered n) step (record { reachable = start; calls = λ b. idle-IsNumbered n }) r
  where
    step :
        (m m' : Memory) (ts : List Pc) (i : ℕ) (p q : Pc)
        → get_elem? ts i ≡ some p
        → Move m p m' q
        → Numbered n m ts
        → Numbered n m' (set ts i q)
    step m m' ts i p q e mv v = record {
      reachable = later v.reachable (turn i e mv);
      calls = λ small.
          let before : m.begun < 2 ^ 64 = omega (arith, begun-grows mv) in
          let numbered = (Reachable-Inv n m ts before v.reachable).counts.numbered in
          let all : All IsNumbered ts = v.calls before in
          All-set IsNumbered IsNumbered (λ p' h. h) ts i q all
            (Move-IsNumbered mv numbered small (All-get IsNumbered ts i p all e));
    }

pub returning-has :
    (n : ℕ) (m : Memory) (ts : List Pc) (i id : ℕ)
    → m.begun < 2 ^ 64
    → Reachable n m ts
    → get_elem? ts i ≡ some (returning id)
    → has id m.ran ≡ true
returning-has n m ts i id small r e =
    let (k, ran, _, _, _, _, all) = on_loop_sync_once n m ts small r in
    let last : id ≡ k = All-get (Knows k) ts i (returning id) all e in
    let positive : 0 < id =
      All-get IsNumbered ts i (returning id) ((Reachable-Numbered n m ts r).calls small) e in
    subst (λ xs. has id xs ≡ true) (sym ran) (has-countdown k id positive last)
