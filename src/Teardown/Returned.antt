-- ===== src/Teardown/Returned.antt =====
-- reactor.h: what holds when a call of `abort_all` or `force_all` returns.
use mathlib.Core.List.{append-nil}
use reactor.Prelude.{ℕ, ◌^◌, ◌<◌, ◌≡◌, ◌≢◌, sym, subst, ◌∙◌, true, List, [], All, All-mono}
use reactor.Prelude.Threads.{start, later, turn}
use reactor.AbortList.Links.{has, erase}
use reactor.Sync.{
  Memory, Pc, Move, run_inline, run_on_loop, lock_call, run_taken, run_posted, Reachable,
}
use reactor.Sync.Returning.{returning-has}
use reactor.Shutdown.{Reactor, Hook, abort, force}
use reactor.Shutdown.Hooks.{begun, reached, WasReached}
use reactor.Shutdown.Tracked.{Tracked, enlist-Tracked, delist-Tracked, make-Tracked}
use reactor.Shutdown.Reached.{All-has}
use reactor.Teardown.{
  Effect, Reaches, start, moves, exchange, returns_at_once, tracks, untracks, HasRun, returns,
  ran_before, flag_set,
}
use reactor.Teardown.Walks.{enlist-begun, delist-begun, Body-begins, Body-keeps, Body-Tracked}

-- The walk of every call whose `f` has run has begun, and the reactor tracks a list.
record Inv (op : ℕ → Hook) (n : ℕ) (m : Memory) (ts : List Pc) (r : Reactor) : Type 0 where
  reachable : Reachable n m ts
  ran : All (λ id. begun (op id) r ≡ true) m.ran
  tracked : (xs : List ℕ) × Tracked r xs

-- What a move keeps of the calls that have run, and adds to them.
Move-ran :
    (op : ℕ → Hook) (r r' : Reactor) {m m' : Memory} {p q : Pc}
    → Move m p m' q
    → Effect op p q r r'
    → All (λ id. begun (op id) r ≡ true) m.ran
    → All (λ id. begun (op id) r' ≡ true) m'.ran
Move-ran op r r' (run_posted {id}) b v =
    (Body-begins (op id) b, All-mono _ _ _ (λ j h. Body-keeps (op j) (op id) b h) v)
Move-ran op r r' (run_taken {id}) b v =
    (Body-begins (op id) b, All-mono _ _ _ (λ j h. Body-keeps (op j) (op id) b h) v)
Move-ran op r r' run_inline (h, g, b) v = All-mono _ _ _ (λ j w. Body-keeps (op j) h b w) v
Move-ran op r r' run_on_loop (h, g, b) v = All-mono _ _ _ (λ j w. Body-keeps (op j) h b w) v
Move-ran op r r' {m = m} (lock_call e) (g, same) v =
    subst (λ s. All (λ id. begun (op id) s ≡ true) m.ran) (sym same) v
Move-ran op r r' {m = m} _ same v =
    subst (λ s. All (λ id. begun (op id) s ≡ true) m.ran) (sym same) v

Move-Tracked :
    (op : ℕ → Hook) (r r' : Reactor) {m m' : Memory} {p q : Pc}
    → Move m p m' q
    → Effect op p q r r'
    → (xs : List ℕ) × Tracked r xs
    → (ys : List ℕ) × Tracked r' ys
Move-Tracked op r r' (run_posted {id}) b (xs, v) = Body-Tracked (op id) xs b v
Move-Tracked op r r' (run_taken {id}) b (xs, v) = Body-Tracked (op id) xs b v
Move-Tracked op r r' run_inline (h, g, b) (xs, v) = Body-Tracked h xs b v
Move-Tracked op r r' run_on_loop (h, g, b) (xs, v) = Body-Tracked h xs b v
Move-Tracked op r r' (lock_call e) (g, same) (xs, v) = (xs, subst (λ s. Tracked s xs) (sym same) v)
Move-Tracked op r r' _ same (xs, v) = (xs, subst (λ s. Tracked s xs) (sym same) v)

aborting-begun :
    (h : Hook) (r : Reactor) → begun h r ≡ true → begun h (record r { aborting = true }) ≡ true
aborting-begun abort r v = v
aborting-begun force r v = v

Reaches-Inv :
    (op : ℕ → Hook) (n self : ℕ) (m : Memory) (ts : List Pc) (r : Reactor)
    → self ≢ 0
    → Reaches op n self m ts r
    → Inv op n m ts r
Reaches-Inv op n self m ts r ne start = record {
  reachable = start;
  ran = tt;
  tracked = ([], make-Tracked self ne);
}
Reaches-Inv op n self m' ts' r' ne (moves {m = m} {ts = ts} {r = r} i before e mv f) =
    let v = Reaches-Inv op n self m ts r ne before in
    record {
      reachable = later v.reachable (turn i e mv);
      ran = Move-ran op r r' mv f v.ran;
      tracked = Move-Tracked op r r' mv f v.tracked;
    }
Reaches-Inv op n self m ts r' ne (exchange {r = r} before first) =
    let v = Reaches-Inv op n self m ts r ne before in
    let (xs, t) = v.tracked in
    record {
      reachable = v.reachable;
      ran = All-mono _ _ m.ran (λ id h. aborting-begun (op id) r h) v.ran;
      tracked = (xs, record { list = t.list; aborted = t.aborted; forced = t.forced });
    }
Reaches-Inv op n self m ts r ne (returns_at_once before set) =
    Reaches-Inv op n self m ts r ne before
Reaches-Inv op n self m ts r' ne (tracks {r = r} a la lf before some_node free) =
    let v = Reaches-Inv op n self m ts r ne before in
    let (xs, t) = v.tracked in
    record {
      reachable = v.reachable;
      ran = All-mono _ _ m.ran (λ id h. enlist-begun (op id) a la lf r ∙ h) v.ran;
      tracked = enlist-Tracked r a la lf xs t some_node free;
    }
Reaches-Inv op n self m ts r' ne (untracks {r = r} a before) =
    let v = Reaches-Inv op n self m ts r ne before in
    let (xs, t) = v.tracked in
    record {
      reachable = v.reachable;
      ran = All-mono _ _ m.ran (λ id h. delist-begun (op id) a r ∙ h) v.ran;
      tracked = (erase a xs, delist-Tracked r a xs t);
    }

Tracked-WasReached :
    (h : Hook) (r : Reactor) (xs : List ℕ) (a : ℕ)
    → Tracked r xs
    → (r.aborts.heap a).list ≡ r.aborts.self
    → WasReached h r a
Tracked-WasReached abort r xs a v e =
    All-has _ a xs v.aborted (subst (λ l. has a l ≡ true) (append-nil xs) (v.list.owned a e))
Tracked-WasReached force r xs a v e =
    All-has _ a xs v.forced (subst (λ l. has a l ≡ true) (append-nil xs) (v.list.owned a e))

-- However callers of `abort_all` and `force_all`, the loop's threads and handlers that track and untrack
-- interleave, with fewer than `2 ^ 64` calls through the loop, where each hook returns, tracks and
-- untracks any nodes, also when `track` itself calls it, and walks the list only by an `abort_all` that
-- returns at once: when a call through the loop is about to return, and at any time after a walk has run,
-- also inline, the hook of the walk has been called on every node that is tracked then. A call of
-- `abort_all` that finds `aborting_` set returns at once, before that.
pub returning-reached :
    (op : ℕ → Hook) (n self : ℕ) (m : Memory) (ts : List Pc) (r : Reactor) (h : Hook) (a : ℕ)
    → self ≢ 0
    → m.begun < 2 ^ 64
    → Reaches op n self m ts r
    → HasRun op h m ts r
    → (r.aborts.heap a).list ≡ r.aborts.self
    → has a (reached h r) ≡ true
returning-reached op n self m ts r h a ne small s e here =
    let v = Reaches-Inv op n self m ts r ne s in
    let (xs, t) = v.tracked in
    let has_begun : (id : ℕ) → op id ≡ h → has id m.ran ≡ true → begun h r ≡ true =
      λ id same ran. subst (λ k. begun k r ≡ true) same (All-has _ id m.ran v.ran ran) in
    let on : begun h r ≡ true = elim e [
      | returns i id same at_end ↦
          has_begun id same (returning-has n m ts i id small v.reachable at_end)
      | ran_before id same ran ↦ has_begun id same ran
      | flag_set set ↦ set
    ] in
    rw on at (Tracked-WasReached h r xs a t here)
