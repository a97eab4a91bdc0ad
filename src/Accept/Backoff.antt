-- ===== src/Accept/Backoff.antt =====
-- The pauses of an accept loop whose accepts keep failing.
use native.Mathlib.Nat.{pow-suc, add-zero, zero-add, add_assoc}
use native.Mathlib.Numerals.{add-one}
use reactor.Prelude.{
  ℕ, ◌+◌, ◌-◌, ◌*◌, ◌^◌, ◌<◌, ◌≡◌, refl, ◌∙◌, Bool, false, not, ◌&&◌, Option, List, [], ◌∷◌, arith,
  if◌then◌else◌, min, u32, ltb,
}
use reactor.Accept.{
  ErrorCode, Platform, Control, skip, fatal, pause, fresh, retryable_accept_error,
  per_connection_accept_error, listener_lost, judge,
}

-- An error, and what the listener's `local_endpoint` answers then.
abbrev pub Failure : Type 0
Failure = ErrorCode × Option ℕ

module _ (os : Platform) where
  -- After these failures in turn, while the loop is not asked to stop.
  pub after_failures : Control → List Failure → Control
  unfolding judge
  after_failures c [] = c
  after_failures c ((e, local) ∷ fs) = after_failures (judge os false local e c).1 fs

  -- The failure belongs to one pending connection.
  abbrev pub is_connection : ℕ → Failure → Bool
  is_connection bound (e, local) =
      per_connection_accept_error os e && not (listener_lost os (fresh bound) local e)

  abbrev pub is_resource : ℕ → Failure → Bool
  is_resource bound (e, local) = not (is_connection bound (e, local)) && retryable_accept_error os e

  unfoldable pub connections : ℕ → List Failure → ℕ
  connections bound [] = 0
  connections bound (f ∷ fs) = (if is_connection bound f then 1 else 0) + connections bound fs

  pub resources : ℕ → List Failure → ℕ
  resources bound [] = 0
  resources bound (f ∷ fs) = (if is_resource bound f then 1 else 0) + resources bound fs

  -- After `k` connection errors and `r` resource errors.
  abbrev counted : ℕ → ℕ → ℕ → Control
  counted bound k r = record { retry_delay = min (10 * 2 ^ r) 1000; skipped = u32 k; bound = bound }

  listener_lost-bound :
      (c : Control) (local : Option ℕ) (e : ErrorCode)
      → listener_lost os c local e ≡ listener_lost os (fresh c.bound) local e
  unfolding listener_lost
  listener_lost-bound c local e = refl

  judge-counted :
      (bound k r : ℕ) (e : ErrorCode) (local : Option ℕ)
      → (judge os false local e (counted bound k r)).1
        ≡ counted bound
            (k + (if is_connection bound (e, local) then 1 else 0))
            (r + (if is_resource bound (e, local) then 1 else 0))
  unfolding judge
  judge-counted bound k r e local =
      let same : 2 ^ (r + 0) ≡ 2 ^ r = simp add-zero in
      let double : 2 ^ (r + 1) ≡ 2 ^ r * 2 = simp add-one (pow-suc 2 r) in
      rw (listener_lost-bound (counted bound k r) local e) (ground arith)

  after_failures-counted :
      (bound k r : ℕ) (fs : List Failure)
      → after_failures (counted bound k r) fs
        ≡ counted bound (k + connections bound fs) (r + resources bound fs)
  unfolding after_failures connections resources
  after_failures-counted bound k r [] = simp add-zero
  after_failures-counted bound k r ((e, local) ∷ fs) = rw (judge-counted bound k r e local) (
      after_failures-counted bound (k + (if is_connection bound (e, local) then 1 else 0))
        (r + (if is_resource bound (e, local) then 1 else 0)) fs
      ∙ simp add_assoc)

  -- The pauses depend only on how many failures of each kind came since the last connection. A
  -- connection's error is skipped at once the first 64 times, and pauses 1 ms from then on; a
  -- resource error pauses 10 ms doubled by each resource error before it, at most a second; any
  -- other error ends the loop. Fewer than `2 ^ 32 - 1` connection errors came.
  pub pauses :
      (bound : ℕ) (fs : List Failure) (e : ErrorCode) (local : Option ℕ)
      → connections bound fs < 2 ^ 32 - 1
      → (judge os false local e (after_failures (fresh bound) fs)).0 ≡ (
          if is_connection bound (e, local)
          then (if ltb (connections bound fs) 64 then skip else pause 1)
          else if retryable_accept_error os e
          then pause (min (10 * 2 ^ resources bound fs) 1000)
          else fatal e)
  unfolding judge
  pauses bound fs e local h =
      let k = connections bound fs in
      let e' : after_failures (fresh bound) fs ≡ counted bound k (resources bound fs) =
        after_failures-counted bound 0 0 fs ∙ simp zero-add in
      rw (e', listener_lost-bound (counted bound k (resources bound fs)) local e) (ground arith)
