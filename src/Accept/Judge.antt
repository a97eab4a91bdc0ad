-- ===== src/Accept/Judge.antt =====
-- How each error of an accept is judged.
use reactor.Prelude.{ℕ, ◌≡◌, ◌↔◌, ◌≢◌, ◌⊎◌, true, false, Option, none, some, arith}
use reactor.Accept.{
  ErrorCode, Platform, retryable_accept_error, per_connection_accept_error, listener_lost, judge,
  Control, fatal,
}

-- `EINVAL` is none of the numbers of resource errors.
pub record IsDistinct (os : Platform) : Type 0 where
  pub emfile : os.einval ≢ os.emfile
  pub enfile : os.einval ≢ os.enfile
  pub enobufs : os.einval ≢ os.enobufs
  pub enomem : os.einval ≢ os.enomem
  pub eintr : os.einval ≢ os.eintr
  pub eagain : os.einval ≢ os.eagain
  pub ewouldblock : os.einval ≢ os.ewouldblock

module _ (os : Platform) where
  -- A running loop ends on an error exactly when the listener is gone, or when the error is
  -- neither one pending connection's nor one of resources.
  pub judge_fatal :
      (local : Option ℕ) (e : ErrorCode) (c : Control)
      → ((judge os false local e c).0 ≡ fatal e) ↔ (
          ((listener_lost os c local e ≡ true) ⊎ (per_connection_accept_error os e ≡ false))
          × (retryable_accept_error os e ≡ false))
  unfolding judge
  judge_fatal local e c = ground arith

  -- A listener that is gone is never retried: its `EINVAL` ends the loop, also where the platform
  -- reports a connection that was reset by the same number.
  pub judge_lost :
      (local : Option ℕ) (e : ErrorCode) (c : Control)
      → IsDistinct os
      → e.value ≡ os.einval
      → e.system ≡ true
      → local ≢ some c.bound
      → judge os false local e c ≡ (fatal e, c)
  unfolding judge listener_lost retryable_accept_error
  judge_lost none e c d v s l = ground arith
  judge_lost (some x) e c d v s l = ground arith
