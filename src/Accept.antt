-- ===== src/Accept.antt =====
-- reactor.h, `namespace detail`: how an accept loop judges an error, `retryable_accept_error`,
-- `per_connection_accept_error` and `AcceptControl`. The system's error numbers are a parameter.
pub mod Judge
pub mod Backoff
pub mod Startup
pub mod Loop
pub mod Stop
use reactor.Prelude.{
  ℕ, ◌+◌, ◌*◌, ◌≡◌, ◌≢◌, Bool, true, false, not, ◌&&◌, ◌||◌, Option, none, some, if◌then◌else◌,
  ◌==◌, leb, min, u32, List, [], ◌∷◌,
}

-- `error_code`: `asio::system_category()`, or another category.
pub record ErrorCode : Type 0 where
  pub value : ℕ
  pub system : Bool

-- The error numbers of the platform, and what its headers define (`ENONET`, `__APPLE__`).
pub record Platform : Type 0 where
  pub emfile : ℕ
  pub enfile : ℕ
  pub enobufs : ℕ
  pub enomem : ℕ
  pub eintr : ℕ
  pub eagain : ℕ
  pub ewouldblock : ℕ
  pub econnaborted : ℕ
  pub econnreset : ℕ
  pub eproto : ℕ
  pub enetdown : ℕ
  pub enetunreach : ℕ
  pub ehostdown : ℕ
  pub ehostunreach : ℕ
  pub eopnotsupp : ℕ
  pub enoprotoopt : ℕ
  pub enonet : Option ℕ
  pub einval : ℕ
  pub apple : Bool

abbrev pub any_of : ℕ → List ℕ → Bool
any_of v [] = false
any_of v (x ∷ xs) = (v == x) || any_of v xs

abbrev pub is_optional : ℕ → Option ℕ → Bool
is_optional v none = false
is_optional v (some x) = v == x

module _ (os : Platform) where
  -- A comparison with a constant of `asio::error`, which are numbers of the system category.
  abbrev is_error : ErrorCode → ℕ → Bool
  is_error e v = e.system && (e.value == v)

  unfoldable pub retryable_accept_error : ErrorCode → Bool
  retryable_accept_error e =
      is_error e os.emfile
      || (e.value == os.enfile)
      || is_error e os.enobufs
      || is_error e os.enomem
      || is_error e os.eintr
      || is_error e os.eagain
      || is_error e os.ewouldblock

  -- The labels of the `switch` that every platform has.
  abbrev network_errors : List ℕ
  network_errors =
      os.econnaborted ∷ os.econnreset ∷ os.eproto ∷ os.enetdown ∷ os.enetunreach ∷ os.ehostdown
      ∷ os.ehostunreach ∷ os.eopnotsupp ∷ os.enoprotoopt ∷ []

  unfoldable pub per_connection_accept_error : ErrorCode → Bool
  per_connection_accept_error e =
      if is_error e os.econnaborted || is_error e os.econnreset
      then true
      else if any_of e.value network_errors || is_optional e.value os.enonet
      then e.system
      else if os.apple && (e.value == os.einval)
      then e.system
      else false

-- The part of `AcceptControl` that `retry` reads and writes. An endpoint is named by a number.
pub record Control : Type 0 where
  pub retry_delay : ℕ  -- milliseconds
  pub skipped : ℕ  -- a 32-bit counter
  pub bound : ℕ

abbrev pub fresh : ℕ → Control
fresh bound = record { retry_delay = 10; skipped = 0; bound = bound }

-- What `retry` does with an error before it waits on its timer.
pub data Verdict : Type 0 where
  stopped : Verdict  -- returns false
  skip : Verdict  -- returns true at once
  fatal : ErrorCode → Verdict  -- throws `system_error`
  pause : (delay : ℕ) → Verdict  -- waits

module _ (os : Platform) where
  -- `listener_lost(error)`, where `acceptor->local_endpoint` answers `local`, or fails
  unfoldable pub listener_lost : Control → Option ℕ → ErrorCode → Bool
  listener_lost c local e =
      if not ((e.value == os.einval) && e.system)
      then false
      else elim local [ none ↦ true | some l ↦ not (l == c.bound) ]

  -- `retry(error)` up to the wait, where `stopping` is what the flag reads
  pub judge : Bool → Option ℕ → ErrorCode → Control → Verdict × Control
  judge stopping local e c =
      let per_connection : Bool =
        per_connection_accept_error os e && not (listener_lost c local e) in
      let skipped : ℕ = u32 (c.skipped + 1) in
      if stopping
      then (stopped, c)
      else if per_connection && leb skipped 64
      then (skip, record c { skipped = skipped })
      else if not per_connection && not (retryable_accept_error os e)
      then (fatal e, c)
      else if per_connection
      then (pause 1, record c { skipped = skipped })
      else (pause c.retry_delay, record c { retry_delay = min (c.retry_delay * 2) 1000 })

-- A connection was accepted: the loop resets both.
pub reset : Control → Control
reset c = record c { retry_delay = 10; skipped = 0 }
