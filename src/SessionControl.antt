-- ===== src/SessionControl.antt =====
-- reactor.h: `shutdown_connection` and `SessionControl::force`, as `Reactor::force_all` calls it for each
-- session that is tracked. The system's calls are parameters; `Os` is its state, and descriptors, endpoints
-- and connections are numbers.
pub mod Reached
use reactor.AbortList.Links.{has}
use reactor.Prelude.{
  ℕ, ◌≤◌, ◌≡◌, ◌≢◌, Bool, true, false, Option, none, some, List, [], ◌∷◌, if◌then◌else◌, ◌==◌, ltb,
  leb, ◌⊎◌,
}

-- `getpeername` with the size that it stores, `shutdown` of both directions, and the capacity of an
-- `endpoint`.
pub record Sockets (Os : Type 0) : Type 0 where
  pub capacity : ℕ
  pub getpeername : Os → ℕ → Option (ℕ × ℕ)
  pub shutdown : Os → ℕ → Os

-- The connection that a descriptor names, the peer of a connection, and whether a connection is shut
-- down or lost, so that no wait on it goes on.
pub record View (Os : Type 0) : Type 0 where
  pub names : Os → ℕ → Option ℕ
  pub peer_of : ℕ → ℕ
  pub is_over : Os → ℕ → Bool

-- What is documented of the calls.
pub record Documented {Os : Type 0} (sys : Sockets Os) (view : View Os) : Type 0 where
  -- the name of a descriptor's peer is that of its connection's
  pub answers :
      (os : Os) (fd size peer : ℕ)
      → sys.getpeername os fd ≡ some (size, peer)
      → size ≤ sys.capacity
      → (c : ℕ) × (view.names os fd ≡ some c) × (view.peer_of c ≡ peer)
  -- it is there, in full, while the connection is
  pub connected :
      (os : Os) (fd c : ℕ)
      → view.names os fd ≡ some c
      → (view.is_over os c ≡ true)
        ⊎ ((size : ℕ) × (peer : ℕ) × (sys.getpeername os fd ≡ some (size, peer))
            × (size ≤ sys.capacity))
  pub keeps_table : (os : Os) (fd b : ℕ) → view.names (sys.shutdown os fd) b ≡ view.names os b
  pub ends :
      (os : Os) (fd c : ℕ) → view.names os fd ≡ some c → view.is_over (sys.shutdown os fd) c ≡ true
  pub stays :
      (os : Os) (fd c : ℕ) → view.is_over os c ≡ true → view.is_over (sys.shutdown os fd) c ≡ true

-- `SessionControl`
pub record Control : Type 0 where
  pub descriptor : ℕ
  pub peer : ℕ

module _ {Os : Type 0} (sys : Sockets Os) where
  -- Whether it calls `shutdown`.
  unfoldable pub shuts : Os → Control → Bool
  shuts os control = elim (sys.getpeername os control.descriptor) [
    | none ↦ false
    | some (size, current) ↦ if ltb sys.capacity size then false else current == control.peer
  ]

  -- `shutdown_connection`: its second call is made in the state `os1` that the first call's answer in `os`
  -- finds then.
  unfoldable pub shutdown_connection : (os os1 : Os) → Control → Os
  unfolding shuts
  shutdown_connection os os1 control =
      if shuts os control then sys.shutdown os1 control.descriptor else os1

-- A `shutdown`: the session, the state at its `getpeername`, and the state at its call.
pub record Hit (Os : Type 0) : Type 0 where
  pub session : ℕ
  pub checked : Os
  pub called : Os

-- What other threads do: they leave alone the descriptors of the sessions `open`, and bring no
-- connection back. All other descriptors they close, open and reuse as they like.
pub record Others {Os : Type 0} (view : View Os) (control : ℕ → Control) (open_ones : List ℕ)
    (os os1 : Os) : Type 0 where
  pub keeps :
      (a : ℕ)
      → has a open_ones ≡ true
      → view.names os1 (control a).descriptor ≡ view.names os (control a).descriptor
  pub stays : (c : ℕ) → view.is_over os c ≡ true → view.is_over os1 c ≡ true

-- The calls of `force()` on the sessions in turn, from a state of the system to a state, with the
-- calls of `shutdown`. Other threads act between the calls of `force()` and inside them. The sessions
-- `open_ones` have not closed their sockets, which a session does on the loop that the walk holds.
pub data Forces {Os : Type 0} (sys : Sockets Os) (view : View Os) (control : ℕ → Control)
    (open_ones : List ℕ) : Os → List ℕ → List (Hit Os) → Os → Type 0 where
  done : {os : Os} → Forces sys view control open_ones os [] [] os
  force :
      {os os1 os' : Os} (a : ℕ) {rest : List ℕ} {hits : List (Hit Os)}
      → Others view control open_ones os os1
      → Forces sys view control open_ones (shutdown_connection sys os os1 (control a)) rest hits os'
      → Forces sys view control open_ones os
          (a ∷ rest)
          (if shuts sys os (control a)
            then record { session = a; checked = os; called = os1 } ∷ hits
            else hits)
          os'
  others :
      {os os1 os' : Os} {rest : List ℕ} {hits : List (Hit Os)}
      → Others view control open_ones os os1
      → Forces sys view control open_ones os1 rest hits os'
      → Forces sys view control open_ones os rest hits os'
