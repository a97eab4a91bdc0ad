-- ===== src/Udp.antt =====
-- reactor_udp.h: `UdpServer`, its options, the setup of its socket and its phases of shutdown. The
-- socket is a parameter: the model lists the calls made on it, and an oracle says which it accepts.
pub mod Buffers
pub mod Receive
pub mod Start
pub mod Phases
pub mod Thread
use reactor.Prelude.{
  ℕ, zero, suc, ◌+◌, ◌-◌, ◌/◌, Bool, true, false, Option, none, some, List, [], ◌∷◌, ◌++◌,
  if◌then◌else◌, leb, ◌==◌, u32,
}
use reactor.Gate.{slt}

-- A text is a number, and `none` the empty text. `multicast_ttl` is the 32-bit pattern of an `int`.
pub record UdpOptions : Type 0 where
  pub address : Option ℕ
  pub reuse_address : Bool
  pub reuse_port : Bool
  pub multicast_group : Option ℕ
  pub multicast_interface : Option ℕ
  pub multicast_loop : Bool
  pub multicast_ttl : ℕ
  pub send_buffer : ℕ
  pub recv_buffer : ℕ
  pub max_datagram : ℕ

-- The calls of `start`: those that parse an address, and those on the socket.
pub data Call : Type 0 where
  make_address : (address : ℕ) → Call
  make_address_v4 : (address : ℕ) → Call
  open_v4 : Call
  reuse_address : Call
  reuse_port : Call
  send_buffer_size : (size : ℕ) → Call
  receive_buffer_size : (size : ℕ) → Call
  enable_loopback : Bool → Call
  hops : (ttl : ℕ) → Call
  outbound_interface : (address : ℕ) → Call
  bind : (address : Option ℕ) (port : ℕ) → Call
  join_group : (group : ℕ) (interface : Option ℕ) → Call

-- The sizes that the loop of `size_buffers` tries for one buffer; `takes` answers for the `int`.
-- Each round halves the size, so 64 rounds are enough for a `size_t`.
unfoldable pub attempts : (takes : ℕ → Bool) (fuel size : ℕ) → List ℕ
attempts takes zero size = []
attempts takes (suc fuel) size =
    let smaller = attempts takes fuel (size / 2) in
    if leb 262144 size then (if takes (u32 size) then size ∷ [] else size ∷ smaller) else []

abbrev pub as_calls : (ℕ → Call) → List ℕ → List Call
as_calls f [] = []
as_calls f (s ∷ ss) = f (u32 s) ∷ as_calls f ss

-- The calls for one buffer, whose option `f` sets.
pub buffer_calls : (Call → Bool) → (f : ℕ → Call) → (target : ℕ) → List Call
buffer_calls accepts f target =
    if target == 0 then [] else as_calls f (attempts (λ s. accepts (f s)) 64 target)

-- `size_buffers`: its calls, none of which throws.
pub size_buffers : (Call → Bool) → UdpOptions → List Call
size_buffers accepts o =
    buffer_calls accepts send_buffer_size o.send_buffer
    ++ buffer_calls accepts receive_buffer_size o.recv_buffer

abbrev pub if_list : Bool → List Call → List Call
if_list b cs = if b then cs else []

abbrev pub open_calls : UdpOptions → List Call
open_calls o =
    (elim o.address [ none ↦ [] | some a ↦ make_address a ∷ [] ])
    ++ (open_v4 ∷ if_list o.reuse_address (reuse_address ∷ [])
        ++ if_list o.reuse_port (reuse_port ∷ []))

abbrev pub multicast_calls : UdpOptions → List Call
multicast_calls o = elim o.multicast_group [
  | none ↦ []
  | some g ↦
      enable_loopback o.multicast_loop ∷ if_list (slt 0 o.multicast_ttl) (hops o.multicast_ttl ∷ [])
      ++ (elim o.multicast_interface [
        | none ↦ []
        | some a ↦ make_address_v4 a ∷ outbound_interface a ∷ []
      ])
]

abbrev pub join_calls : UdpOptions → List Call
join_calls o = elim o.multicast_group [
  | none ↦ []
  | some g ↦ make_address_v4 g ∷ (elim o.multicast_interface [
    | none ↦ join_group g none ∷ []
    | some a ↦ make_address_v4 a ∷ join_group g (some a) ∷ []
  ])
]

-- What the calls have come to: the calls made, and the one that threw.
pub record Outcome : Type 0 where
  pub made : List Call
  pub thrown : Option Call

-- Calls that throw when they are refused.
unfoldable pub perform : (Call → Bool) → List Call → Outcome
perform accepts [] = record { made = []; thrown = none }
perform accepts (c ∷ cs) =
    let rest : Outcome = perform accepts cs in
    if accepts c
    then record { made = c ∷ rest.made; thrown = rest.thrown }
    else record { made = c ∷ []; thrown = some c }

abbrev pub and_then : Outcome → Outcome → Outcome
and_then a b = elim a.thrown [
  | none ↦ record { made = a.made ++ b.made; thrown = b.thrown }
  | some c ↦ a
]

-- Calls that throw, calls that do not, and more calls that throw.
unfoldable pub in_turn : (Call → Bool) → (first tries last : List Call) → Outcome
in_turn accepts first tries last =
    and_then (perform accepts first)
      (and_then (record { made = tries; thrown = none }) (perform accepts last))

-- The setup of the socket in `start`, up to the launch of the receive loop.
unfoldable pub setup : (Call → Bool) → UdpOptions → ℕ → Outcome
setup accepts o port =
    in_turn accepts (open_calls o) (size_buffers accepts o)
      (multicast_calls o ++ (bind o.address port ∷ join_calls o))
