-- ===== src/Examples/Datagrams.antt =====
-- reactor_udp.h: a gossip node on a multicast group.
use reactor.Prelude.{
  ℕ, ◌≤◌, ◌≡◌, ◌↔◌, refl, Bool, true, List, [], ◌∷◌, none, some, arith, ltb, get_elem?,
}
use reactor.Udp.{UdpOptions, Call, attempts}
use reactor.Udp.Buffers.{halved, Refused, attempts_halve}
use reactor.Udp.Receive.{Completion, failed, received, fresh, receive_loop, receive_loop-delivers}
use reactor.Udp.Phases.{start, stops, destroys, phases, make}
use reactor.Udp.Phases.Shutdown.{IsShut, phases-settle}

abbrev gossip : UdpOptions
gossip = record {
  address = none;
  reuse_address = true;
  reuse_port = true;
  multicast_group = some 239;
  multicast_interface = some 127;
  multicast_loop = true;
  multicast_ttl = 1;
  send_buffer = 1048576;
  recv_buffer = 0;
  max_datagram = 1500;
}

abbrev up_to_half : ℕ → Bool
up_to_half s = ltb s 600000

attempts_halve_example :
    (get_elem? (attempts up_to_half 64 1048576) 1 ≡ some 524288)
    ↔ ((524288 ≡ halved 1 1048576) × (262144 ≤ 524288) × Refused up_to_half 1 1048576)
attempts_halve_example = attempts_halve up_to_half 1048576 1 524288 (omega arith)

abbrev accepts_all : Call → Bool
accepts_all c = true

abbrev completions : List Completion
completions = received 9 1 7 ∷ received 0 2 7 ∷ received 5 3 8 ∷ failed ∷ received 1 4 7 ∷ []

abbrev second : ℕ → Bool
second d = ltb 1 d

receive_loop-delivers_example :
    receive_loop true second completions fresh
    ≡ record { delivered = (3, 8) ∷ (1, 7) ∷ []; reported = 1; returned = true }
receive_loop-delivers_example = receive_loop-delivers second completions fresh refl

phases-settle_example :
    let s = (start accepts_all true 4000 (make gossip)).0 in
    IsShut s (phases (stops ∷ destroys ∷ stops ∷ []) s)
phases-settle_example = phases-settle accepts_all true 4000 gossip stops (destroys ∷ stops ∷ [])
