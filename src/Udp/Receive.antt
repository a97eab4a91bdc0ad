-- ===== src/Udp/Receive.antt =====
-- `UdpServer::receive_loop`. The datagrams and what the hook does with each are parameters.
use reactor.Prelude.{
  ℕ, ◌+◌, ◌≡◌, Bool, true, false, not, ◌&&◌, List, [], ◌∷◌, arith, if◌then◌else◌, ◌==◌, Bool-cases,
  inl, inr,
}

-- What one `async_receive_from` completes with: an error, or bytes of a sender. A datagram is
-- numbered, and `size` counts its bytes.
pub data Completion : Type 0 where
  failed : Completion
  received : (size datagram sender : ℕ) → Completion

-- What the loop has done: the datagrams given to the hook with their senders, the last first, the
-- hook's exceptions that were reported, and whether the loop has returned.
pub record Progress : Type 0 where
  pub delivered : List (ℕ × ℕ)
  pub reported : ℕ
  pub returned : Bool

abbrev pub fresh : Progress
fresh = record { delivered = []; reported = 0; returned = false }

-- One round, where a hook is set and `throws` says whether it throws on this datagram.
pub round : (has_hook : Bool) (throws : ℕ → Bool) → Completion → Progress → Progress
round has_hook throws failed p = record p { returned = true }
round has_hook throws (received size datagram sender) p =
    if not (size == 0) && has_hook
    then record p {
      delivered = (datagram, sender) ∷ p.delivered;
      reported = if throws datagram then p.reported + 1 else p.reported;
    }
    else p

-- The loop over the completions so far; a loop that has returned receives no more.
pub receive_loop : (has_hook : Bool) (throws : ℕ → Bool) → List Completion → Progress → Progress
unfolding round
receive_loop has_hook throws [] p = p
receive_loop has_hook throws (c ∷ cs) p =
    let q = round has_hook throws c p in
    let rest = receive_loop has_hook throws cs q in if q.returned then q else rest

-- The size of the receive buffer.
abbrev pub buffer_size : (max_datagram : ℕ) → ℕ
buffer_size max_datagram = if not (max_datagram == 0) then max_datagram else 1500

-- The datagrams that are not empty and arrive before the first error, the first first.
abbrev pub arrivals : List Completion → List (ℕ × ℕ)
arrivals [] = []
arrivals (failed ∷ cs) = []
arrivals (received size datagram sender ∷ cs) =
    let rest = arrivals cs in if size == 0 then rest else (datagram, sender) ∷ rest

abbrev pub count_thrown : (ℕ → Bool) → List (ℕ × ℕ) → ℕ
count_thrown throws [] = 0
count_thrown throws (d ∷ ds) = (if throws d.0 then 1 else 0) + count_thrown throws ds

abbrev pub has_failed : List Completion → Bool
has_failed [] = false
has_failed (failed ∷ cs) = true
has_failed (received _ _ _ ∷ cs) = has_failed cs

-- `xs` reversed, before `ys`.
abbrev pub onto : List (ℕ × ℕ) → List (ℕ × ℕ) → List (ℕ × ℕ)
onto [] ys = ys
onto (x ∷ xs) ys = onto xs (x ∷ ys)

-- The hook is given every datagram that is not empty and arrives before the first error, each once
-- and in the order of arrival, whichever of its calls throw: each exception is reported and the
-- loop goes on. The loop returns at the first error and at nothing else.
pub receive_loop-delivers :
    (throws : ℕ → Bool) (cs : List Completion) (p : Progress)
    → p.returned ≡ false
    → receive_loop true throws cs p ≡ record {
      delivered = onto (arrivals cs) p.delivered;
      reported = p.reported + count_thrown throws (arrivals cs);
      returned = has_failed cs;
    }
unfolding receive_loop
receive_loop-delivers throws [] p h = ground arith
receive_loop-delivers throws (failed ∷ cs) p h = ground arith
receive_loop-delivers throws (received size datagram sender ∷ cs) p h =
    elim (Bool-cases (size == 0)) [
      | inl empty ↦ ground (arith, receive_loop-delivers throws cs p h)
      | inr full ↦ ground (
        arith,
        receive_loop-delivers throws cs
            (record p {
              delivered = (datagram, sender) ∷ p.delivered;
              reported = if throws datagram then p.reported + 1 else p.reported;
            })
            h,
      )
    ]
