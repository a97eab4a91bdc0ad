-- ===== src/Udp/Start.antt =====
-- `UdpServer::start`: the order of the calls on the socket, and the launch of the loop's thread.
use reactor.Prelude.{
  ℕ, ◌≡◌, refl, sym, ◌∙◌, Bool, true, false, none, some, List, [], ◌∷◌, ◌++◌, ◌||◌, ◌==◌, ◌⊎◌,
  subst, All, All-append, arith, inl, inr, Bool-cases,
}
use mathlib.Core.List.{append_assoc}
use reactor.Udp.{
  UdpOptions, Call, make_address_v4, send_buffer_size, receive_buffer_size, bind, join_group,
  Outcome, open_calls, multicast_calls, join_calls, size_buffers, perform, setup, as_calls,
  and_then, in_turn, buffer_calls,
}

pub perform-ok :
    (accepts : Call → Bool) (cs : List Call)
    → (perform accepts cs).thrown ≡ none
    → ((perform accepts cs).made ≡ cs) × All (λ c. accepts c ≡ true) cs
unfolding perform
perform-ok accepts [] h = ground arith
perform-ok accepts (c ∷ cs) h = ground (arith, perform-ok accepts cs)

perform-threw :
    (accepts : Call → Bool) (P : Call → Type 0) (cs : List Call) (c : Call)
    → All P cs
    → (perform accepts cs).thrown ≡ some c
    → (accepts c ≡ false) × P c
unfolding perform
perform-threw accepts P [] c all h = cc
perform-threw accepts P (x ∷ cs) c all h = elim (Bool-cases (accepts x)) [
  | inl taken ↦ perform-threw accepts P cs c all.1 (ground arith)
  | inr refused ↦ subst (λ y. (accepts y ≡ false) × P y) (ground arith) (refused, all.0)
]

-- A call whose refusal does not throw.
abbrev pub is_buffer_size : Call → Bool
is_buffer_size (send_buffer_size n) = true
is_buffer_size (receive_buffer_size n) = true
is_buffer_size _ = false

-- A call that may stand before the bind, and one that may stand after it.
abbrev pub IsEarly : Call → Type 0
IsEarly (bind a port) = ⊥
IsEarly (join_group g i) = ⊥
IsEarly _ = Unit

abbrev pub IsLate : Call → Type 0
IsLate (make_address_v4 a) = Unit
IsLate (join_group g i) = Unit
IsLate _ = ⊥

abbrev pub Accepted : (Call → Bool) → Call → Type 0
Accepted accepts c = (is_buffer_size c || accepts c) ≡ true

open-IsEarly : (o : UdpOptions) → All IsEarly (open_calls o)
open-IsEarly o = ground arith

multicast-IsEarly : (o : UdpOptions) → All IsEarly (multicast_calls o)
multicast-IsEarly o = ground arith

join-IsLate : (o : UdpOptions) → All IsLate (join_calls o)
join-IsLate o = ground arith

All-Accepted :
    (accepts : Call → Bool) (cs : List Call)
    → All (λ c. accepts c ≡ true) cs
    → All (Accepted accepts) cs
All-Accepted accepts [] h = tt
All-Accepted accepts (c ∷ cs) h = (ground (arith, h.0), All-Accepted accepts cs h.1)

as_calls-All :
    (P : Call → Type 0) (f : ℕ → Call) → ((s : ℕ) → P (f s)) → (ss : List ℕ) → All P (as_calls f ss)
as_calls-All P f p [] = tt
as_calls-All P f p (s ∷ ss) = (p _, as_calls-All P f p ss)

buffer_calls-All :
    (P : Call → Type 0) (accepts : Call → Bool) (f : ℕ → Call) (target : ℕ)
    → ((s : ℕ) → P (f s))
    → All P (buffer_calls accepts f target)
unfolding buffer_calls
buffer_calls-All P accepts f target p = elim (Bool-cases (target == 0)) [
  | inl unset ↦ rw unset tt
  | inr wanted ↦ rw wanted (as_calls-All P f p _)
]

-- What holds of each call that sets a buffer size holds of the calls of `size_buffers`.
size_buffers-All :
    (P : Call → Type 0) (accepts : Call → Bool) (o : UdpOptions)
    → ((s : ℕ) → P (send_buffer_size s))
    → ((s : ℕ) → P (receive_buffer_size s))
    → All P (size_buffers accepts o)
unfolding size_buffers
size_buffers-All P accepts o p q =
    All-append P _ _ (buffer_calls-All P accepts _ _ p) (buffer_calls-All P accepts _ _ q)

and_then-none :
    (a b : Outcome)
    → (and_then a b).thrown ≡ none
    → (a.thrown ≡ none) × (b.thrown ≡ none) × ((and_then a b).made ≡ a.made ++ b.made)
and_then-none a b h = ground arith

and_then-some :
    (a b : Outcome) (c : Call)
    → (and_then a b).thrown ≡ some c
    → (a.thrown ≡ some c) ⊎ (b.thrown ≡ some c)
and_then-some a b c h = ground arith

in_turn-none :
    (accepts : Call → Bool) (first tries last : List Call)
    → (in_turn accepts first tries last).thrown ≡ none
    → ((in_turn accepts first tries last).made ≡ first ++ (tries ++ last))
      × All (λ c. accepts c ≡ true) first
      × All (λ c. accepts c ≡ true) last
unfolding in_turn
in_turn-none accepts first tries last h =
    ((and_then-none (perform accepts first) rest h).2 ∙ whole, f.1, l.1)
  where
    rest : Outcome
    rest = and_then (record { made = tries; thrown = none }) (perform accepts last)

    f : ((perform accepts first).made ≡ first) × All (λ c. accepts c ≡ true) first
    f = perform-ok accepts first (and_then-none (perform accepts first) rest h).0

    l : ((perform accepts last).made ≡ last) × All (λ c. accepts c ≡ true) last
    l = perform-ok accepts last (and_then-none (perform accepts first) rest h).1

    whole :
        (perform accepts first).made ++ (tries ++ (perform accepts last).made)
        ≡ first ++ (tries ++ last)
    whole = rw (f.0, l.0)

in_turn-some :
    (accepts : Call → Bool) (P : Call → Type 0) (first tries last : List Call) (c : Call)
    → All P first
    → All P last
    → (in_turn accepts first tries last).thrown ≡ some c
    → (accepts c ≡ false) × P c
unfolding in_turn
in_turn-some accepts P first tries last c f l h =
    elim (and_then-some (perform accepts first)
      (and_then (record { made = tries; thrown = none }) (perform accepts last)) c h) [
        | inl early ↦ perform-threw accepts P first c f early
        | inr late ↦ perform-threw accepts P last c l (ground arith)
      ]

-- The call for which the setup of `start` throws was refused, and it does not set a buffer size:
-- those are tried, and their refusals passed over.
pub setup-threw :
    (accepts : Call → Bool) (o : UdpOptions) (port : ℕ) (c : Call)
    → (setup accepts o port).thrown ≡ some c
    → (accepts c ≡ false) × (is_buffer_size c ≡ false)
unfolding setup
setup-threw accepts o port c h =
    in_turn-some accepts (λ x. is_buffer_size x ≡ false) (open_calls o) (size_buffers accepts o)
      (multicast_calls o ++ (bind o.address port ∷ join_calls o)) c (ground arith) (ground arith) h

regroup : (ws xs ys zs : List Call) → ws ++ (xs ++ (ys ++ zs)) ≡ (ws ++ (xs ++ ys)) ++ zs
regroup ws xs ys zs = rw (append_assoc ws (xs ++ ys) zs, append_assoc xs ys zs)

-- A `start` whose setup succeeds has made exactly one bind, to its own address and port; each call
-- before it opens the socket or sets an option, each call after it joins the group, and every call
-- but those for a buffer size was accepted.
pub setup-order :
    (accepts : Call → Bool) (o : UdpOptions) (port : ℕ)
    → (setup accepts o port).thrown ≡ none
    → (before : List Call) × (after : List Call) × ((setup accepts o port).made
        ≡ before ++ (bind o.address port ∷ after))
      × All IsEarly before
      × All IsLate after
      × All (Accepted accepts) (setup accepts o port).made
unfolding setup
setup-order accepts o port h =
    let made =
      in_turn-none accepts (open_calls o) (size_buffers accepts o)
        (multicast_calls o ++ (bind o.address port ∷ join_calls o)) h in
    (
      open_calls o ++ (size_buffers accepts o ++ multicast_calls o),
      join_calls o,
      made.0
          ∙ regroup (open_calls o) (size_buffers accepts o) (multicast_calls o)
              (bind o.address port ∷ join_calls o),
      All-append IsEarly (open_calls o) _ (open-IsEarly o) (
          All-append IsEarly (size_buffers accepts o) _
            (size_buffers-All IsEarly accepts o (λ s. tt) (λ s. tt)) (multicast-IsEarly o)),
      join-IsLate o,
      subst (All (Accepted accepts)) (sym made.0) (
          All-append (Accepted accepts) (open_calls o) _
            (All-Accepted accepts (open_calls o) made.1)
            (All-append (Accepted accepts) (size_buffers accepts o) _
              (size_buffers-All (Accepted accepts) accepts o (λ s. refl) (λ s. refl))
              (All-Accepted accepts _ made.2))),
    )
