-- ===== src/Reactors/Drained.antt =====
-- What it means that `sessions_end_within` answers true.
use reactor.Prelude.{
  ℕ, ◌^◌, ◌<◌, ◌≡◌, refl, sym, ap, ◌∙◌, Bool, true, List, [], ◌∷◌, arith, total, length, All,
  All-mono, total-eq-zero, ◌==◌, ==_iff, false≢true,
}
use reactor.Sessions.{Pc, outside, admitted}
use reactor.Sessions.Counted.{is_counted, is_leased}
use reactor.Reactors.{
  Stage, aborting, reaping, draining, waited, halted, Server, Conn, is_in_hand, feeder, held,
  Reachable,
}
use reactor.Reactors.Moves.{counted_at, leased, feeder-lt, Reaped, AtStage}
use reactor.Reactors.Stages.{if_zero, Reachable-Holds}

abbrev pub IsOutside : Conn → Type 0
IsOutside c = c.pc ≡ outside

pc-outside : (p : Pc) → is_counted p ≡ 0 → is_in_hand p ≡ 0 → p ≡ outside
pc-outside outside c h = refl
pc-outside admitted c h = absurd (omega (arith, h))
pc-outside _ c h = absurd (omega (arith, c))

all-IsOutside :
    (shared : Bool) (n : ℕ) (ts : List Conn)
    → ((r : ℕ) → r < n → total (counted_at r) ts ≡ 0)
    → ((r : ℕ) → r < n → total (held shared n (feeder shared n r)) ts ≡ 0)
    → All (λ c. c.home < n) ts
    → All IsOutside ts
all-IsOutside shared n [] f g h = tt
all-IsOutside shared n (c ∷ ts) f g h =
    let own : (c.home == c.home) ≡ true = (==_iff c.home c.home).1 refl in
    let a : ℕ = feeder shared n c.home in
    let fed : (a == a) ≡ true = (==_iff a a).1 refl in
    let counted = rw own at (f c.home h.0) in
    let hand = rw fed at (g c.home h.0) in
    (
      pc-outside c.pc (omega (arith, counted)) (omega (arith, hand)),
      all-IsOutside shared n ts (λ r lt. omega (arith, f r lt)) (λ r lt. omega (arith, g r lt)) h.1,
    )

outside-uncounted : (r : ℕ) (c : Conn) → IsOutside c → counted_at r c ≡ 0
outside-uncounted r c e = ground (arith, e)

at_end :
    (shared : Bool) (n : ℕ) (s : Server) (st : Stage)
    → AtStage shared n s st
    → AtStage shared n s waited
unfolding AtStage
at_end shared n s (aborting k) h = λ d. absurd (false≢true (sym h ∙ d))
at_end shared n s (reaping k) h = λ d. absurd (false≢true (sym h.0 ∙ d))
at_end shared n s (draining late k ok) h = λ d. absurd (false≢true (sym h.0 ∙ d))
at_end shared n s waited h = h
at_end shared n s halted h = h

-- Whether the reactors of a server have an accept task each or share one, once
-- `sessions_end_within` has answered true, in that state and in each later one: no connection of any
-- reactor is anywhere between its accept and its end, every reactor's session count is 0, and no
-- lease is held, although the counts are read one after the other while launches go from one reactor
-- to another.
pub all_drained :
    (shared : Bool) (n : ℕ) (bounded : Bool) (bound : ℕ) (homes : List ℕ) (s : Server)
    (ts : List Conn) (r : ℕ)
    → length homes < 2 ^ 64
    → bound < 2 ^ 64
    → All (λ b. b < n) homes
    → Reachable shared n bounded bound homes s ts
    → s.drained ≡ true
    → All IsOutside ts × (s.sessions r ≡ 0) × (s.admission.active ≡ 0)
unfolding AtStage Reaped
all_drained shared n bounded bound homes s ts r few small h run d =
    let v = Reachable-Holds shared n bounded bound homes s ts few small h run in
    let w : AtStage shared n s waited = at_end shared n s s.stage v.stages in
    let gone : All IsOutside ts =
      all-IsOutside shared n ts (λ b lt. sym (v.counts b).sessions ∙ (w d).1 b lt)
        (λ b lt. v.closed _ ((w d).0 _ (feeder-lt shared n b lt))) v.homes in
    let counted : total (counted_at r) ts ≡ 0 =
      total-eq-zero (counted_at r) ts
        (All-mono IsOutside (λ c. counted_at r c ≡ 0) ts (λ c e. outside-uncounted r c e) gone) in
    let leases : total leased ts ≡ 0 =
      total-eq-zero leased ts
        (All-mono IsOutside (λ c. leased c ≡ 0) ts (λ c e. ap is_leased e) gone) in
    (gone, (v.counts r).sessions ∙ counted, (v.counts r).active ∙ sym (if_zero bounded _ leases))
