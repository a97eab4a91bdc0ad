-- ===== src/Reactors/Ends.antt =====
-- Each connection can end, by its own moves.
use reactor.Prelude.{
  ℕ, zero, suc, ◌<◌, ◌≡◌, ◌⊎◌, refl, sym, ap, subst, ◌∙◌, Bool, true, List, [], ◌∷◌, some, arith,
  total, total-set, length, get_elem?, set, get-lt, set_get, set-set, get_elem?-set_self,
  Bool-cases, inl, inr,
}
use reactor.Sessions.{
  Memory, Pc, outside, admitted, ticketed, posted, spawned, serving, ending, refunded, Move,
  take_ticket, launch_throws, drop_posted, destroy_frame, end_session, refund, no_refund,
  finish_session,
}
use reactor.Sessions.Counted.{is_counted}
use reactor.Reactors.{
  Server, Conn, put, view, is_running, is_in_hand, held, Allowed, connection, Reach, start, next,
}
use reactor.Reactors.Moves.{counted_at}

-- Neither ticketed nor in hand nor anywhere else before its end.
abbrev pub is_live : Pc → ℕ
is_live outside = 0
is_live _ = 1

abbrev pub live : Conn → ℕ
live c = is_live c.pc

zero-cases : (p : Pc) → (is_live p ≡ 0) ⊎ (is_live p ≡ 1)
zero-cases p = ground arith

-- A connection that has not ended, if there is one.
find_live :
    (ts : List Conn) (k : ℕ)
    → total live ts ≡ suc k
    → (i : ℕ) × (c : Conn) × (get_elem? ts i ≡ some c) × (live c ≡ 1)
find_live [] k h = absurd (omega (arith, h))
find_live (c ∷ ts) k h = elim (zero-cases c.pc) [
  | inl gone ↦ let (i, d, e, l) = find_live ts k (omega (arith, h, gone)) in (suc i, d, e, l)
  | inr here ↦ (0, c, refl, here)
]

module _ (shared : Bool) (n : ℕ) where
  pub Reach-trans :
      {s : Server} {ts : List Conn} {s' : Server} {ts' : List Conn} {u : Server} {us : List Conn}
      → Reach shared n s ts s' ts'
      → Reach shared n s' ts' u us
      → Reach shared n s ts u us
  Reach-trans a start = a
  Reach-trans a (next b st) = next (Reach-trans a b) st

  -- What the end of a connection leaves as it was.
  abbrev pub Kept : Server → Server → Type 0
  Kept s s' = (s'.stage ≡ s.stage) × (s'.drained ≡ s.drained)

  module _ (s0 : Server) (ts : List Conn) (i r : ℕ) (lt : i < length ts) where
    abbrev at_place : Pc → List Conn
    at_place p = set ts i (record { home = r; pc = p })

    -- A further move of the connection at place `i`.
    go_on :
        {s : Server} {p q : Pc} {m : Memory}
        → Reach shared n s0 ts s (at_place p)
        → Move (view s r) p m q
        → Allowed shared n s (at_place p) r p m q
        → Reach shared n s0 ts (put s r m) (at_place q)
    go_on {s} {p} {q} {m} run mv al =
        subst (Reach shared n s0 ts (put s r m))
          (set-set ts i (record { home = r; pc = p }) (record { home = r; pc = q }))
          (next run (connection i (get_elem?-set_self ts i (record { home = r; pc = p }) lt) mv al))

    -- A schedule on which this connection has ended.
    abbrev Ended : Type 0
    Ended = (s' : Server) × Reach shared n s0 ts s' (at_place outside) × Kept s0 s'

    refunded_ends : (s : Server) → Reach shared n s0 ts s (at_place refunded) → Kept s0 s → Ended
    refunded_ends s run k = (_, go_on run finish_session tt, k)

    ending_ends : (s : Server) → Reach shared n s0 ts s (at_place ending) → Kept s0 s → Ended
    ending_ends s run k = elim (Bool-cases s.bounded) [
      | inl bounded ↦ refunded_ends _ (go_on run (refund bounded) tt) k
      | inr free ↦ refunded_ends _ (go_on run (no_refund free) tt) k
    ]

    ticketed_ends :
        (s : Server)
        → Reach shared n s0 ts s (at_place ticketed)
        → Kept s0 s
        → is_running s.stage ≡ true
        → Ended
    ticketed_ends s run k up = ending_ends _ (go_on run launch_throws up) k

    dispatch : (q : Pc) → Reach shared n s0 ts s0 (at_place q) → is_running s0.stage ≡ true → Ended
    dispatch outside run up = (s0, run, (refl, refl))
    dispatch admitted run up = ticketed_ends _ (go_on run take_ticket up) (refl, refl) up
    dispatch ticketed run up = ticketed_ends _ run (refl, refl) up
    dispatch posted run up = ending_ends _ (go_on run drop_posted tt) (refl, refl)
    dispatch spawned run up = ending_ends _ (go_on run destroy_frame tt) (refl, refl)
    dispatch serving run up = ending_ends _ (go_on run end_session tt) (refl, refl)
    dispatch ending run up = ending_ends _ run (refl, refl)
    dispatch refunded run up = refunded_ends _ run (refl, refl)

  -- A schedule on which every connection has ended.
  pub all_end :
      (k : ℕ) (s : Server) (ts : List Conn)
      → total live ts ≡ k
      → is_running s.stage ≡ true
      → (s' : Server) × (ts' : List Conn) × Reach shared n s ts s' ts'
        × Kept s s'
        × (total live ts' ≡ 0)
  all_end zero s ts h up = (s, ts, start, (refl, refl), h)
  all_end (suc k) s ts h up =
      let (i, c, e, l) = find_live ts k h in
      let gone : Conn = record c { pc = outside } in
      let (s1, r1, k1) =
        dispatch s ts i c.home (get-lt ts i e) c.pc
          (subst (Reach shared n s ts s) (sym (set_get ts i e)) start) up in
      let (s2, ts2, r2, k2, z) =
        all_end k s1 (set ts i gone) (omega (arith, h, l, total-set live ts i c gone e))
          (ap is_running k1.0 ∙ up) in
      (s2, ts2, Reach-trans r1 r2, (k2.0 ∙ k1.0, k2.1 ∙ k1.1), z)

-- What has ended is neither counted nor in hand.
pub none_counted :
    (shared : Bool) (n b a : ℕ) (ts : List Conn)
    → total live ts ≡ 0
    → (total (counted_at b) ts ≡ 0) × (total (held shared n a) ts ≡ 0)
none_counted shared n b a [] h = (refl, refl)
none_counted shared n b a (c ∷ ts) h =
    let (x, y) = none_counted shared n b a ts (omega (arith, h)) in
    let (p, q) = pc_ended c.pc (omega (arith, h)) in (ground (arith, x, p), ground (arith, y, q))
  where
    pc_ended : (p : Pc) → is_live p ≡ 0 → (is_counted p ≡ 0) × (is_in_hand p ≡ 0)
    pc_ended p h = ground (arith, h)
