-- ===== src/Sessions/Finish.antt =====
-- A session can always be ended, and gives back what it holds.
use reactor.Prelude.{
  ℕ, ◌≡◌, sym, subst, Bool, List, some, get_elem?, set, Bool-cases, inl, inr, sub64, if◌then◌else◌,
}
use reactor.Prelude.Threads.{Reach, Run, stop, then_move, Run-step, Run-Reach}
use reactor.Admission.Solo.{leave}
use reactor.Sessions.{
  Memory, Pc, outside, ticketed, posted, spawned, serving, ending, Move, launch_throws, drop_posted,
  destroy_frame, end_session, refund, no_refund, finish_session,
}

abbrev pub ended : Bool → Memory → Memory
ended bounded m = record m {
  admission = if bounded then leave m.admission else m.admission;
  sessions = sub64 m.sessions 1;
}

-- What the end of a ticket does to the memory.
abbrev pub given_back : Memory → Memory
given_back m = ended m.bounded m

-- A connection that has its ticket.
abbrev pub IsTicketed : Pc → Type 0
IsTicketed ticketed = Unit
IsTicketed posted = Unit
IsTicketed spawned = Unit
IsTicketed serving = Unit
IsTicketed _ = ⊥

ends : (m : Memory) → Run Move m ending (given_back m) outside
ends m = elim (Bool-cases m.bounded) [
  | inl bounded ↦
      subst (λ b. Run Move m ending (ended b m) outside) (sym bounded)
        (then_move (then_move stop (refund bounded)) finish_session)
  | inr free ↦
      subst (λ b. Run Move m ending (ended b m) outside) (sym free)
        (then_move (then_move stop (no_refund free)) finish_session)
]

dies : (m : Memory) (p : Pc) → IsTicketed p → Run Move m p (given_back m) outside
dies m ticketed t = Run-step launch_throws (ends m)
dies m posted t = Run-step drop_posted (ends m)
dies m spawned t = Run-step destroy_frame (ends m)
dies m serving t = Run-step end_session (ends m)
dies m _ t = absurd t

-- Wherever a session stands, from the taking of its ticket on, its end (a throw in the launch, the
-- destruction of the posted launch or of its frame, or the end of the session) gives its lease back and
-- counts it off, each once, and leaves all other connections where they stood.
pub session_ends :
    (m : Memory) (ts : List Pc) (i : ℕ) (p : Pc)
    → get_elem? ts i ≡ some p
    → IsTicketed p
    → Reach Move m ts (given_back m) (set ts i outside)
session_ends m ts i p e t = Run-Reach ts i e (dies m p t)
