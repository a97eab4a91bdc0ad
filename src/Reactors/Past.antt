-- ===== src/Reactors/Past.antt =====
-- What `stop` has done by each stage, and that it stays done.
use reactor.Prelude.{
  ℕ, suc, ◌<◌, ◌≡◌, refl, subst, Bool, true, false, List, arith, ◌==◌, Bool-cases, inl, inr,
  false≢true,
}
use reactor.Reactors.{
  Stage, aborting, reaping, draining, waited, halted, Server, Conn, update, tasks, Step, connection,
  accept_ends, recover, abort_all, flag_accepts, reap_accept, all_reaped, drain, expire,
  end_in_time, force_all, give_up, halt,
}
use reactor.Reactors.Stages.{off_update, below_suc}

-- Every reactor has been aborted.
abbrev pub is_aborted : Stage → Bool
is_aborted (aborting k) = false
is_aborted _ = true

-- Every accept task has been waited for.
abbrev pub is_reaped : Stage → Bool
is_reaped (aborting k) = false
is_reaped (reaping k) = false
is_reaped _ = true

module _ (shared : Bool) (n : ℕ) where
  -- What `stop` has done by each stage.
  unfoldable pub Past : (walked accepting : ℕ → Bool) → Stage → Type 0
  Past walked accepting (aborting k) = (r : ℕ) → r < k → walked r ≡ true
  Past walked accepting (reaping k) =
      ((r : ℕ) → r < n → walked r ≡ true) × ((a : ℕ) → a < k → accepting a ≡ false)
  Past walked accepting _ =
      ((r : ℕ) → r < n → walked r ≡ true) × ((a : ℕ) → a < tasks shared n → accepting a ≡ false)

  pub Past-Walked :
      (walked accepting : ℕ → Bool) (st : Stage)
      → is_aborted st ≡ true
      → Past walked accepting st
      → (r : ℕ) → r < n
      → walked r ≡ true
  unfolding Past
  Past-Walked walked accepting (aborting k) e h = absurd (false≢true e)
  Past-Walked walked accepting (reaping k) e h = h.0
  Past-Walked walked accepting (draining late k ok) e h = h.0
  Past-Walked walked accepting waited e h = h.0
  Past-Walked walked accepting halted e h = h.0

  pub Past-Reaped :
      (walked accepting : ℕ → Bool) (st : Stage)
      → is_reaped st ≡ true
      → Past walked accepting st
      → (a : ℕ) → a < tasks shared n
      → accepting a ≡ false
  unfolding Past
  Past-Reaped walked accepting (aborting k) e h = absurd (false≢true e)
  Past-Reaped walked accepting (reaping k) e h = absurd (false≢true e)
  Past-Reaped walked accepting (draining late k ok) e h = h.1
  Past-Reaped walked accepting waited e h = h.1
  Past-Reaped walked accepting halted e h = h.1

  ends_Past :
      (walked accepting : ℕ → Bool) (a : ℕ) (st : Stage)
      → Past walked accepting st
      → Past walked (update accepting a false) st
  unfolding Past
  ends_Past walked accepting a (aborting k) h = h
  ends_Past walked accepting a (reaping k) h = (h.0, λ b lt. off_update accepting a b (h.1 b lt))
  ends_Past walked accepting a (draining late k ok) h =
      (h.0, λ b lt. off_update accepting a b (h.1 b lt))
  ends_Past walked accepting a waited h = (h.0, λ b lt. off_update accepting a b (h.1 b lt))
  ends_Past walked accepting a halted h = (h.0, λ b lt. off_update accepting a b (h.1 b lt))

  on_update : (f : ℕ → Bool) (k r : ℕ) → (r < k → f r ≡ true) → r < suc k → update f k true r ≡ true
  on_update f k r h lt = elim (Bool-cases (r == k)) [
    | inl here ↦ rw here refl
    | inr there ↦ rw there (h (ground (arith, there, lt)))
  ]

  pub Step-Past :
      {s s' : Server} {ts ts' : List Conn}
      → Step shared n s ts s' ts'
      → Past s.walked s.accepting s.stage
      → Past s'.walked s'.accepting s'.stage
  unfolding Past
  Step-Past (connection i e mv al) v = v
  Step-Past {s = s} (accept_ends a why h) v = ends_Past s.walked s.accepting a s.stage v
  Step-Past recover v = v
  Step-Past {s = s} (abort_all k e lt) v =
      let w = subst (Past s.walked s.accepting) e v in λ r lt'. on_update s.walked k r (w r) lt'
  Step-Past {s = s} (flag_accepts e) v =
      let w = subst (Past s.walked s.accepting) e v in (w, λ a lt. absurd (omega arith))
  Step-Past {s = s} (reap_accept k e lt off) v =
      let w = subst (Past s.walked s.accepting) e v in (w.0, below_suc k w.1 off)
  Step-Past {s = s} (all_reaped e) v = subst (Past s.walked s.accepting) e v
  Step-Past {s = s} (drain k e lt z) v = subst (Past s.walked s.accepting) e v
  Step-Past {s = s} (expire k e lt z) v = subst (Past s.walked s.accepting) e v
  Step-Past {s = s} (end_in_time e) v = subst (Past s.walked s.accepting) e v
  Step-Past {s = s} (force_all e) v = subst (Past s.walked s.accepting) e v
  Step-Past {s = s} (give_up e) v = subst (Past s.walked s.accepting) e v
  Step-Past {s = s} (halt e) v = subst (Past s.walked s.accepting) e v
