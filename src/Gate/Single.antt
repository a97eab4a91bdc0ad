-- ===== src/Gate/Single.antt =====
-- `AdmissionGate` as one thread sees it, and the proof that its functions are runs of the tasks.
use reactor.Prelude.{
  ◌+◌, ◌^◌, ◌<◌, ◌≡◌, ◌⊎◌, Bool, true, false, arith, if◌then◌else◌, u32, u64, Bool-cases, inl, inr,
  refl,
}
use reactor.Prelude.Threads.{Run, stop, then_move}
use reactor.Gate.{
  Gate, Memory, Pc, outside, inside, Move, enter, refuse, take_back, count, release, refuses,
  with_inflight, pred32, slt,
}

-- Whether the call admitted.
unfoldable pub try_enter : Gate → Gate × Bool
try_enter g =
    let taken : Gate = with_inflight g (u32 (g.inflight + 1)) in
    let back : Gate = with_inflight taken (pred32 taken.inflight) in
    if refuses g.limit g.inflight
    then (record back { rejected = u64 (back.rejected + 1) }, false)
    else (taken, true)

unfoldable pub leave : Gate → Gate
leave g = with_inflight g (pred32 g.inflight)

-- The fields fit their types.
pub record IsValid (g : Gate) : Type 0 where
  pub inflight : g.inflight < 2 ^ 32
  pub rejected : g.rejected < 2 ^ 64

-- A call alone on the gate is refused exactly when the limit is positive and at least that many are
-- in flight; a refusal changes `rejected` alone, and an admission that is given back leaves the gate
-- as it was.
pub try_enter-leave :
    (g : Gate)
    → IsValid g
    → ((slt 0 g.limit ≡ true)
        × (slt g.inflight g.limit ≡ false)
        × (try_enter g ≡ (record g { rejected = u64 (g.rejected + 1) }, false)))
      ⊎ (((slt 0 g.limit ≡ false) ⊎ (slt g.inflight g.limit ≡ true))
          × ((try_enter g).1 ≡ true)
          × (leave (try_enter g).0 ≡ g))
unfolding try_enter leave
try_enter-leave g v = elim (Bool-cases (slt 0 g.limit)) [
  | inr open_ ↦ inr (inl open_, ground arith, ground arith)
  | inl limited ↦ elim (Bool-cases (slt g.inflight g.limit)) [
    | inl room ↦ inr (inr room, ground arith, ground arith)
    | inr full ↦ inl (limited, full, ground arith)
  ]
]

abbrev pub outcome : Bool → Pc
outcome true = inside
outcome false = outside

-- With no other task in the way, a run of the task's accesses ends in what `try_enter` returns, and
-- the release of the lease in what `leave` returns.
pub enter_leave-Run :
    (m : Memory)
    → ((m' : Memory) × (m'.gate ≡ (try_enter m.gate).0)
        × Run Move m outside m' (outcome (try_enter m.gate).1))
      × ((m' : Memory) × (m'.gate ≡ leave m.gate) × Run Move m inside m' outside)
unfolding try_enter leave
enter_leave-Run m = elim (Bool-cases (refuses m.limit m.inflight)) [
  | inl full ↦ rw full (
    (_, refl, then_move (then_move (then_move stop (refuse full)) take_back) count),
    (_, refl, then_move stop release),
  )
  | inr room ↦ rw room ((_, refl, then_move stop (enter room)), (_, refl, then_move stop release))
]
