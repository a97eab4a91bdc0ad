-- ===== src/Lag/Probe/Slot.antt =====
-- The one timer operation of `LagProbe` lives in its slot.
use reactor.Prelude.{◌≡◌, [], ◌∷◌, true, false, ◌⊎◌}
use reactor.Lag.Probe.{Probe, fits_slot, in_slot, on_heap}

-- At most one wait is pending: when its operation fits the slot, it is there and none is on the heap, and
-- otherwise it is on the heap alone. A probe that has not started has none.
pub record IsValid (p : Probe) : Type 0 where
  pub pending :
      ((p.waits ≡ []) × (p.slot_used ≡ false) × (p.heap ≡ 0))
      ⊎ ((p.started ≡ true)
          × (p.slot_used ≡ fits_slot p.operation)
          × (((fits_slot p.operation ≡ true) × (p.waits ≡ in_slot ∷ []) × (p.heap ≡ 0))
              ⊎ ((fits_slot p.operation ≡ false) × (p.waits ≡ on_heap ∷ []) × (p.heap ≡ 1))))
