-- ===== src/Admission/Safety.antt =====
-- What callers of `ConnectionAdmission` rely on.
use reactor.Prelude.{
  ℕ, ◌^◌, ◌≤◌, ◌<◌, ◌≡◌, refl, List, [], ◌∷◌, arith, total, All, min, u64_max, total_mono,
}
use reactor.Admission.{Memory, Pc, outside, leased, Reachable, stats}
use reactor.Admission.Counts.{holds, accepting, refusing, tallest}
use reactor.Admission.Invariant.{Inv, Reachable-Inv}

-- No call is in progress: each task holds a lease or is outside.
abbrev pub IsQuiet : Pc → Type 0
IsQuiet outside = Unit
IsQuiet leased = Unit
IsQuiet _ = ⊥

-- The tasks that hold a lease.
abbrev pub is_leased : Pc → ℕ
is_leased leased = 1
is_leased _ = 0

-- However the calls interleave, at most `bound` leases are held at once, and `active` is never
-- above the bound nor below the number of leases held.
pub leases-le-bound :
    (n bound : ℕ) (m : Memory) (ts : List Pc)
    → bound < 2 ^ 64
    → Reachable n bound m ts
    → (total is_leased ts ≤ m.active) × (m.active ≤ bound)
leases-le-bound n bound m ts h r =
    omega (arith, v.counts.active, v.counts.within, total_mono is_leased holds leased-le ts)
  where
    v : Inv bound m ts
    v = Reachable-Inv n bound m ts h r

    leased-le : (p : Pc) → is_leased p ≤ holds p
    leased-le p = ground arith

quiet :
    (ts : List Pc)
    → All IsQuiet ts
    → (total holds ts ≡ total is_leased ts)
      × (total accepting ts ≡ 0)
      × (total refusing ts ≡ 0)
      × (tallest ts ≡ 0)
quiet [] q = (refl, refl, refl, refl)
quiet (outside ∷ ts) q = omega (arith, quiet ts q.1)
quiet (leased ∷ ts) q = omega (arith, quiet ts q.1)
quiet (_ ∷ ts) q = absurd q.0

-- While no call is in progress the statistics are exact: the leases held, the greatest number
-- ever held, and the calls admitted and refused, these two up to the greatest 64-bit value.
pub stats_exact :
    (n bound : ℕ) (m : Memory) (ts : List Pc)
    → bound < 2 ^ 64
    → Reachable n bound m ts
    → All IsQuiet ts
    → stats m.state ≡ record {
      active = total is_leased ts;
      high_water = m.peak;
      accepted = min u64_max m.entries;
      rejected = min u64_max m.refusals;
    }
stats_exact n bound m ts h r q = ground (arith, (Reachable-Inv n bound m ts h r).counts, quiet ts q)
