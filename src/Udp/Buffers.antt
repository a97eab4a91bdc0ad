-- ===== src/Udp/Buffers.antt =====
-- Which buffer sizes `UdpServer::size_buffers` tries.
use reactor.Prelude.{
  ℕ, zero, suc, ◌/◌, ◌^◌, ◌≤◌, ◌<◌, ◌≡◌, ◌↔◌, Bool, false, some, arith, get_elem?, u32,
}
use reactor.Udp.{attempts}

-- `size` halved `k` times.
abbrev pub halved : ℕ → ℕ → ℕ
halved zero size = size
halved (suc k) size = halved k (size / 2)

-- The first `k` halvings of `size` are not taken.
abbrev pub Refused : (ℕ → Bool) → ℕ → ℕ → Type 0
Refused takes zero size = Unit
Refused takes (suc k) size = (takes (u32 size) ≡ false) × Refused takes k (size / 2)

only :
    (takes : ℕ → Bool) (fuel size k s : ℕ)
    → get_elem? (attempts takes fuel size) k ≡ some s
    → (s ≡ halved k size) × (262144 ≤ s) × Refused takes k size
unfolding attempts
only takes zero size k s h = cc
only takes (suc fuel) size zero s h = ground arith
only takes (suc fuel) size (suc k) s h = ground (arith, only takes fuel (size / 2) k s)

halved-le : (k size : ℕ) → halved k size ≤ size
halved-le zero size = omega arith
halved-le (suc k) size = omega (arith, halved-le k (size / 2))

all :
    (takes : ℕ → Bool) (fuel size k : ℕ)
    → size < 2 ^ fuel
    → 262144 ≤ halved k size
    → Refused takes k size
    → get_elem? (attempts takes fuel size) k ≡ some (halved k size)
unfolding attempts
all takes zero size k small big r = absurd (omega (arith, halved-le k size))
all takes (suc fuel) size zero small big r = ground arith
all takes (suc fuel) size (suc k) small big r =
    ground (arith, halved-le k (size / 2), all takes fuel (size / 2) k)

-- The k-th size tried for a buffer is its target halved k times, tried exactly when that is at
-- least 256 KiB and the system refused each size before it: the loop ends, it stops at the first
-- size that is taken, and a target below 256 KiB is never tried.
pub attempts_halve :
    (takes : ℕ → Bool) (size k s : ℕ)
    → size < 2 ^ 64
    → (get_elem? (attempts takes 64 size) k ≡ some s)
      ↔ ((s ≡ halved k size) × (262144 ≤ s) × Refused takes k size)
attempts_halve takes size k s h = (only takes 64 size k s, back)
  where
    back :
        (s ≡ halved k size) × (262144 ≤ s) × Refused takes k size
        → get_elem? (attempts takes 64 size) k ≡ some s
    back b = ground (arith, all takes 64 size k)
