-- ===== src/TcpServer/Waits.antt =====
-- reactor.h: what `TcpServer` waits for when it stops.
use reactor.Prelude.{
  ℕ, zero, suc, ◌+◌, ◌≡◌, ◌<◌, ◌≤◌, inl, inr, refl, Bool, true, false, ◌||◌, List, [], ◌∷◌, ◌++◌,
  arith, Bool-cases, if◌then◌else◌, ◌==◌, All, All-append, All-mono,
}
use reactor.TcpServer.{
  Server, Effect, Accept, for_each, for_accepts, shutdown, sessions_end, abort_all, flag_accept,
  poll, stop_accept, wait_accept, await_sessions, force_all, await_again, clear_guards, stop_lag,
  stop_io, join,
}
use reactor.TcpServer.Start.Rollback.{IsOf}

abbrev pub joins : ℕ → Effect → Bool
joins r (join t) = t == r
joins r _ = false

-- The thread of reactor `r` is joined.
abbrev pub has_join : ℕ → List Effect → Bool
has_join r [] = false
has_join r (e ∷ es) = joins r e || has_join r es

-- An accept task is waited for only if the thread that runs its loop is joined among `es`.
abbrev pub IsServed : List Effect → Effect → Type 0
IsServed es (wait_accept a) = has_join a.reactor es ≡ true
IsServed es _ = Unit

has_join-append :
    (r : ℕ) (xs ys : List Effect) → has_join r (xs ++ ys) ≡ (has_join r xs || has_join r ys)
has_join-append r [] ys = refl
has_join-append r (x ∷ xs) ys = ground (arith, has_join-append r xs ys)

-- What the threads `i` to `i + k` are joined for.
has_join-for_each :
    (r k i : ℕ) → i ≤ r → r < i + k → has_join r (for_each (λ t. join t ∷ []) k i) ≡ true
has_join-for_each r zero i le lt = ground arith
has_join-for_each r (suc k) i le lt = ground (arith, has_join-for_each r k (i + 1))

-- An effect that waits only for tasks of the first `n` reactors.
abbrev pub IsWithin : ℕ → Effect → Type 0
IsWithin n (wait_accept a) = a.reactor < n
IsWithin n _ = Unit

pub for_each-All :
    (P : Effect → Type 0) (f : ℕ → List Effect)
    → ((q : ℕ) → All P (f q))
    → (k i : ℕ) → All P (for_each f k i)
for_each-All P f h zero i = tt
for_each-All P f h (suc k) i =
    All-append P (f i) (for_each f k (i + 1)) (h i) (for_each-All P f h k (i + 1))

for_accepts-All :
    (P : Effect → Type 0) (Q : Accept → Type 0) (f : Accept → Effect)
    → ((a : Accept) → Q a → P (f a))
    → (as' : List Accept) → All Q as'
    → All P (for_accepts f as')
for_accepts-All P Q f h [] q = tt
for_accepts-All P Q f h (a ∷ as') q = (h a q.0, for_accepts-All P Q f h as' q.1)

shutdown-IsWithin :
    (ended : ℕ → Bool) (s : Server)
    → All (IsOf s.threads) s.accepts
    → All (IsWithin s.threads) (shutdown ended s)
unfolding shutdown
shutdown-IsWithin ended s ours =
    let P = IsWithin s.threads in
    let n = s.reactors in
    All-append P (for_each (λ r. abort_all r ∷ []) n 0) _
      (for_each-All P (λ r. abort_all r ∷ []) (λ q. (tt, tt)) n 0)
      (All-append P (for_accepts stop_accept s.accepts) _
        (for_accepts-All P (IsOf s.threads) stop_accept (λ a h. tt) s.accepts ours)
        (All-append P (for_accepts wait_accept s.accepts) _
          (for_accepts-All P (IsOf s.threads) wait_accept (λ a h. h) s.accepts ours)
          (All-append P (for_each (λ r. await_sessions r ∷ []) n 0) _
            (for_each-All P (λ r. await_sessions r ∷ []) (λ q. (tt, tt)) n 0)
            (All-append P
              (if sessions_end ended n 0 true
                then []
                else for_each (λ r. force_all r ∷ []) n 0 ++ for_each (λ r. await_again r ∷ []) n 0)
              _
              (elim (Bool-cases (sessions_end ended n 0 true)) [
                | inl e ↦ rw e tt
                | inr e ↦ rw e (
                    All-append P (for_each (λ r. force_all r ∷ []) n 0) _
                      (for_each-All P (λ r. force_all r ∷ []) (λ q. (tt, tt)) n 0)
                      (for_each-All P (λ r. await_again r ∷ []) (λ q. (tt, tt)) n 0))
              ])
              (
                tt,
                All-append P (for_each (λ r. stop_lag r ∷ stop_io r ∷ []) n 0) _
                    (for_each-All P (λ r. stop_lag r ∷ stop_io r ∷ []) (λ q. (tt, (tt, tt))) n 0)
                    (for_each-All P (λ t. join t ∷ []) (λ q. (tt, tt)) s.threads 0),
              )))))

has_join-late : (r : ℕ) (xs ys : List Effect) → has_join r ys ≡ true → has_join r (xs ++ ys) ≡ true
has_join-late r xs ys h = ground (arith, has_join-append r xs ys)

has_join-early : (r : ℕ) (xs ys : List Effect) → has_join r xs ≡ true → has_join r (xs ++ ys) ≡ true
has_join-early r xs ys h = ground (arith, has_join-append r xs ys)

has_join-shutdown :
    (ended : ℕ → Bool) (s : Server) (r : ℕ) → r < s.threads → has_join r (shutdown ended s) ≡ true
unfolding shutdown
has_join-shutdown ended s r lt =
    let n = s.reactors in
    has_join-late r (for_each (λ q. abort_all q ∷ []) n 0) _ (
      has_join-late r (for_accepts stop_accept s.accepts) _ (
        has_join-late r (for_accepts wait_accept s.accepts) _ (
          has_join-late r (for_each (λ q. await_sessions q ∷ []) n 0) _ (
            has_join-late r
              (if sessions_end ended n 0 true
                then []
                else for_each (λ q. force_all q ∷ []) n 0 ++ for_each (λ q. await_again q ∷ []) n 0)
              _
              (has_join-late r (clear_guards ∷ for_each (λ q. stop_lag q ∷ stop_io q ∷ []) n 0) _
                (has_join-for_each r s.threads 0 (omega arith) (omega arith)))))))

IsWithin-IsServed :
    (n : ℕ) (es : List Effect)
    → ((r : ℕ) → r < n → has_join r es ≡ true)
    → (e : Effect) → IsWithin n e
    → IsServed es e
IsWithin-IsServed n es h (wait_accept a) lt = h a.reactor lt
IsWithin-IsServed n es h _ lt = tt

-- The effects `before`, none of which waits for a task of another server's, and a shutdown.
pub shutdown-IsServed :
    (ended : ℕ → Bool) (s : Server) (before : List Effect)
    → All (IsWithin 0) before
    → All (IsOf s.threads) s.accepts
    → All (IsServed (before ++ shutdown ended s)) (before ++ shutdown ended s)
shutdown-IsServed ended s before quiet ours =
    let es = before ++ shutdown ended s in
    All-mono _ _ es
      (IsWithin-IsServed s.threads es
        (λ r lt. has_join-late r before (shutdown ended s) (has_join-shutdown ended s r lt)))
      (All-append (IsWithin s.threads) before (shutdown ended s)
        (All-mono _ _ before (none-IsWithin s.threads) quiet) (shutdown-IsWithin ended s ours))
  where
    none-IsWithin : (n : ℕ) (e : Effect) → IsWithin 0 e → IsWithin n e
    none-IsWithin n (wait_accept a) lt = absurd (omega (arith, lt))
    none-IsWithin n _ lt = tt

-- More effects, none of which waits.
pub IsServed-append :
    (es fs : List Effect)
    → All (IsServed es) es
    → All (IsWithin 0) fs
    → All (IsServed (es ++ fs)) (es ++ fs)
IsServed-append es fs v quiet =
    All-append _ es fs (All-mono _ _ es more v)
      (All-mono _ _ fs (IsWithin-IsServed 0 (es ++ fs) (λ r lt. ground arith)) quiet)
  where
    more : (e : Effect) → IsServed es e → IsServed (es ++ fs) e
    more (wait_accept a) h = has_join-early a.reactor es fs h
    more _ h = tt

-- What the handler of a failed start does before its stop.
pub roll_back-quiet :
    (accepts : List Accept) (k i : ℕ)
    → All (IsWithin 0) (for_accepts flag_accept accepts ++ for_each (λ r. poll r ∷ []) k i)
roll_back-quiet accepts k i =
    All-append _ (for_accepts flag_accept accepts) (for_each (λ r. poll r ∷ []) k i) (flags accepts)
      (for_each-All _ (λ r. poll r ∷ []) (λ q. (tt, tt)) k i)
  where
    flags : (as' : List Accept) → All (IsWithin 0) (for_accepts flag_accept as')
    flags [] = tt
    flags (a ∷ as') = (tt, flags as')
