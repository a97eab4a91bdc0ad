-- ===== src/RunScope.antt =====
-- reactor.h: `run_depth`, `inside_run` and `RunScope`, on one thread.
use reactor.Prelude.{
  ℕ, ◌+◌, ◌-◌, ◌^◌, ◌<◌, ◌≡◌, refl, Bool, true, not, List, [], ◌∷◌, ◌++◌, arith, ◌==◌, u32,
}

-- `RunScope`'s constructor and destructor on the thread's `depth`, an `unsigned`.
abbrev pub enter_scope : ℕ → ℕ
enter_scope depth = u32 (depth + 1)

abbrev pub leave_scope : ℕ → ℕ
leave_scope depth = u32 (depth + (2 ^ 32 - 1))

abbrev pub inside_run : ℕ → Bool
inside_run depth = not (depth == 0)

-- What a thread does: it asks `inside_run`, and has scopes, whose bodies may have scopes again.
pub data Code : Type 0 where
  done : Code
  asks : Code → Code
  scope : (body rest : Code) → Code

-- The depth afterwards, and the answers in order.
pub perform : Code → ℕ → ℕ × List Bool
perform done depth = (depth, [])
perform (asks rest) depth =
    let (after, answers) = perform rest depth in (after, inside_run depth ∷ answers)
perform (scope body rest) depth =
    let (inner, within) = perform body (enter_scope depth) in
    let (after, answers) = perform rest (leave_scope inner) in (after, within ++ answers)

-- The scopes of the code.
abbrev pub scopes : Code → ℕ
scopes done = 0
scopes (asks rest) = scopes rest
scopes (scope body rest) = 1 + scopes body + scopes rest

-- The answers that are right: inside a scope, or where the code itself stands in one.
abbrev pub right_answers : Bool → Code → List Bool
right_answers inside done = []
right_answers inside (asks rest) = inside ∷ right_answers inside rest
right_answers inside (scope body rest) = right_answers true body ++ right_answers inside rest

-- With fewer than `2 ^ 32` scopes, `inside_run` answers whether a scope is open, and the depth is
-- afterwards what it was.
pub perform_lem :
    (c : Code) (depth : ℕ)
    → depth + scopes c < 2 ^ 32
    → perform c depth ≡ (depth, right_answers (inside_run depth) c)
unfolding perform
perform_lem done depth small = refl
perform_lem (asks rest) depth small = rw (perform_lem rest depth (omega arith)) refl
perform_lem (scope body rest) depth small =
    let e : enter_scope depth ≡ depth + 1 = omega arith in
    let l : leave_scope (depth + 1) ≡ depth = omega arith in
    let b = perform_lem body (depth + 1) (omega arith) in
    let r = perform_lem rest depth (omega arith) in
    let t : inside_run (depth + 1) ≡ true = ground arith in rw (e, b, l, r, t) refl
