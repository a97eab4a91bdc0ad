-- ===== src/Tls/Configure.antt =====
-- What a successful `configure` has done to the context.
use reactor.Prelude.{
  ◌≡◌, Bool, true, false, ◌||◌, none, some, List, [], ◌∷◌, arith, All, Bool-cases, Option-cases,
  inl, inr,
}
use reactor.Tls.{
  Role, Options, Call, ok, is_incomplete, calls, failure, perform, configure, verify_none,
  use_certificate_chain_file, use_private_key_file, load_verify_file, set_default_verify_paths,
  set_verify_mode,
}

-- `xs` reversed, before `ys`.
unfoldable pub onto : List Call → List Call → List Call
onto [] ys = ys
onto (x ∷ xs) ys = onto xs (x ∷ ys)

-- A call whose result is looked at was not refused.
abbrev pub Passed : (Call → Bool) → Call → Type 0
Passed fails c = elim (failure c) [ none ↦ Unit {0} | some e ↦ fails c ≡ false ]

perform-ok :
    (fails : Call → Bool) (done cs rs : List Call)
    → perform fails done cs ≡ ok rs
    → (rs ≡ onto cs done) × All (Passed fails) cs
unfolding perform onto
perform-ok fails done [] rs h = ground arith
perform-ok fails done (c ∷ cs) rs h = elim (Bool-cases (fails c)) [
  | inl refused ↦ elim (Option-cases (failure c)) [
    | inl quiet ↦ ground (arith, perform-ok fails (c ∷ done) cs rs)
    | inr (e, loud) ↦ ground arith
  ]
  | inr passed ↦ ground (arith, perform-ok fails (c ∷ done) cs rs)
]

-- A successful `configure` had complete options, and has made every call in the order of the
-- code, each unrefused.
pub configure-ok :
    (fails : Call → Bool) (o : Options) (role : Role) (rs : List Call)
    → configure fails o role ≡ ok rs
    → (is_incomplete o role ≡ false)
      × (rs ≡ onto (calls o role) [])
      × All (Passed fails) (calls o role)
unfolding configure
configure-ok fails o role rs h = ground (arith, perform-ok fails [] (calls o role) rs)

abbrev pub any : (Call → Bool) → List Call → Bool
any p [] = false
any p (c ∷ cs) = p c || any p cs

abbrev pub is_trust : Call → Bool
is_trust (load_verify_file f) = true
is_trust set_default_verify_paths = true
is_trust _ = false

abbrev pub is_own_trust : Call → Bool
is_own_trust (load_verify_file f) = true
is_own_trust _ = false

abbrev pub is_chain : Call → Bool
is_chain (use_certificate_chain_file f) = true
is_chain _ = false

abbrev pub is_key : Call → Bool
is_key (use_private_key_file f) = true
is_key _ = false

abbrev pub is_verifying : Call → Bool
is_verifying (set_verify_mode verify_none) = false
is_verifying (set_verify_mode m) = true
is_verifying _ = false
