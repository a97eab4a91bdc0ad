-- ===== src/Tls.antt =====
-- reactor_tls.h: `configure` and `bind_hostname`. OpenSSL is a parameter: the model lists the calls
-- that are made on the context, and an oracle says which of them fail.
pub mod Configure
pub mod Hostname
use reactor.Prelude.{
  ℕ, ◌*◌, Bool, true, false, not, ◌&&◌, ◌||◌, Option, none, some, List, [], ◌∷◌, ◌++◌,
  if◌then◌else◌,
}

pub data Role : Type 0 where
  peer server client : Role

-- File names are options: `none` is the empty string.
pub record Options : Type 0 where
  pub certificate : Option ℕ
  pub private_key : Option ℕ
  pub certificate_authority : Option ℕ
  pub system_roots : Bool
  pub strict : Bool

pub data VerifyMode : Type 0 where
  verify_none verify_peer verify_peer_or_fail : VerifyMode

-- The calls of `configure` on the context.
pub data Call : Type 0 where
  disable_old_protocols : Call
  min_proto_tls12 : Call
  max_early_data : (bytes : ℕ) → Call
  no_renegotiation : Call
  max_cert_list : (bytes : ℕ) → Call
  forward_secret_aead_only : Call
  no_ticket : Call
  num_tickets : (n : ℕ) → Call
  session_cache_off : Call
  use_certificate_chain_file : (file : ℕ) → Call
  use_private_key_file : (file : ℕ) → Call
  check_private_key : Call
  load_verify_file : (file : ℕ) → Call
  set_default_verify_paths : Call
  set_verify_mode : VerifyMode → Call

pub data Error : Type 0 where
  incomplete_configuration : Error
  minimum_version : Error
  cipher_list : Error
  key_mismatch : Error
  library : Error  -- thrown by Asio

pub data Result : Type 0 where
  ok : List Call → Result
  err : Error → Result

abbrev pub is_empty : Option ℕ → Bool
is_empty none = true
is_empty (some f) = false

abbrev pub is_client : Role → Bool
is_client client = true
is_client _ = false

abbrev pub is_server : Role → Bool
is_server server = true
is_server _ = false

abbrev pub is_peer : Role → Bool
is_peer peer = true
is_peer _ = false

abbrev xor_empty : Option ℕ → Option ℕ → Bool
xor_empty a b = if is_empty a then not (is_empty b) else is_empty b

-- The guard that throws for options that are incomplete for the role.
unfoldable pub is_incomplete : Options → Role → Bool
is_incomplete o role =
    let certificate_required : Bool = not (is_client role) in
    let system_roots : Bool = o.system_roots && not (is_peer role) in
    let authority : Bool = not (is_empty o.certificate_authority) || system_roots in
    (not (is_server role) && not authority)
    || (certificate_required && (is_empty o.certificate || is_empty o.private_key))
    || xor_empty o.certificate o.private_key
    || (o.system_roots && is_peer role)

abbrev pub verify_mode : Role → VerifyMode
verify_mode peer = verify_peer_or_fail
verify_mode client = verify_peer
verify_mode server = verify_none

abbrev pub hardening : List Call
hardening =
    disable_old_protocols
    ∷ min_proto_tls12
    ∷ max_early_data 0
    ∷ no_renegotiation
    ∷ max_cert_list (64 * 1024)
    ∷ []

abbrev pub strict_calls : Bool → List Call
strict_calls strict =
    if strict
    then forward_secret_aead_only ∷ no_ticket ∷ num_tickets 0 ∷ session_cache_off ∷ []
    else []

abbrev pub certificate_calls : Options → List Call
certificate_calls o = elim o.certificate [
  | none ↦ []
  | some f ↦ use_certificate_chain_file f ∷ elim o.private_key [
    | none ↦ check_private_key ∷ []
    | some k ↦ use_private_key_file k ∷ check_private_key ∷ []
  ]
]

abbrev pub trust_calls : Options → Role → List Call
trust_calls o role =
    (elim o.certificate_authority [ none ↦ [] | some f ↦ load_verify_file f ∷ [] ])
    ++ (if o.system_roots && not (is_peer role) then set_default_verify_paths ∷ [] else [])

-- All calls, in the order of the code.
unfoldable pub calls : Options → Role → List Call
calls o role =
    hardening
    ++ (strict_calls o.strict
        ++ (certificate_calls o ++ (trust_calls o role ++ set_verify_mode (verify_mode role) ∷ [])))

-- What a failing call throws. The results of the other calls are not looked at.
pub failure : Call → Option Error
failure min_proto_tls12 = some minimum_version
failure forward_secret_aead_only = some cipher_list
failure check_private_key = some key_mismatch
failure (use_certificate_chain_file f) = some library
failure (use_private_key_file f) = some library
failure (load_verify_file f) = some library
failure set_default_verify_paths = some library
failure (set_verify_mode m) = some library
failure disable_old_protocols = some library
failure _ = none

-- The calls one after the other; `fails` says whether the library refuses a call.
unfoldable pub perform : (Call → Bool) → List Call → List Call → Result
unfolding failure
perform fails done [] = ok done
perform fails done (c ∷ cs) =
    let rest = perform fails (c ∷ done) cs in
    if fails c then elim (failure c) [ none ↦ rest | some e ↦ err e ] else rest

-- `configure`: the calls made on the context, the last first.
unfoldable pub configure : (Call → Bool) → Options → Role → Result
configure fails o role =
    if is_incomplete o role then err incomplete_configuration else perform fails [] (calls o role)
