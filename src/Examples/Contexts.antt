-- ===== src/Examples/Contexts.antt =====
-- reactor_tls.h: a client with system roots, and two host names.
use reactor.Prelude.{ℕ, ◌≡◌, refl, Bool, true, false, List, [], ◌∷◌, none}
use reactor.Tls.{client, Options, Call, is_incomplete}
use reactor.Tls.Hostname as Hostname
use reactor.Tls.Hostname.{bind_hostname}

abbrev web_client : Options
web_client = record {
  certificate = none;
  private_key = none;
  certificate_authority = none;
  system_roots = true;
  strict = false;
}

abbrev accepts_all : Call → Bool
accepts_all c = false

complete : is_incomplete web_client client ≡ false
unfolding is_incomplete
complete = refl

abbrev no : List ℕ → Bool
no cs = false

abbrev yes_to : List ℕ → Bool
yes_to cs = true

-- A name of two characters, which is no address.
bound :
    bind_hostname no yes_to yes_to yes_to (97 ∷ 98 ∷ [])
    ≡ Hostname.ok (Hostname.to_name (97 ∷ 98 ∷ []) (97 ∷ 98 ∷ []))
unfolding bind_hostname
bound = refl

bind_hostname-Asked_example :
    Hostname.Asked (97 ∷ 98 ∷ []) (Hostname.to_name (97 ∷ 98 ∷ []) (97 ∷ 98 ∷ []))
bind_hostname-Asked_example =
    Hostname.bind_hostname-Asked no yes_to yes_to yes_to (97 ∷ 98 ∷ [])
      (Hostname.to_name (97 ∷ 98 ∷ []) (97 ∷ 98 ∷ [])) bound
