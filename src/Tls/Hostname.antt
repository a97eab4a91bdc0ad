-- ===== src/Tls/Hostname.antt =====
-- `bind_hostname`. A name is a list of character codes; the address parser and the calls on the
-- connection are parameters.
use reactor.Prelude.{
  ℕ, ◌≡◌, refl, Bool, true, false, ◌&&◌, ◌||◌, List, [], ◌∷◌, if◌then◌else◌, ◌==◌, arith,
}

pub data HostError : Type 0 where
  bad_hostname bad_address : HostError

-- What a connection is bound to.
pub data Binding : Type 0 where
  to_address : List ℕ → Binding
  to_name : (sni host : List ℕ) → Binding

pub data Bound : Type 0 where
  ok : Binding → Bound
  err : HostError → Bound

pub has_nul : List ℕ → Bool
has_nul [] = false
has_nul (c ∷ cs) = (c == 0) || has_nul cs

-- What a C string function reads of the name.
pub c_str : List ℕ → List ℕ
c_str [] = []
c_str (c ∷ cs) = let rest = c ∷ c_str cs in if c == 0 then [] else rest

abbrev is_empty : List ℕ → Bool
is_empty [] = true
is_empty (c ∷ cs) = false

module _ (is_address : List ℕ → Bool) (set_ip set_sni : List ℕ → Bool)
    (set_host : List ℕ → Bool) where
  -- `set_ip`, `set_sni` and `set_host` answer whether OpenSSL accepts the text that it reads.
  unfoldable pub bind_hostname : List ℕ → Bound
  unfolding has_nul c_str
  bind_hostname hostname =
      if is_empty hostname || has_nul hostname
      then err bad_hostname
      else if is_address hostname
      then (if set_ip (c_str hostname) then ok (to_address (c_str hostname)) else err bad_address)
      else if set_sni (c_str hostname) && set_host hostname
      then ok (to_name (c_str hostname) hostname)
      else err bad_hostname

c_str_whole : (cs : List ℕ) → has_nul cs ≡ false → c_str cs ≡ cs
unfolding has_nul c_str
c_str_whole [] h = refl
c_str_whole (c ∷ cs) h = ground (arith, c_str_whole cs)

-- The name that the caller asked for.
abbrev pub Asked : List ℕ → Binding → Type 0
Asked hostname (to_address a) = a ≡ hostname
Asked hostname (to_name sni host) = (sni ≡ hostname) × (host ≡ hostname)

module _ (is_address : List ℕ → Bool) (set_ip set_sni : List ℕ → Bool)
    (set_host : List ℕ → Bool) where
  -- A bound connection verifies the whole name that the caller asked for, and sends that name as
  -- SNI: no text before a null character stands for it.
  pub bind_hostname-Asked :
      (hostname : List ℕ) (b : Binding)
      → bind_hostname is_address set_ip set_sni set_host hostname ≡ ok b
      → Asked hostname b
  unfolding bind_hostname
  bind_hostname-Asked hostname (to_address a) h = ground (arith, c_str_whole hostname)
  bind_hostname-Asked hostname (to_name s t) h = ground (arith, c_str_whole hostname)
