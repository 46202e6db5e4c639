-- ===== src/Portal/Platform.antt =====
-- What portal-url.ts uses of the browser, and the errors that it throws.
use nowhere_dash.Base.{◌≡◌, ◌⊎◌, inl, inr, refl, Option, none, some, Bool, true, false, Text}

-- The fields of a parsed `URL` that the module reads. `search_params_get` is
-- `url.searchParams.get`.
pub record Url : Type 0 where
  pub protocol : Text
  pub username : Text
  pub password : Text
  pub hostname : Text
  pub port : Text
  pub pathname : Text
  pub search : Text
  pub hash : Text
  pub search_params_get : Text → Option Text

-- The parts of the platform with no definition in the repository: the WHATWG URL parser, whose
-- exceptions are `none`, and `String(Number(s))`, which goes through a float.
pub record Platform : Type 0 where
  pub new_url : Text → Option Url
  pub number_text : Text → Text

pub data Carrier : Type 0 where
  tcp udp : Carrier

pub data Error : Type 0 where
  invalid_host invalid_ipv6 concrete_host_required no_listener : Error
  port_out_of_range : Carrier → Error
  invalid_family family_conflict : Error
  invalid_carrier_path invalid_url ports_combined duplicate_carrier : Error
  next_shape invalid_next_key malformed_uri shared_key_size : Error
  reserved_socks socks_credentials socks_user_password socks_encoding socks_host_port : Error
  invalid_sni : Error

-- A value, or the error that the code throws.
pub data Result {ℓ} (A : Type ℓ) : Type ℓ where
  ok : A → Result A
  err : Error → Result A

-- The statements after one that may throw.
module _ {ℓ κ} {A : Type ℓ} {B : Type κ} where
  infixl 5 ◌>>=◌
  abbrev pub ◌>>=◌ : Result A → (A → Result B) → Result B
  err thrown >>= rest = err thrown
  ok value >>= rest = rest value

-- `if (test) throw new Error(…)`.
abbrev pub reject : Bool → Error → Result (Unit {0})
reject true e = err e
reject false e = ok tt

infixl 5 ◌>>◌
abbrev pub ◌>>◌ {ℓ} : {B : Type ℓ} → Result (Unit {0}) → Result B → Result B
check >> rest = check >>= λ nothing. rest

abbrev pub succeeds {ℓ} : {A : Type ℓ} → Result A → Bool
succeeds (ok a) = true
succeeds (err e) = false

-- `try { … } catch { return null; }`.
abbrev pub to_option {ℓ} : {A : Type ℓ} → Result A → Option A
to_option (ok a) = some a
to_option (err e) = none

abbrev pub or_throw {ℓ} : {A : Type ℓ} → Error → Option A → Result A
or_throw e none = err e
or_throw e (some a) = ok a

-- To split on a result and keep the equation.
pub Result-cases {ℓ} :
    {A : Type ℓ} (r : Result A) → ((x : Error) × (r ≡ err x)) ⊎ ((a : A) × (r ≡ ok a))
Result-cases (err x) = inl (x, refl)
Result-cases (ok a) = inr (a, refl)
