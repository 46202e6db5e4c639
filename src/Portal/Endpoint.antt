-- ===== src/Portal/Endpoint.antt =====
-- `ServiceEndpoint`, `formatServiceEndpoint` and `validateServiceEndpoint` of
-- web/src/lib/portal-url.ts.
pub mod Valid
use nowhere_dash.Base.{
  ℕ, ◌-◌, Bool, true, false, not, ◌&&◌, ◌||◌, List, [], ◌∷◌, ◌++◌, none, some, ltb, ◌==◌,
  if◌then◌else◌, Text, codes, text_eq, truthy, text_or, has_char, starts_with, ends_with, is_digits,
  is_space, digits_value, is_member, trim, split, all, any, length, take,
}
use nowhere_dash.Portal.Platform.{
  Platform, Carrier, tcp, udp, invalid_host, invalid_ipv6, concrete_host_required, no_listener,
  port_out_of_range, invalid_family, family_conflict, Result, ok, ◌>>◌, reject,
}

pub record ServiceEndpoint : Type 0 where
  pub host : Text
  pub tcp_port : Text
  pub udp_port : Text
  pub tcp_family : Text
  pub udp_family : Text

abbrev pub port_of : Carrier → ServiceEndpoint → Text
port_of tcp e = e.tcp_port
port_of udp e = e.udp_port

abbrev pub family_of : Carrier → ServiceEndpoint → Text
family_of tcp e = e.tcp_family
family_of udp e = e.udp_family

abbrev pub carrier_text : Carrier → Text
carrier_text tcp = codes "tcp"
carrier_text udp = codes "udp"

-- `s.slice(1, -1)`.
abbrev pub inner : Text → Text
inner [] = []
inner (c ∷ s) = take (length s - 1) s

abbrev pub in_brackets : Text → Text
in_brackets s = codes "[" ++ s ++ codes "]"

-- One part of the carrier path, `/tcp4:2006`.
unfoldable pub carrier_path : Carrier → ServiceEndpoint → Text
carrier_path c e =
    if truthy (port_of c e)
    then codes "/"
      ++ carrier_text c
      ++ (if text_eq (family_of c e) (codes "any") then [] else family_of c e)
      ++ codes ":"
      ++ port_of c e
    else []

-- `/[/@?#%[\]<>\s\\]/`.
abbrev pub is_bad_host_char : ℕ → Bool
is_bad_host_char c = has_char c (codes "/@?#%[]<>\\") || is_space c

abbrev pub is_control : ℕ → Bool
is_control c = ltb c 32 || c == 127

-- `/^\d+\.\d+\.\d+\.\d+$/`.
unfoldable pub is_dotted_quad : Text → Bool
is_dotted_quad s = let parts = split b'.' s in length parts == 4 && all is_digits parts

abbrev pub families : List Text
families = codes "any" ∷ codes "4" ∷ codes "6" ∷ []

-- One round of the loop of `validateServiceEndpoint`.
unfoldable pub validate_carrier : Text → ServiceEndpoint → Carrier → Result (Unit {0})
validate_carrier host e c =
    let port = port_of c e in
    let family = family_of c e in
    if not (truthy port) then ok tt else do
      reject
          (not (is_digits port) || ltb (digits_value 0 port) 1 || ltb 65535 (digits_value 0 port))
          (port_out_of_range c)
      reject (not (is_member family families)) invalid_family
      reject
          ((has_char b':' host && text_eq family (codes "4"))
            || (is_dotted_quad host && text_eq family (codes "6")))
          family_conflict

-- One port for both carriers, of any family.
abbrev pub is_compact : ServiceEndpoint → Bool
is_compact e =
    truthy e.tcp_port
    && text_eq e.tcp_port e.udp_port
    && text_eq e.tcp_family (codes "any")
    && text_eq e.udp_family (codes "any")

module _ (web : Platform) where
  unfoldable pub normalize_host : Text → Text
  normalize_host host =
      if starts_with host (codes "[") && ends_with host b']'
      then elim (web.new_url (codes "http://" ++ host)) [
        | some url ↦ inner url.hostname
        | none ↦ host
      ]
      else host

  unfoldable pub format_host : Text → Text
  format_host host =
      let value = normalize_host (trim host) in
      if has_char b':' value then in_brackets value else value

  unfoldable pub format_service_endpoint : ServiceEndpoint → Text
  format_service_endpoint e =
      let host = format_host (text_or e.host (codes "*")) in
      if is_compact e
      then host ++ codes ":" ++ e.tcp_port
      else host ++ carrier_path tcp e ++ carrier_path udp e

  abbrev pub is_url : Text → Bool
  is_url s = elim (web.new_url s) [ some url ↦ true | none ↦ false ]

  -- The tests before the loop.
  unfoldable pub validate_host : Text → Bool → Result (Unit {0})
  validate_host host allow_wildcard = do
    reject (not (truthy host) || any is_bad_host_char host || any is_control host) invalid_host
    reject (has_char b':' host && not (is_url (codes "http://[" ++ host ++ codes "]"))) invalid_ipv6
    reject (not allow_wildcard && text_eq host (codes "*")) concrete_host_required

  unfoldable pub validate_service_endpoint : ServiceEndpoint → Bool → Result (Unit {0})
  validate_service_endpoint e allow_wildcard = do
    let host = normalize_host e.host
    validate_host host allow_wildcard
    reject (not (truthy e.tcp_port) && not (truthy e.udp_port)) no_listener
    validate_carrier host e tcp
    validate_carrier host e udp
