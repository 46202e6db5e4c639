-- ===== src/Portal/Endpoint/Valid.antt =====
-- Theorems on the endpoints that `validateServiceEndpoint` accepts.
use nowhere_dash.Base.{
  ◌≤◌, Bool, true, false, not, ◌&&◌, ◌||◌, [], ◌∷◌, ◌++◌, Text, codes, text_eq_iff, truthy,
  has_char, is_digit, digits_value, is_member, all, any, All, ◌≡◌, ◌≢◌, ◌⊎◌, ◌↔◌, inl, inr, refl,
  arith, Bool-cases,
}
use nowhere_dash.Portal.Platform.{
  Platform, Carrier, tcp, udp, Result, ok, err, no_listener, ◌>>◌, no_listener, reject,
}
use nowhere_dash.Portal.Endpoint.{
  ServiceEndpoint, port_of, family_of, is_bad_host_char, is_control, is_dotted_quad,
  validate_carrier, validate_host, validate_service_endpoint, normalize_host, is_url,
}

-- A carrier with no port is off. One with a port has a number from 1 to 65535 in decimal digits, a
-- known family, and no family that the host's own address contradicts.
pub record IsCarrier (host port family : Text) : Type 0 where
  pub digits : All (λ c. (b'0' ≤ c) × (c ≤ b'9')) port
  pub from_one : 1 ≤ digits_value 0 port
  pub to_max : digits_value 0 port ≤ 65535
  pub known : (family ≡ codes "any") ⊎ (family ≡ codes "4") ⊎ (family ≡ codes "6")
  pub not_four : has_char b':' host ≡ true → family ≢ codes "4"
  pub not_six : is_dotted_quad host ≡ true → family ≢ codes "6"

digits_sound : (s : Text) → all is_digit s ≡ true → All (λ c. (b'0' ≤ c) × (c ≤ b'9')) s
digits_sound [] h = tt
digits_sound (c ∷ s) h = (ground arith, digits_sound s (ground arith))

digits_complete : (s : Text) → All (λ c. (b'0' ≤ c) × (c ≤ b'9')) s → all is_digit s ≡ true
digits_complete [] h = refl
digits_complete (c ∷ s) (h, hs) = ground (arith, digits_complete s hs)

module _ (host : Text) (e : ServiceEndpoint) (c : Carrier) where
  validate_carrier_sound :
      validate_carrier host e c ≡ ok tt
      → port_of c e ≢ []
      → IsCarrier host (port_of c e) (family_of c e)
  unfolding validate_carrier is_member
  validate_carrier_sound h given =
      let ds = digits_sound (port_of c e) in
      let q = text_eq_iff (family_of c e) in
      ground (arith, ds, q (codes "any"), q (codes "4"), q (codes "6"))

  validate_carrier_complete :
      (port_of c e ≢ [] → IsCarrier host (port_of c e) (family_of c e))
      → validate_carrier host e c ≡ ok tt
  unfolding validate_carrier is_member
  validate_carrier_complete valid = elim (Bool-cases (truthy (port_of c e))) [
    | inr off ↦ ground arith
    | inl on ↦
        let v = valid (ground arith) in
        let ds = digits_complete (port_of c e) v.digits in
        let q = text_eq_iff (family_of c e) in
        ground (arith, ds, v, q (codes "any"), q (codes "4"), q (codes "6"))
  ]

  validate_carrier-ok :
      (validate_carrier host e c ≡ ok tt)
      ↔ (port_of c e ≢ [] → IsCarrier host (port_of c e) (family_of c e))
  validate_carrier-ok = (validate_carrier_sound, validate_carrier_complete)

-- What the source asks of a host: some characters, none of them reserved, white or control, an
-- address that the URL parser takes if it has a colon, and no wildcard unless that is allowed.
pub record IsHost (web : Platform) (allow_wildcard : Bool) (host : Text) : Type 0 where
  pub given : host ≢ []
  pub clean : All (λ c. (is_bad_host_char c ≡ false) × (is_control c ≡ false)) host
  pub address :
      has_char b':' host ≡ true → is_url web (codes "http://[" ++ host ++ codes "]") ≡ true
  pub concrete : allow_wildcard ≡ false → host ≢ codes "*"

clean_sound :
    (s : Text)
    → (any is_bad_host_char s || any is_control s) ≡ false
    → All (λ c. (is_bad_host_char c ≡ false) × (is_control c ≡ false)) s
clean_sound [] h = tt
clean_sound (c ∷ s) h = ((ground arith, ground arith), clean_sound s (ground arith))

clean_complete :
    (s : Text)
    → All (λ c. (is_bad_host_char c ≡ false) × (is_control c ≡ false)) s
    → (any is_bad_host_char s ≡ false) × (any is_control s ≡ false)
clean_complete [] h = (refl, refl)
clean_complete (c ∷ s) ((b, k), hs) = ground (arith, clean_complete s hs)

validate_host-ok :
    (web : Platform) (host : Text) (allow_wildcard : Bool)
    → (validate_host web host allow_wildcard ≡ ok tt) ↔ IsHost web allow_wildcard host
unfolding validate_host
validate_host-ok web host allow_wildcard = (
  λ h. record {
    given = ground arith;
    clean = clean_sound host (ground arith);
    address = ground arith;
    concrete = ground (arith, text_eq_iff host (codes "*"));
  },
  λ v. ground (arith, clean_complete host v.clean, text_eq_iff host (codes "*"), v),
)

seq_sound : (a b : Result (Unit {0})) → a >> b ≡ ok tt → (a ≡ ok tt) × (b ≡ ok tt)
seq_sound (ok tt) b h = (refl, h)
seq_sound (err x) b h = cc

seq_complete : (a b : Result (Unit {0})) → a ≡ ok tt → b ≡ ok tt → a >> b ≡ ok tt
seq_complete a b h k = rw h k

listener_sound :
    (t u : Text)
    → reject (not (truthy t) && not (truthy u)) no_listener ≡ ok tt
    → (t ≢ []) ⊎ (u ≢ [])
listener_sound [] [] h = cc
listener_sound (c ∷ t) u h = inl cc
listener_sound [] (c ∷ u) h = inr cc

listener_complete :
    (t u : Text)
    → (t ≢ []) ⊎ (u ≢ [])
    → reject (not (truthy t) && not (truthy u)) no_listener ≡ ok tt
listener_complete t u h = ground arith

-- A valid endpoint, with its host as the URL parser writes it.
pub record IsValid (web : Platform) (allow_wildcard : Bool) (e : ServiceEndpoint) : Type 0 where
  pub host_valid : IsHost web allow_wildcard (normalize_host web e.host)
  pub has_listener : (e.tcp_port ≢ []) ⊎ (e.udp_port ≢ [])
  pub tcp_valid : e.tcp_port ≢ [] → IsCarrier (normalize_host web e.host) e.tcp_port e.tcp_family
  pub udp_valid : e.udp_port ≢ [] → IsCarrier (normalize_host web e.host) e.udp_port e.udp_family

-- `validateServiceEndpoint` returns without an error exactly on the valid endpoints.
pub validate_service_endpoint_iff :
    (web : Platform) (e : ServiceEndpoint) (allow_wildcard : Bool)
    → (validate_service_endpoint web e allow_wildcard ≡ ok tt) ↔ IsValid web allow_wildcard e
unfolding validate_service_endpoint
validate_service_endpoint_iff web e allow_wildcard =
    let host = normalize_host web e.host in
    (
      λ h.
          let (h_host, h1) = seq_sound _ _ h in
          let (h_listener, h2) = seq_sound _ _ h1 in
          let (h_tcp, h_udp) = seq_sound _ _ h2 in
          record {
            host_valid = (validate_host-ok web host allow_wildcard).0 h_host;
            has_listener = listener_sound e.tcp_port e.udp_port h_listener;
            tcp_valid = (validate_carrier-ok host e tcp).0 h_tcp;
            udp_valid = (validate_carrier-ok host e udp).0 h_udp;
          },
      λ v. seq_complete _ _ ((validate_host-ok web host allow_wildcard).1 v.host_valid) (
          seq_complete _ _ (listener_complete e.tcp_port e.udp_port v.has_listener) (
            seq_complete _ _ ((validate_carrier-ok host e tcp).1 v.tcp_valid)
              ((validate_carrier-ok host e udp).1 v.udp_valid))),
    )
