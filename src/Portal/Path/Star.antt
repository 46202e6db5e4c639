-- ===== src/Portal/Path/Star.antt =====
-- Theorems on the name that `parseServiceUrl` puts in for an empty host.
use mathlib.Core.List.{append_assoc}
use nowhere_dash.Base.{
  ◌≤◌, Bool, false, [], ◌∷◌, ◌++◌, none, if◌then◌else◌, Text, codes, text_or, text_eq, has_char,
  truthy, starts_with, Lacks, All, All-append, ◌≡◌, ◌≢◌, ◌⊎◌, refl, arith, inl, inr, Bool-cases,
}
use nowhere_dash.Portal.Platform.{Platform, Carrier, tcp, udp}
use nowhere_dash.Portal.Endpoint.{
  ServiceEndpoint, port_of, family_of, carrier_text, carrier_path, normalize_host, format_host,
  format_service_endpoint, is_compact,
}
use nowhere_dash.Portal.Endpoint.Valid.{IsCarrier, IsValid}
use nowhere_dash.Portal.Parse.{starts_with_i, portal_scheme, star_after_at, name_empty_host}
use nowhere_dash.Portal.Path.Host.{IsClean, trim_of_valid, given_host, All-in_brackets}

star_after_at-Lacks :
    (x y : Text) → Lacks b'@' x → star_after_at y ≡ none → star_after_at (x ++ y) ≡ none
unfolding star_after_at
star_after_at-Lacks [] y _ h = h
star_after_at-Lacks (c ∷ x) y (n, ns) h = rw (star_after_at-Lacks x y ns h) (ground arith)

star_after_at-query : (q : Text) → star_after_at (b'?' ∷ q) ≡ none
unfolding star_after_at
star_after_at-query q = ground arith

star_after_at-at :
    (z : Text)
    → star_after_at z ≡ none
    → starts_with z (codes ":") ≡ false
    → star_after_at (b'@' ∷ z) ≡ none
unfolding star_after_at
star_after_at-at z h k = rw (h, k) refl

digits-Lacks_at : (s : Text) → All (λ c. (b'0' ≤ c) × (c ≤ b'9')) s → Lacks b'@' s
digits-Lacks_at [] _ = tt
digits-Lacks_at (c ∷ s) (h, hs) = (omega (arith, h.1), digits-Lacks_at s hs)

known-Lacks_at :
    (f : Text)
    → (f ≡ codes "any") ⊎ (f ≡ codes "4") ⊎ (f ≡ codes "6")
    → Lacks b'@' (if text_eq f (codes "any") then [] else f)
unfolding text_eq
known-Lacks_at f k = elim k [
  | inl a ↦ rw a tt
  | inr (inl b) ↦ rw b (omega arith, tt)
  | inr (inr d) ↦ rw d (omega arith, tt)
]

carrier_text-Lacks_at : (c : Carrier) → Lacks b'@' (carrier_text c)
carrier_text-Lacks_at tcp = ground arith
carrier_text-Lacks_at udp = ground arith

carrier_path-Lacks_at :
    (host : Text) (c : Carrier) (e : ServiceEndpoint)
    → (port_of c e ≢ [] → IsCarrier host (port_of c e) (family_of c e))
    → Lacks b'@' (carrier_path c e)
unfolding carrier_path
carrier_path-Lacks_at host c e valid = elim (Bool-cases (truthy (port_of c e))) [
  | inr off ↦ rw off tt
  | inl on ↦
      let v = valid (ground arith) in
      let family = if text_eq (family_of c e) (codes "any") then [] else family_of c e in
      rw on (
        omega arith,
        All-append _ (carrier_text c ++ family ++ codes ":") (port_of c e)
            (All-append _ (carrier_text c ++ family) (codes ":")
              (All-append _ (carrier_text c) family (carrier_text-Lacks_at c)
                (known-Lacks_at (family_of c e) v.known))
              (omega arith, tt))
            (digits-Lacks_at (port_of c e) v.digits),
      )
]

IsClean-Lacks_at : (s : Text) → IsClean s → Lacks b'@' s
unfolding has_char
IsClean-Lacks_at [] _ = tt
IsClean-Lacks_at (c ∷ s) (h, hs) = (ground arith, IsClean-Lacks_at s hs)

no_colon_first :
    (s t : Text) → s ≢ [] → has_char b':' s ≡ false → starts_with (s ++ t) (codes ":") ≡ false
unfolding starts_with has_char
no_colon_first [] t ne h = absurd (ne refl)
no_colon_first (c ∷ s) t ne h = ground arith

first_stays :
    (s z : Text)
    → starts_with s (codes ":") ≡ false
    → starts_with (s ++ b'@' ∷ z) (codes ":") ≡ false
unfolding starts_with
first_stays [] z h = refl
first_stays (c ∷ s) z h = ground arith

module _ (web : Platform) (allow : Bool) (e : ServiceEndpoint) (valid : IsValid web allow e) where
  host_text : Text
  host_text = format_host web (text_or e.host (codes "*"))

  host_text-Lacks_at : Lacks b'@' host_text
  unfolding host_text format_host
  host_text-Lacks_at =
      let v = valid.host_valid in
      rw (given_host web allow e.host v, trim_of_valid web e.host v.clean)
        (All-in_brackets _ _ _ (omega arith) (omega arith) (IsClean-Lacks_at _ v.clean))

  host_text-first : (t : Text) → starts_with (host_text ++ t) (codes ":") ≡ false
  unfolding host_text format_host
  host_text-first t =
      let v = valid.host_valid in
      rw (given_host web allow e.host v, trim_of_valid web e.host v.clean)
        (elim (Bool-cases (has_char b':' (normalize_host web e.host))) [
          | inl on ↦ rw on (unfold starts_with in ground arith)
          | inr off ↦ rw off (no_colon_first _ t v.given off)
        ])

  -- What stands behind the host in the text of the endpoint.
  behind_host : Text
  behind_host =
      if is_compact e then codes ":" ++ e.tcp_port else carrier_path tcp e ++ carrier_path udp e

  format_service_endpoint-host : format_service_endpoint web e ≡ host_text ++ behind_host
  unfolding format_service_endpoint host_text behind_host
  format_service_endpoint-host = elim (Bool-cases (is_compact e)) [
    | inl on ↦ rw (on, append_assoc)
    | inr off ↦ rw (off, append_assoc)
  ]

  behind_host-Lacks_at : Lacks b'@' behind_host
  unfolding behind_host
  behind_host-Lacks_at = elim (Bool-cases (is_compact e)) [
    | inl on ↦
        rw on (omega arith, digits-Lacks_at e.tcp_port (valid.tcp_valid (ground arith)).digits)
    | inr off ↦ rw off (
        All-append _ (carrier_path tcp e) _ (carrier_path-Lacks_at _ tcp e valid.tcp_valid)
          (carrier_path-Lacks_at _ udp e valid.udp_valid))
  ]

  module _ (user q : Text) (no_at : Lacks b'@' user)
      (no_colon : starts_with user (codes ":") ≡ false) where
    endpoint_text : Text
    endpoint_text = format_service_endpoint web e ++ b'?' ∷ q

    star_after_at-endpoint : star_after_at endpoint_text ≡ none
    unfolding endpoint_text
    star_after_at-endpoint =
        star_after_at-Lacks (format_service_endpoint web e) (b'?' ∷ q)
          (rw format_service_endpoint-host
            (All-append _ host_text _ host_text-Lacks_at behind_host-Lacks_at))
          (star_after_at-query q)

    endpoint_text-first : starts_with endpoint_text (codes ":") ≡ false
    unfolding endpoint_text
    endpoint_text-first =
        rw (format_service_endpoint-host, append_assoc) (host_text-first (behind_host ++ b'?' ∷ q))

    -- The name of an empty host is not needed: a portal URL with a valid endpoint is left as it is.
    pub name_empty_host-portal :
        name_empty_host
          (portal_scheme ++ (user ++ b'@' ∷ (format_service_endpoint web e ++ b'?' ∷ q)))
        ≡ portal_scheme ++ (user ++ b'@' ∷ (format_service_endpoint web e ++ b'?' ∷ q))
    unfolding name_empty_host starts_with_i endpoint_text
    name_empty_host-portal = rw (
      star_after_at-Lacks user (b'@' ∷ endpoint_text) no_at
          (star_after_at-at endpoint_text star_after_at-endpoint endpoint_text-first),
      (first_stays user endpoint_text no_colon),
    )
