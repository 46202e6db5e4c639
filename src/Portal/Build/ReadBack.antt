-- ===== src/Portal/Build/ReadBack.antt =====
-- Theorems on `parsePortalUrl` of what `buildPortalUrl` writes.
use mathlib.Core.List.{append_assoc}
use mathlib.Core.Path.{subst}
use nowhere_dash.Base.{
  Bool, true, [], ◌∷◌, ◌++◌, some, if◌then◌else◌, Text, codes, text_eq_refl, text_eq_iff,
  starts_with, All, ◌≡◌, ◌≢◌, refl, ◌∙◌, sym, ap, arith, inl, inr, Bool-cases,
}
use nowhere_dash.Portal.Platform.{Platform, Url, ok}
use nowhere_dash.Portal.Uri.{is_scalar, encode_component, decode_uri_component}
use nowhere_dash.Portal.Uri.RoundTrip.{decode-encode_component}
use nowhere_dash.Portal.Endpoint.{
  ServiceEndpoint, format_service_endpoint, is_compact, normalize_host,
}
use nowhere_dash.Portal.Endpoint.Valid.{IsValid}
use nowhere_dash.Portal.Parse.{
  name_empty_host, parse_portal_url, parse_service_url, canonical_digits, after_scheme,
  portal_scheme,
}
use nowhere_dash.Portal.Query.{Entries, encode_native_query}
use nowhere_dash.Portal.Tunnel.{Tunnel, nullish}
use nowhere_dash.Portal.Service.{url_of_either, portal_service_endpoint}
use nowhere_dash.Portal.Build.{assemble, build_portal_url}
use nowhere_dash.Portal.Build.Options.{build_portal_url-IsBuilt}
use nowhere_dash.Portal.Path.Carriers.{IsScheme}
use nowhere_dash.Portal.Path.User.{
  user_part, user_part-Lacks, user_part-NoQuery, encode_component-Lacks_at, encode_component-first,
}
use nowhere_dash.Portal.Path.Star.{name_empty_host-portal}
use nowhere_dash.Portal.Path.Kept.{read_back}
use nowhere_dash.Portal.Path.RoundTrip.{parse-carriers, parse-compact}

portal_IsScheme : IsScheme portal_scheme
unfolding after_scheme starts_with
portal_IsScheme = record { behind = λ rest. refl; no_query = ground arith }

assemble_portal :
    (k e : Text) (query : Entries)
    → assemble (codes "portal") k e query
      ≡ portal_scheme
        ++ (((encode_component k ++ b'@' ∷ []) ++ e) ++ b'?' ∷ encode_native_query query)
assemble_portal k e query = simp append_assoc

module _ (web : Platform) (allow : Bool) (e : ServiceEndpoint) (valid : IsValid web allow e)
    (k : Text) (q : Text) (url : Url) (scalars : All (λ c. is_scalar c ≡ true) k) where
  raw_text : Text
  raw_text = portal_scheme ++ ((user_part k ++ format_service_endpoint web e) ++ b'?' ∷ q)

  -- An endpoint behind a key in a portal URL is read back.
  parse_service_url-portal :
      web.new_url raw_text ≡ some url
      → normalize_host web (normalize_host web url.hostname) ≡ normalize_host web e.host
      → url.port ≡ (if is_compact e then canonical_digits e.tcp_port else [])
      → parse_service_url web raw_text allow
        ≡ ok (url, read_back (normalize_host web url.hostname) e)
  unfolding raw_text
  parse_service_url-portal accepted host port =
      let user = user_part k in
      let slash = user_part-Lacks k scalars web allow e.host valid.host_valid in
      let mark = user_part-NoQuery k scalars web allow e.host valid.host_valid in
      let f = format_service_endpoint web e in
      let flat : (user ++ f) ++ b'?' ∷ q ≡ encode_component k ++ b'@' ∷ (f ++ b'?' ∷ q) =
        append_assoc user f (b'?' ∷ q)
        ∙ append_assoc (encode_component k) (b'@' ∷ []) (f ++ b'?' ∷ q) in
      let named =
        subst (λ t. name_empty_host (portal_scheme ++ t) ≡ portal_scheme ++ t) (sym flat)
          (name_empty_host-portal web allow e valid (encode_component k) q
            (encode_component-Lacks_at k scalars) (encode_component-first k scalars)) in
      elim (Bool-cases (is_compact e)) [
        | inl tight ↦
            parse-compact web allow e valid portal_scheme user q url portal_IsScheme slash mark
              accepted named host tight (rw tight at port)
        | inr loose ↦
            parse-carriers web allow e valid portal_scheme user q url portal_IsScheme slash mark
              accepted named host loose (rw loose at port)
      ]

parse_portal_url-service :
    (web : Platform) (raw : Text) (url : Url) (e : ServiceEndpoint) (key : Text)
    → parse_service_url web raw true ≡ ok (url, e)
    → url.protocol ≡ codes "portal:"
    → decode_uri_component url.username ≡ some key
    → parse_portal_url web raw ≡ some (url, e)
unfolding parse_portal_url
parse_portal_url-service web raw url e key read scheme decoded =
    ground (arith, text_eq_refl (codes "portal:"), text_eq_iff url.protocol (codes "portal:"))

module _ (web : Platform) (t : Tunnel) (url : Url) where
  -- With no URL in the command, whatever `buildPortalUrl` returns other than the empty text is read
  -- back by `parsePortalUrl` as the tunnel's endpoint, with the same carriers, families and port
  -- numbers. Asked of the URL parser is that it accepts the URL and gives back its scheme, the user
  -- name as written, the host and, for the compact form, the port; the key is a well-formed string.
  pub build_portal_url-parse :
      url_of_either t.command_url t.command_line ≡ []
      → build_portal_url web t ≢ []
      → web.new_url (build_portal_url web t) ≡ some url
      → url.protocol ≡ codes "portal:"
      → url.username ≡ encode_component (nullish t.shared_key [])
      → normalize_host web (normalize_host web url.hostname)
        ≡ normalize_host web (portal_service_endpoint web t).host
      → url.port ≡ (
          if is_compact (portal_service_endpoint web t)
          then canonical_digits (portal_service_endpoint web t).tcp_port
          else [])
      → All (λ c. is_scalar c ≡ true) (nullish t.shared_key [])
      → parse_portal_url web (build_portal_url web t)
        ≡ some (url, read_back (normalize_host web url.hostname) (portal_service_endpoint web t))
  build_portal_url-parse none_given made accepted scheme name host port scalars =
      let x = build_portal_url-IsBuilt web t none_given made in
      let k = nullish t.shared_key [] in
      let e = portal_service_endpoint web t in
      let q = encode_native_query x.query in
      let written = x.raw_is ∙ assemble_portal k (format_service_endpoint web e) x.query in
      let read : parse_service_url web (build_portal_url web t) true
          ≡ ok (url, read_back (normalize_host web url.hostname) e) =
        subst
          (λ r.
            parse_service_url web r true ≡ ok (url, read_back (normalize_host web url.hostname) e))
          (sym written)
          (unfold raw_text in
            parse_service_url-portal web true e x.endpoint_valid k q url scalars
              (subst (λ r. web.new_url r ≡ some url) written accepted) host port) in
      parse_portal_url-service web (build_portal_url web t) url _ k read scheme
        (ap decode_uri_component name ∙ decode-encode_component k scalars)
