-- ===== src/Portal/Vector/Export.antt =====
-- Theorems on what `deriveVectorUrl` returns.
use mathlib.Core.List.{append_assoc}
use nowhere_dash.Base.{
  starts_with, true, false, [], ◌∷◌, ◌++◌, Option, some, if◌then◌else◌, Text, codes, All, ◌≡◌, ◌≢◌,
  refl, ◌∙◌, sym, arith, inl, inr, Bool-cases,
}
use mathlib.Core.Path.{subst}
use nowhere_dash.Portal.Platform.{Platform, Url, ok, Result-cases}
use nowhere_dash.Portal.Uri.{is_scalar}
use nowhere_dash.Portal.Endpoint.{
  ServiceEndpoint, format_service_endpoint, is_compact, normalize_host,
}
use nowhere_dash.Portal.Endpoint.Valid.{IsValid, validate_service_endpoint_iff}
use nowhere_dash.Portal.Parse.{
  name_empty_host, starts_with_i, after_scheme, parse_portal_url, parse_service_url,
  canonical_digits,
}
use nowhere_dash.Portal.Credentials.{validate_socks_endpoint}
use nowhere_dash.Portal.Query.{Entries, encode_native_query}
use nowhere_dash.Portal.Tunnel.{Tunnel, EndpointLike}
use nowhere_dash.Portal.Service.{url_of_either, portal_url_from_tunnel}
use nowhere_dash.Portal.Build.{assemble}
use nowhere_dash.Portal.Path.Carriers.{IsScheme}
use nowhere_dash.Portal.Path.User.{user_part, user_part-Lacks, user_part-NoQuery}
use nowhere_dash.Portal.Path.Kept.{read_back}
use nowhere_dash.Portal.Path.RoundTrip.{parse-carriers, parse-compact}
use nowhere_dash.Portal.Vector.{
  Parsed, vector_key, source_query, vector_query, concrete_service, finish_vector_url,
  derive_vector_url,
}

module _ (web : Platform) (t : Tunnel) (endpoint : Option EndpointLike) (socks : Text) where
  abbrev pub from_command : Parsed
  from_command = parse_portal_url web (url_of_either t.command_url t.command_line)

  abbrev pub from_url : Parsed
  from_url = parse_portal_url web (portal_url_from_tunnel web t)

  abbrev pub key : Text
  key = vector_key from_command t

  abbrev pub service : ServiceEndpoint
  service = concrete_service web t endpoint

  -- An export: a key, a service that is valid with a host other than `*`, an acceptable SOCKS address, a source query that
  -- could be read, and the text put together from them.
  pub record IsExport (raw : Text) : Type 0 where
    pub key_given : key ≢ []
    pub service_valid : IsValid web false service
    pub socks_valid : validate_socks_endpoint web socks true ≡ ok tt
    pub source : Entries
    pub source_read : source_query from_url ≡ ok source
    pub raw_is :
        raw
        ≡ assemble
            (codes "vector")
            key
            (format_service_endpoint web service)
            (vector_query from_command from_url t service source socks)

  -- Whatever `deriveVectorUrl` returns is such an export: it has a key, a service that is valid
  -- with a host other than `*`, an acceptable SOCKS address, a source query that could be read, and the text
  -- put together from them.
  pub derive_vector_url-IsExport :
      {raw : Text} → derive_vector_url web t endpoint socks ≡ some raw → IsExport raw
  unfolding derive_vector_url finish_vector_url
  derive_vector_url-IsExport {raw} e = elim (Result-cases (source_query from_url)) [
    | inl (x, bad) ↦ ground (arith)
    | inr (source, read) ↦ record {
      key_given = ground arith;
      service_valid = (validate_service_endpoint_iff web service false).0 (ground arith);
      socks_valid = ground arith;
      source = source;
      source_read = read;
      raw_is = ground arith;
    }
  ]

assemble_lem :
    (k e : Text) (query : Entries)
    → assemble (codes "vector") k e query
      ≡ codes "vector://" ++ ((user_part k ++ e) ++ b'?' ∷ encode_native_query query)
assemble_lem k e query = simp append_assoc

named : (rest : Text) → name_empty_host (codes "vector://" ++ rest) ≡ codes "vector://" ++ rest
unfolding name_empty_host starts_with_i
named rest = refl

vector_IsScheme : IsScheme (codes "vector://")
unfolding after_scheme starts_with
vector_IsScheme = record { behind = λ rest. refl; no_query = ground arith }

module _ (web : Platform) (t : Tunnel) (endpoint : Option EndpointLike) (socks raw : Text)
    (url : Url) where
  -- Whatever Vector URL is exported, `parseServiceUrl` reads back the service that was exported: the
  -- same carriers, families and port numbers. Asked of the URL parser is that it accepts the URL and
  -- gives back the host and, for the compact form, the port; the key is a well-formed string.
  pub derive_vector_url-parse :
      derive_vector_url web t endpoint socks ≡ some raw
      → web.new_url raw ≡ some url
      → normalize_host web (normalize_host web url.hostname)
        ≡ normalize_host web (concrete_service web t endpoint).host
      → url.port ≡ (
          if is_compact (concrete_service web t endpoint)
          then canonical_digits (concrete_service web t endpoint).tcp_port
          else [])
      → All (λ c. is_scalar c ≡ true) (key web t endpoint socks)
      → parse_service_url web raw false
        ≡ ok (url, read_back (normalize_host web url.hostname) (concrete_service web t endpoint))
  derive_vector_url-parse made accepted host port scalars =
      let x = derive_vector_url-IsExport web t endpoint socks made in
      let e = concrete_service web t endpoint in
      let k = key web t endpoint socks in
      let q = encode_native_query (
        vector_query (from_command web t endpoint socks) (from_url web t endpoint socks) t e
          x.source socks) in
      let written : raw
          ≡ codes "vector://" ++ ((user_part k ++ format_service_endpoint web e) ++ b'?' ∷ q) =
        x.raw_is ∙ assemble_lem k (format_service_endpoint web e) _ in
      let slash = user_part-Lacks k scalars web false e.host x.service_valid.host_valid in
      let mark = user_part-NoQuery k scalars web false e.host x.service_valid.host_valid in
      let taken = subst (λ r. web.new_url r ≡ some url) written accepted in
      subst
        (λ r.
          parse_service_url web r false ≡ ok (url, read_back (normalize_host web url.hostname) e))
        (sym written)
        (elim (Bool-cases (is_compact e)) [
          | inl tight ↦
              parse-compact web false e x.service_valid (codes "vector://") (user_part k) q url
                vector_IsScheme slash mark taken (named _) host tight (rw tight at port)
          | inr loose ↦
              parse-carriers web false e x.service_valid (codes "vector://") (user_part k) q url
                vector_IsScheme slash mark taken (named _) host loose (rw loose at port)
        ])
