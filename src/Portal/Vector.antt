-- ===== src/Portal/Vector.antt =====
-- `endpointHostname` and `deriveVectorUrl` of web/src/lib/portal-url.ts.
pub mod Export
use nowhere_dash.Base.{
  true, false, not, ◌&&◌, [], ◌∷◌, Option, none, some, if◌then◌else◌, Text, codes, truthy,
  is_member, trim,
}
use nowhere_dash.Portal.Platform.{Url, Platform, Result, ok, err}
use nowhere_dash.Portal.Uri.{decode_uri_component}
use nowhere_dash.Portal.Endpoint.{
  ServiceEndpoint, normalize_host, format_service_endpoint, validate_service_endpoint,
}
use nowhere_dash.Portal.Parse.{parse_portal_url}
use nowhere_dash.Portal.Credentials.{validate_socks_endpoint}
use nowhere_dash.Portal.Query.{Entries, get_or, portal_query}
use nowhere_dash.Portal.Tunnel.{Tunnel, EndpointLike, nullish, wildcard_hosts, carrier_name}
use nowhere_dash.Portal.Service.{url_of_either, portal_url_from_tunnel, portal_service_endpoint}
use nowhere_dash.Portal.Build.{assemble}

abbrev pub Parsed : Type 0
Parsed = Option (Url × ServiceEndpoint)

-- `fromCommand?.parsed.username ? decodeURIComponent(…) : tunnel.sharedKey`. The user name was
-- decoded by `parsePortalUrl`, so the call cannot throw here.
unfoldable pub vector_key : Parsed → Tunnel → Text
vector_key none t = nullish t.shared_key []
vector_key (some (url, e)) t =
    if truthy url.username
    then elim (decode_uri_component url.username) [ none ↦ [] | some key ↦ key ]
    else nullish t.shared_key []

-- `fromUrl ? portalQuery(fromUrl.parsed) : new Map()`.
unfoldable pub source_query : Parsed → Result Entries
source_query none = ok []
source_query (some (url, e)) = portal_query url.search

-- `sourceValue(key)`.
unfoldable pub source_value : Parsed → Entries → Text → Option Text → Text
source_value none query key given = nullish given (codes "0")
source_value (some parsed) query key given = get_or key query (codes "0")

-- `fromCommand?.parsed.searchParams.get("log") ?? tunnel.logLevel ?? "info"`.
unfoldable pub vector_log : Parsed → Tunnel → Text
vector_log none t = nullish t.log_level (codes "info")
vector_log (some (url, e)) t =
    nullish (url.search_params_get (codes "log")) (nullish t.log_level (codes "info"))

unfoldable pub vector_query : Parsed → Parsed → Tunnel → ServiceEndpoint → Entries → Text → Entries
vector_query from_command from_url t service source socks =
    let carrier = carrier_name service in
    (codes "up", carrier)
    ∷ (codes "down", carrier)
    ∷ (codes "mux", codes "0")
    ∷ (codes "sni", codes "none")
    ∷ (codes "pin", codes "none")
    ∷ (codes "morph", source_value from_url source (codes "morph") t.morph)
    ∷ (codes "rate", source_value from_url source (codes "rate") t.rate)
    ∷ (codes "etar", source_value from_url source (codes "etar") t.etar)
    ∷ (codes "socks", socks)
    ∷ (codes "log", vector_log from_command t)
    ∷ []

module _ (web : Platform) where
  unfoldable pub url_hostname : Option Text → Text
  url_hostname url = elim (web.new_url (nullish url [])) [ none ↦ [] | some u ↦ u.hostname ]

  unfoldable pub endpoint_hostname : Option EndpointLike → Text
  endpoint_hostname none = []
  endpoint_hostname (some endpoint) =
      let hostname = nullish endpoint.hostname [] in
      if truthy hostname && not (is_member hostname wildcard_hosts)
      then trim hostname
      else url_hostname endpoint.url

  -- `endpoint ?? tunnel.endpoint`.
  abbrev pub endpoint_or : Option EndpointLike → Option EndpointLike → Option EndpointLike
  endpoint_or none other = other
  endpoint_or (some endpoint) other = some endpoint

  -- A wildcard host is replaced by the endpoint's.
  unfoldable pub concrete_service : Tunnel → Option EndpointLike → ServiceEndpoint
  concrete_service t endpoint =
      let service = portal_service_endpoint web t in
      if is_member service.host wildcard_hosts
      then record service {
        host = normalize_host web (endpoint_hostname (endpoint_or endpoint t.endpoint));
      }
      else service

  -- What follows the checks on the service and on `socks`.
  unfoldable pub finish_vector_url :
      Parsed → Parsed → Tunnel → Text → ServiceEndpoint → Text → Option Text
  finish_vector_url from_command from_url t key service socks = elim (source_query from_url) [
    | err _ ↦ none
    | ok source ↦ some (
        assemble (codes "vector") key (format_service_endpoint web service)
          (vector_query from_command from_url t service source socks))
  ]

  unfoldable pub derive_vector_url : Tunnel → Option EndpointLike → Text → Option Text
  derive_vector_url t endpoint socks =
      let from_command = parse_portal_url web (url_of_either t.command_url t.command_line) in
      let from_url = parse_portal_url web (portal_url_from_tunnel web t) in
      let key = vector_key from_command t in
      let service = concrete_service t endpoint in
      if not (truthy key) then none else elim (validate_service_endpoint web service false) [
        | err _ ↦ none
        | ok _ ↦ elim (validate_socks_endpoint web socks true) [
          | err _ ↦ none
          | ok _ ↦ finish_vector_url from_command from_url t key service socks
        ]
      ]
