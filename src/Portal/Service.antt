-- ===== src/Portal/Service.antt =====
-- `portalUrlsMatch`, `portalUrlFromTunnel`, `portalServiceEndpoint` and its views of
-- web/src/lib/portal-url.ts.
pub mod Match
use nowhere_dash.Base.{
  Bool, true, false, not, ◌&&◌, ◌||◌, List, [], ◌∷◌, Option, none, some, if◌then◌else◌, Text, codes,
  text_eq, truthy, text_or, has_char, keep, join,
}
use nowhere_dash.Portal.Platform.{Url, Platform, ok, err}
use nowhere_dash.Portal.Endpoint.{ServiceEndpoint, normalize_host, format_service_endpoint}
use nowhere_dash.Portal.Parse.{parse_portal_url}
use nowhere_dash.Portal.Tunnel.{
  Tunnel, nullish, falsy, portal_url_from_command, comparable_portal_query, agrees, same_key,
}

-- `a == null`.
abbrev pub is_null : Option Text → Bool
is_null none = true
is_null (some v) = false

-- `portalUrlFromCommand(a) || portalUrlFromCommand(b)`.
abbrev pub url_of_either : Option Text → Option Text → Text
url_of_either a b = text_or (portal_url_from_command a) (portal_url_from_command b)

-- The endpoint of a tunnel with no URL; the flag is `legacy`.
unfoldable pub legacy_port : Tunnel → Text → Option Text → Text
legacy_port t other given =
    if is_null t.tcp_port && is_null t.udp_port
    then if text_eq (nullish t.network []) other then [] else nullish t.listen_port []
    else nullish given []

module _ (web : Platform) where
  -- The comparison of the two queries, with its `catch`.
  unfoldable pub queries_agree : Url → Url → Bool
  queries_agree command config = elim (comparable_portal_query web command) [
    | err _ ↦ false
    | ok expected ↦ elim (comparable_portal_query web config) [
      | err _ ↦ false
      | ok actual ↦ agrees web expected actual
    ]
  ]

  unfoldable pub match_parsed : Url × ServiceEndpoint → Url × ServiceEndpoint → Bool
  match_parsed (command, command_endpoint) (config, config_endpoint) =
      if not (
        text_eq (format_service_endpoint web command_endpoint)
          (format_service_endpoint web config_endpoint))
      then false
      else if truthy config.username && not (same_key web config.username command.username)
      then false
      else queries_agree command config

  unfoldable pub portal_urls_match : Text → Text → Bool
  portal_urls_match command_url config_url = elim (parse_portal_url web command_url) [
    | none ↦ false
    | some command ↦ elim (parse_portal_url web config_url) [
      | none ↦ false
      | some config ↦ match_parsed command config
    ]
  ]

  unfoldable pub portal_url_from_tunnel : Tunnel → Text
  portal_url_from_tunnel t =
      let command = url_of_either t.command_url t.command_line in
      let config = url_of_either t.config_url t.config_line in
      if truthy config && (not (truthy command) || portal_urls_match command config)
      then config
      else command

  unfoldable pub portal_service_endpoint : Tunnel → ServiceEndpoint
  portal_service_endpoint t = elim (parse_portal_url web (portal_url_from_tunnel t)) [
    | some (url, e) ↦ e
    | none ↦ record {
      host = normalize_host web (falsy t.listen_host (codes "*"));
      tcp_port = legacy_port t (codes "udp") t.tcp_port;
      udp_port = legacy_port t (codes "tcp") t.udp_port;
      tcp_family = falsy t.tcp_family (codes "any");
      udp_family = falsy t.udp_family (codes "any");
    }
  ]

  unfoldable pub portal_network_label : Tunnel → Text
  portal_network_label t =
      let e = portal_service_endpoint t in
      join (codes " + ") (
        keep truthy (
          (if truthy e.tcp_port then codes "TCP" else [])
          ∷ (if truthy e.udp_port then codes "UDP" else [])
          ∷ []))

  unfoldable pub listener_addresses : ServiceEndpoint → List Text
  listener_addresses e =
      let canonical = format_service_endpoint web e in
      if not (has_char b'/' canonical)
      then canonical ∷ []
      else keep truthy (
          (if truthy e.tcp_port
            then format_service_endpoint web (record e { udp_port = [] })
            else [])
          ∷ (if truthy e.udp_port
              then format_service_endpoint web (record e { tcp_port = [] })
              else [])
          ∷ [])

  unfoldable pub portal_listener_addresses : Tunnel → List Text
  portal_listener_addresses t = listener_addresses (portal_service_endpoint t)
