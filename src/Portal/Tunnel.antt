-- ===== src/Portal/Tunnel.antt =====
-- The tunnel of web/src/lib/portal-url.ts: `PortalTunnelLike`, the choice between the submitted
-- command and the runtime configuration, and `portalServiceEndpoint` with its views.
use nowhere_dash.Base.{
  Bool, false, ◌&&◌, ◌||◌, List, [], ◌∷◌, ◌++◌, Option, none, some, ◌==◌, if◌then◌else◌, map, Text,
  codes, text_eq, truthy, text_or, has_char, is_space, trim, all, drop, take,
}
use nowhere_dash.Portal.Platform.{Url, Platform, malformed_uri, Result, ok, ◌>>=◌, ◌>>◌, or_throw}
use nowhere_dash.Portal.Uri.{decode_uri_component}
use nowhere_dash.Portal.Endpoint.{
  ServiceEndpoint, normalize_host, format_service_endpoint, in_brackets,
}
use nowhere_dash.Portal.Parse.{starts_with_i, portal_scheme, parse_service_url}
use nowhere_dash.Portal.Credentials.{validate_socks_endpoint}
use nowhere_dash.Portal.Query.{Entries, get, set, get_or, query_defaults, portal_query}

pub record EndpointLike : Type 0 where
  pub hostname : Option Text
  pub url : Option Text

-- `null` and `undefined` are `none`; a port or a rate given as a number is its text. An `endpoint`
-- that is a plain string is `none`, as it is never read.
pub record Tunnel : Type 0 where
  pub command_url : Option Text
  pub config_url : Option Text
  pub command_line : Option Text
  pub config_line : Option Text
  pub listen_host : Option Text
  pub listen_port : Option Text
  pub tcp_port : Option Text
  pub udp_port : Option Text
  pub tcp_family : Option Text
  pub udp_family : Option Text
  pub morph : Option Text
  pub shared_key : Option Text
  pub network : Option Text
  pub tls_mode : Option Text
  pub cert_path : Option Text
  pub key_path : Option Text
  pub rate : Option Text
  pub etar : Option Text
  pub dial : Option Text
  pub socks : Option Text
  pub next : Option Text
  pub up : Option Text
  pub down : Option Text
  pub mux : Option Text
  pub sni : Option Text
  pub pin : Option Text
  pub log_level : Option Text
  pub endpoint : Option EndpointLike

-- `value ?? fallback` and `value || fallback`.
abbrev pub nullish : Option Text → Text → Text
nullish none fallback = fallback
nullish (some v) fallback = v

abbrev pub falsy : Option Text → Text → Text
falsy none fallback = fallback
falsy (some v) fallback = text_or v fallback

-- `[^\s"']+`, as far as it goes.
unfoldable pub url_run : Text → Text
url_run [] = []
url_run (c ∷ s) = if is_space c || c == b'"' || c == 39 then [] else c ∷ url_run s

-- `value.match(/portal:\/\/[^\s"']+/i)?.[0] ?? ""`.
unfoldable pub find_portal_url : Text → Text
find_portal_url [] = []
find_portal_url (c ∷ s) =
    if starts_with_i (c ∷ s) portal_scheme && truthy (url_run (drop 9 (c ∷ s)))
    then take 9 (c ∷ s) ++ url_run (drop 9 (c ∷ s))
    else find_portal_url s

unfoldable pub portal_url_from_command : Option Text → Text
portal_url_from_command command =
    let value = trim (nullish command []) in
    if starts_with_i value portal_scheme then value else find_portal_url value

-- `value.slice(value.lastIndexOf("@") + 1)`.
unfoldable pub without_credential : Text → Text
without_credential [] = []
without_credential (c ∷ s) =
    if has_char b'@' s then without_credential s else if c == b'@' then s else c ∷ s

abbrev pub is_none : Text → Bool
is_none s = text_eq s (codes "none")

-- `WILDCARD_HOSTS`.
abbrev pub wildcard_hosts : List Text
wildcard_hosts = [] ∷ codes "0.0.0.0" ∷ codes "::" ∷ codes "[::]" ∷ codes "*" ∷ []

abbrev pub carrier_name : ServiceEndpoint → Text
carrier_name e = if truthy e.tcp_port then codes "tcp" else codes "udp"

-- `up` and `down` are both `"udp"`.
abbrev pub both_udp : Entries → Bool
both_udp m =
    text_eq (get_or (codes "up") m []) (codes "udp")
    && text_eq (get_or (codes "down") m []) (codes "udp")

module _ (web : Platform) where
  unfoldable pub compare_socks : Entries → Result Entries
  compare_socks values =
      let socks = get_or (codes "socks") values [] in
      if is_none socks then ok values else do
        endpoint ← or_throw malformed_uri (decode_uri_component (without_credential socks))
        validate_socks_endpoint web socks false
        (url, e) ← parse_service_url web (codes "socks://" ++ endpoint) false
        ok (set (codes "socks") (format_service_endpoint web e) values)

  -- `query.get(key) || fallback`, for the keys that go with `next`.
  unfoldable pub set_next_keys : Entries → Text → Entries → Entries
  set_next_keys query carrier values =
      let from = λ (key fallback : Text). falsy (get key query) fallback in
      set (codes "pin") (from (codes "pin") (codes "none")) (
        set (codes "sni") (from (codes "sni") (codes "none")) (
          set (codes "mux") (from (codes "mux") (codes "0")) (
            set (codes "down") (from (codes "down") carrier)
              (set (codes "up") (from (codes "up") carrier) values))))

  unfoldable pub compare_next : Entries → Entries → Result Entries
  compare_next query values =
      let next = get_or (codes "next") values [] in
      if is_none next then ok values else do
        (url, e) ← parse_service_url web (codes "vector://" ++ without_credential next) false
        let named = set (codes "next") (format_service_endpoint web e) values
        let full = set_next_keys query (carrier_name e) named
        ok (if both_udp full then set (codes "mux") (codes "0") full else full)

  unfoldable pub compare_numbers : Entries → Entries
  compare_numbers values =
      let dial = get_or (codes "dial") values [] in
      let rated = set (codes "rate") (web.number_text (get_or (codes "rate") values [])) values in
      let etared = set (codes "etar") (web.number_text (get_or (codes "etar") rated [])) rated in
      if has_char b':' dial
      then set (codes "dial") (normalize_host web (in_brackets dial)) etared
      else etared

  unfoldable pub comparable_portal_query : Url → Result Entries
  comparable_portal_query url = do
    query ← portal_query url.search
    socksed ← compare_socks (map (λ e. (e.0, get_or e.0 query e.1)) query_defaults)
    nexted ← compare_next query socksed
    ok (compare_numbers nexted)

  -- `actual.get(key) === value` for every expected entry.
  abbrev pub agrees : Entries → Entries → Bool
  agrees expected actual =
      all (λ e. elim (get e.0 actual) [ none ↦ false | some v ↦ text_eq v e.1 ]) expected

  -- Both user names were decoded by `parsePortalUrl`, so neither call can throw here.
  abbrev pub same_key : Text → Text → Bool
  same_key config command = elim (decode_uri_component config) [
    | none ↦ false
    | some a ↦ elim (decode_uri_component command) [ none ↦ false | some b ↦ text_eq a b ]
  ]
