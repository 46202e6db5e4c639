-- ===== src/Portal/Parse.antt =====
-- `parseServiceUrl` and `parsePortalUrl` of web/src/lib/portal-url.ts.
use nowhere_dash.Base.{
  ℕ, ◌+◌, Bool, true, false, not, ◌&&◌, ◌||◌, List, [], ◌∷◌, ◌++◌, Option, none, some, leb, ◌==◌,
  if◌then◌else◌, Text, codes, text_eq, truthy, text_or, starts_with, is_digits, split, any, drop,
  take,
}
use nowhere_dash.Portal.Platform.{
  Url, Platform, Carrier, tcp, udp, invalid_carrier_path, invalid_url, ports_combined,
  duplicate_carrier, Result, ok, err, ◌>>=◌, ◌>>◌, reject, or_throw,
}
use nowhere_dash.Portal.Uri.{decode_uri_component}
use nowhere_dash.Portal.Endpoint.{
  ServiceEndpoint, port_of, normalize_host, validate_service_endpoint,
}

abbrev pub lower : ℕ → ℕ
lower c = if leb b'A' c && leb c b'Z' then c + 32 else c

-- A prefix test that ignores case, as in `/^portal:\/\//i`.
unfoldable pub starts_with_i : Text → Text → Bool
starts_with_i s [] = true
starts_with_i [] (p ∷ ps) = false
starts_with_i (c ∷ s) (p ∷ ps) = lower c == lower p && starts_with_i s ps

abbrev pub portal_scheme : Text
portal_scheme = codes "portal://"

-- `[/?#]`, which ends an authority.
abbrev pub ends_authority : ℕ → Bool
ends_authority c = c == b'/' || c == b'?' || c == b'#'

-- Puts `*` between the last `@` of the authority and a `:` that follows it at once.
unfoldable pub star_after_at : Text → Option Text
star_after_at [] = none
star_after_at (c ∷ s) = elim (star_after_at s) [
  | some t ↦ if ends_authority c then none else some (c ∷ t)
  | none ↦ if c == b'@' && starts_with s (codes ":") then some (c ∷ b'*' ∷ s) else none
]

-- `raw.replace(/^(portal:\/\/(?:[^/?#]*@)?):/i, "$1*:")`.
unfoldable pub name_empty_host : Text → Text
name_empty_host raw =
    if starts_with_i raw portal_scheme
    then elim (star_after_at (drop 9 raw)) [
      | some t ↦ take 9 raw ++ t
      | none ↦ if starts_with (drop 9 raw) (codes ":") then take 9 raw ++ b'*' ∷ drop 9 raw else raw
    ]
    else raw

-- `s.split(/[?#]/, 1)[0]`.
unfoldable pub before_query : Text → Text
before_query [] = []
before_query (c ∷ s) = if c == b'?' || c == b'#' then [] else c ∷ before_query s

-- The text in front of the next `"://"`.
unfoldable pub before_scheme_end : Text → Text
before_scheme_end [] = []
before_scheme_end (c ∷ s) =
    if starts_with (c ∷ s) (codes "://") then [] else c ∷ before_scheme_end s

-- `s.split("://")[1]`.
unfoldable pub after_scheme : Text → Option Text
after_scheme [] = none
after_scheme (c ∷ s) =
    if starts_with (c ∷ s) (codes "://")
    then some (before_scheme_end (drop 2 s))
    else after_scheme s

-- `?.split("/").slice(1) ?? []`.
abbrev pub segments_behind : Option Text → List Text
segments_behind none = []
segments_behind (some rest) = drop 1 (split b'/' rest)

-- `path`, the carrier segments of a URL.
unfoldable pub path_segments : Text → List Text
path_segments normalized = segments_behind (after_scheme (before_query normalized))

abbrev pub is_colon_digits : Text → Bool
is_colon_digits [] = false
is_colon_digits (c ∷ s) = c == b':' && is_digits s

abbrev pub is_family_port : Text → Bool
is_family_port [] = false
is_family_port (c ∷ s) = is_colon_digits (c ∷ s) || ((c == b'4' || c == b'6') && is_colon_digits s)

-- `/^(tcp|udp)[46]?:\d+$/`.
unfoldable pub is_segment : Text → Bool
is_segment s =
    (starts_with s (codes "tcp") || starts_with s (codes "udp")) && is_family_port (drop 3 s)

-- `String(Number(s))` for a string of digits. Above 2^53 JavaScript rounds; such a port is out of
-- range either way.
unfoldable pub canonical_digits : Text → Text
canonical_digits [] = codes "0"
canonical_digits (c ∷ []) = c ∷ []
canonical_digits (c ∷ d ∷ s) = if c == b'0' then canonical_digits (d ∷ s) else c ∷ d ∷ s

abbrev pub first_part : List Text → Text
first_part [] = []
first_part (p ∷ ps) = p

abbrev pub second_part : List Text → Text
second_part [] = []
second_part (p ∷ ps) = first_part ps

-- `name.slice(0, 3) as "tcp" | "udp"`.
unfoldable pub carrier_of : Text → Carrier
carrier_of name = if text_eq (take 3 name) (codes "tcp") then tcp else udp

abbrev pub set_carrier : Carrier → Text → Text → ServiceEndpoint → ServiceEndpoint
set_carrier tcp port family e = record e { tcp_port = port; tcp_family = family }
set_carrier udp port family e = record e { udp_port = port; udp_family = family }

-- One round of the loop over the segments.
unfoldable pub read_segment : ServiceEndpoint → Text → Result ServiceEndpoint
read_segment e segment =
    let parts = split b':' segment in
    let name = first_part parts in
    let carrier = carrier_of name in
    if truthy (port_of carrier e)
    then err duplicate_carrier
    else ok (
        set_carrier carrier (canonical_digits (second_part parts))
          (text_or (drop 3 name) (codes "any")) e)

unfoldable pub read_segments : ServiceEndpoint → List Text → Result ServiceEndpoint
read_segments e [] = ok e
read_segments e (segment ∷ more) = do e' ← read_segment e segment; read_segments e' more

abbrev pub no_carriers : Text → ServiceEndpoint
no_carriers host = record {
  host = host;
  tcp_port = [];
  udp_port = [];
  tcp_family = codes "any";
  udp_family = codes "any";
}

-- The branch on `path.length`.
unfoldable pub read_path : Text → Url → List Text → Result ServiceEndpoint
read_path host url [] = ok (record (no_carriers host) { tcp_port = url.port; udp_port = url.port })
read_path host url (segment ∷ more) = do
  reject (truthy url.port) ports_combined
  read_segments (no_carriers host) (segment ∷ more)

module _ (web : Platform) where
  unfoldable pub parse_service_url : Text → Bool → Result (Url × ServiceEndpoint)
  parse_service_url raw allow_wildcard = do
    let normalized = name_empty_host raw
    let path = path_segments normalized
    reject (any (λ s. not (is_segment s)) path) invalid_carrier_path
    url ← or_throw invalid_url (web.new_url normalized)
    e ← read_path (normalize_host web url.hostname) url path
    validate_service_endpoint web e allow_wildcard
    ok (url, e)

  unfoldable pub parse_portal_url : Text → Option (Url × ServiceEndpoint)
  parse_portal_url raw = elim (parse_service_url raw true) [
    | err e ↦ none
    | ok (url, e) ↦
        if text_eq url.protocol (codes "portal:")
        then elim (decode_uri_component url.username) [ none ↦ none | some key ↦ some (url, e) ]
        else none
  ]
