-- ===== src/Portal/Tests.antt =====
-- Runs of portal-url.ts with a small URL parser in the place of the browser's, and its theorems at
-- them.
mod Endpoints
mod Queries
mod Builds
mod Urls
use nowhere_dash.Base.{
  ℕ, List, [], ◌∷◌, ◌++◌, Option, none, some, if◌then◌else◌, ◌==◌, drop, Text, codes, truthy,
  starts_with,
}
use nowhere_dash.Portal.Platform.{Platform, Url}
use nowhere_dash.Portal.Parse.{canonical_digits}
use nowhere_dash.Portal.Tunnel.{Tunnel, EndpointLike}

-- The text in front of the first `c`, and from it on.
abbrev pub before : ℕ → Text → Text
before c [] = []
before c (d ∷ s) = if d == c then [] else d ∷ before c s

abbrev pub from : ℕ → Text → Text
from c [] = []
from c (d ∷ s) = if d == c then d ∷ s else from c s

-- A URL with no IPv6 host, no query parameter and no fragment read.
unfoldable pub url_of : (scheme user host path search : Text) → Url
url_of scheme user host path search = record {
  protocol = scheme ++ codes ":";
  username = user;
  password = [];
  hostname = before b':' host;
  port = if truthy (from b':' host) then canonical_digits (drop 1 (from b':' host)) else [];
  pathname = path;
  search = search;
  hash = [];
  search_params_get = λ key. none;
}

unfoldable pub simple_new_url : Text → Option Url
unfolding starts_with url_of
simple_new_url raw =
    let rest = from b':' raw in
    let body = before b'?' (drop 3 rest) in
    let auth = before b'/' body in
    if starts_with rest (codes "://")
    then some (
        if truthy (from b'@' auth)
        then url_of (before b':' raw) (before b'@' auth) (drop 1 (from b'@' auth)) (from b'/' body)
            (from b'?' raw)
        else url_of (before b':' raw) [] auth (from b'/' body) (from b'?' raw))
    else none

abbrev pub simple_web : Platform
simple_web = record { new_url = simple_new_url; number_text = λ s. s }

-- A tunnel with no field set.
abbrev pub no_tunnel : Tunnel
no_tunnel = record {
  command_url = none;
  config_url = none;
  command_line = none;
  config_line = none;
  listen_host = none;
  listen_port = none;
  tcp_port = none;
  udp_port = none;
  tcp_family = none;
  udp_family = none;
  morph = none;
  shared_key = none;
  network = none;
  tls_mode = none;
  cert_path = none;
  key_path = none;
  rate = none;
  etar = none;
  dial = none;
  socks = none;
  next = none;
  up = none;
  down = none;
  mux = none;
  sni = none;
  pin = none;
  log_level = none;
  endpoint = none;
}

-- A tunnel of the runtime, with a key that needs encoding and ports of its own for each carrier.
abbrev pub two_ports : Tunnel
two_ports = record no_tunnel {
  shared_key = some (codes "k@1");
  tcp_port = some (codes "443");
  udp_port = some (codes "0053");
  udp_family = some (codes "4");
  endpoint = some (record { hostname = some (codes "m.example"); url = none });
}

-- Naming this constant on an `unfolding` line opens what the runs of the tests call.
unfoldable pub open_all : Unit {0}
unfolding nowhere_dash.Base.text_eq nowhere_dash.Base.has_char nowhere_dash.Base.starts_with
    nowhere_dash.Base.ends_with nowhere_dash.Base.includes nowhere_dash.Base.is_member
    nowhere_dash.Base.trim_start nowhere_dash.Base.trim nowhere_dash.Base.split
    nowhere_dash.Base.join nowhere_dash.Base.digits_value nowhere_dash.Portal.Uri.utf8
    nowhere_dash.Portal.Uri.byte_length nowhere_dash.Portal.Uri.percent
    nowhere_dash.Portal.Uri.percents nowhere_dash.Portal.Uri.encode_unit
    nowhere_dash.Portal.Uri.encode_uri_component nowhere_dash.Portal.Uri.escape_mark
    nowhere_dash.Portal.Uri.encode_component nowhere_dash.Portal.Uri.hex_value
    nowhere_dash.Portal.Uri.take_byte nowhere_dash.Portal.Uri.decode_from
    nowhere_dash.Portal.Uri.decode_uri_component nowhere_dash.Portal.Endpoint.carrier_path
    nowhere_dash.Portal.Endpoint.is_dotted_quad nowhere_dash.Portal.Endpoint.validate_carrier
    nowhere_dash.Portal.Endpoint.normalize_host nowhere_dash.Portal.Endpoint.format_host
    nowhere_dash.Portal.Endpoint.format_service_endpoint nowhere_dash.Portal.Endpoint.validate_host
    nowhere_dash.Portal.Endpoint.validate_service_endpoint nowhere_dash.Portal.Parse.starts_with_i
    nowhere_dash.Portal.Parse.star_after_at nowhere_dash.Portal.Parse.name_empty_host
    nowhere_dash.Portal.Parse.before_query nowhere_dash.Portal.Parse.before_scheme_end
    nowhere_dash.Portal.Parse.after_scheme nowhere_dash.Portal.Parse.path_segments
    nowhere_dash.Portal.Parse.is_segment nowhere_dash.Portal.Parse.canonical_digits
    nowhere_dash.Portal.Parse.carrier_of nowhere_dash.Portal.Parse.read_segment
    nowhere_dash.Portal.Parse.read_segments nowhere_dash.Portal.Parse.read_path
    nowhere_dash.Portal.Parse.parse_service_url nowhere_dash.Portal.Parse.parse_portal_url
    nowhere_dash.Portal.Credentials.validate_credential
    nowhere_dash.Portal.Credentials.validate_credentials
    nowhere_dash.Portal.Credentials.socks_address
    nowhere_dash.Portal.Credentials.validate_socks_endpoint nowhere_dash.Portal.Query.get
    nowhere_dash.Portal.Query.set nowhere_dash.Portal.Query.delete
    nowhere_dash.Portal.Query.before_equals nowhere_dash.Portal.Query.after_equals
    nowhere_dash.Portal.Query.read_value nowhere_dash.Portal.Query.read_pair
    nowhere_dash.Portal.Query.read_pairs nowhere_dash.Portal.Query.portal_query
    nowhere_dash.Portal.Query.encode_entry nowhere_dash.Portal.Query.encode_native_query
    nowhere_dash.Portal.Tunnel.url_run nowhere_dash.Portal.Tunnel.find_portal_url
    nowhere_dash.Portal.Tunnel.portal_url_from_command nowhere_dash.Portal.Service.legacy_port
    nowhere_dash.Portal.Service.portal_url_from_tunnel
    nowhere_dash.Portal.Service.portal_service_endpoint nowhere_dash.Portal.Vector.vector_key
    nowhere_dash.Portal.Vector.source_query nowhere_dash.Portal.Vector.source_value
    nowhere_dash.Portal.Vector.vector_log nowhere_dash.Portal.Vector.vector_query
    nowhere_dash.Portal.Vector.url_hostname nowhere_dash.Portal.Vector.endpoint_hostname
    nowhere_dash.Portal.Vector.concrete_service nowhere_dash.Portal.Vector.finish_vector_url
    nowhere_dash.Portal.Vector.derive_vector_url url_of simple_new_url
    nowhere_dash.Portal.Tunnel.compare_socks nowhere_dash.Portal.Tunnel.compare_next
    nowhere_dash.Portal.Tunnel.compare_numbers nowhere_dash.Portal.Tunnel.comparable_portal_query
    nowhere_dash.Portal.Credentials.parse_next_endpoint nowhere_dash.Portal.Build.set_certificate
    nowhere_dash.Portal.Build.next_query nowhere_dash.Portal.Build.finish_portal_url
    nowhere_dash.Portal.Build.new_portal_url nowhere_dash.Portal.Build.build_portal_url
    nowhere_dash.Portal.Build.given_query nowhere_dash.Portal.Build.delete_all
    nowhere_dash.Portal.Build.set_carriers
open_all = tt
