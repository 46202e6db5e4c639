-- ===== src/Portal/Build.antt =====
-- `buildPortalUrl` of web/src/lib/portal-url.ts.
pub mod Chain
pub mod Options
pub mod ReadBack
use nowhere_dash.Base.{
  true, false, not, List, [], ◌∷◌, ◌++◌, Option, none, some, if◌then◌else◌, Text, codes, text_eq,
  truthy,
}
use nowhere_dash.Portal.Platform.{Platform, ok, err}
use nowhere_dash.Portal.Uri.{encode_component}
use nowhere_dash.Portal.Endpoint.{
  ServiceEndpoint, format_service_endpoint, validate_service_endpoint,
}
use nowhere_dash.Portal.Credentials.{parse_next_endpoint, validate_socks_endpoint}
use nowhere_dash.Portal.Query.{Entries, set, delete, next_keys, encode_native_query}
use nowhere_dash.Portal.Tunnel.{Tunnel, nullish, falsy, is_none, carrier_name, both_udp}
use nowhere_dash.Portal.Service.{url_of_either, portal_service_endpoint}

-- `if (tunnel[key] != null && tunnel[key] !== "") query.set(key, String(tunnel[key]))`.
abbrev pub set_given : Text → Option Text → Entries → Entries
set_given key none m = m
set_given key (some []) m = m
set_given key (some (c ∷ s)) m = set key (c ∷ s) m

unfoldable pub given_query : Tunnel → Entries
given_query t =
    let m =
      (codes "tls", falsy t.tls_mode (codes "1"))
      ∷ (codes "morph", falsy t.morph (codes "0"))
      ∷ [] in
    let m =
      set_given (codes "dial") t.dial
        (set_given (codes "etar") t.etar (set_given (codes "rate") t.rate m)) in
    let m = set_given (codes "next") t.next (set_given (codes "socks") t.socks m) in
    let m = set_given (codes "down") t.down (set_given (codes "up") t.up m) in
    set_given (codes "pin") t.pin (set_given (codes "sni") t.sni (set_given (codes "mux") t.mux m))

unfoldable pub delete_all : List Text → Entries → Entries
delete_all [] m = m
delete_all (key ∷ keys) m = delete_all keys (delete key m)

-- `tunnel.next && tunnel.next !== "none" ? tunnel.next : "none"`.
abbrev pub next_of : Tunnel → Text
next_of t = falsy t.next (codes "none")

-- The carriers and `mux` when `next` is given.
unfoldable pub set_carriers : Tunnel → Text → Entries → Entries
set_carriers t carrier m =
    let m' = set (codes "down") (falsy t.down carrier) (set (codes "up") (falsy t.up carrier) m) in
    set (codes "mux") (if both_udp m' then codes "0" else falsy t.mux (codes "0")) m'

unfoldable pub set_certificate : Tunnel → Entries → Entries
set_certificate t m =
    if text_eq (nullish t.tls_mode []) (codes "2")
    then set (codes "key") (nullish t.key_path []) (set (codes "crt") (nullish t.cert_path []) m)
    else m

-- `${scheme}://${encodeComponent(key)}@${endpoint}?${query}`.
abbrev pub assemble : Text → Text → Text → Entries → Text
assemble scheme key endpoint query =
    scheme
    ++ codes "://"
    ++ encode_component key
    ++ codes "@"
    ++ endpoint
    ++ codes "?"
    ++ encode_native_query query

module _ (web : Platform) where
  -- The branch on `next`; `none` is the early return of `""`.
  unfoldable pub next_query : Tunnel → Entries → Option Entries
  next_query t m =
      let next = next_of t in
      let named = set (codes "next") next m in
      if is_none next
      then some (delete_all next_keys named)
      else elim (parse_next_endpoint web next) [
        | err _ ↦ none
        | ok e ↦ some (set_carriers t (carrier_name e) named)
      ]

  unfoldable pub finish_portal_url : Tunnel → Text → ServiceEndpoint → Entries → Text
  finish_portal_url t key e m =
      elim (validate_socks_endpoint web (falsy t.socks (codes "none")) false) [
        | err _ ↦ []
        | ok _ ↦
            assemble (codes "portal") key (format_service_endpoint web e)
              (set (codes "log") (falsy t.log_level (codes "info")) (set_certificate t m))
      ]

  unfoldable pub new_portal_url : Tunnel → Text → ServiceEndpoint → Text
  new_portal_url t key e = elim (validate_service_endpoint web e true) [
    | err _ ↦ []
    | ok _ ↦ elim (next_query t (given_query t)) [
      | none ↦ []
      | some m ↦ finish_portal_url t key e m
    ]
  ]

  unfoldable pub build_portal_url : Tunnel → Text
  build_portal_url t =
      let existing = url_of_either t.command_url t.command_line in
      if truthy existing
      then existing
      else if not (truthy (nullish t.shared_key []))
      then []
      else new_portal_url t (nullish t.shared_key []) (portal_service_endpoint web t)
