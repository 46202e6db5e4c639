-- ===== src/Portal/Tests/Queries.antt =====
-- The theorems on queries at concrete texts.
use nowhere_dash.Base.{[], ◌∷◌, some, true, Text, codes, ◌≡◌, refl, All}
use nowhere_dash.Portal.Platform.{ok, Url}
use nowhere_dash.Portal.Endpoint.{ServiceEndpoint}
use nowhere_dash.Portal.Parse.{parse_portal_url}
use nowhere_dash.Portal.Query.{Entries, chains_next, portal_query}
use nowhere_dash.Portal.Query.Keys.{IsUnique, is_known, portal_query-keys}
use nowhere_dash.Portal.Tunnel.{comparable_portal_query}
use nowhere_dash.Portal.Tests.{open_all, simple_web, url_of}

abbrev chained_query : Entries
chained_query =
    (codes "next", codes "k@m:443") ∷ (codes "rate", codes "5") ∷ (codes "up", codes "udp") ∷ []

chained_run : portal_query (codes "?up=udp&next=k@m:443&rate=5&rate=6&x=1") ≡ ok chained_query
unfolding open_all
chained_run = refl

portal_query-keys_example :
    IsUnique chained_query
    × All (λ e. is_known (chains_next chained_query) e.0 ≡ true) chained_query
portal_query-keys_example =
    portal_query-keys (codes "?up=udp&next=k@m:443&rate=5&rate=6&x=1") chained_query chained_run

abbrev portal_text : Text
portal_text = codes "portal://k@m.example:443?rate=5"

unfoldable portal_parsed : Url
portal_parsed = url_of (codes "portal") (codes "k") (codes "m.example:443") [] (codes "?rate=5")

abbrev portal_endpoint : ServiceEndpoint
portal_endpoint = record {
  host = codes "m.example";
  tcp_port = codes "443";
  udp_port = codes "443";
  tcp_family = codes "any";
  udp_family = codes "any";
}

abbrev portal_compared : Entries
portal_compared =
    (codes "tls", codes "1")
    ∷ (codes "morph", codes "0")
    ∷ (codes "rate", codes "5")
    ∷ (codes "etar", codes "0")
    ∷ (codes "dial", codes "auto")
    ∷ (codes "socks", codes "none")
    ∷ (codes "next", codes "none")
    ∷ []

portal_facts :
    (parse_portal_url simple_web portal_text ≡ some (portal_parsed, portal_endpoint))
    × (comparable_portal_query simple_web portal_parsed ≡ ok portal_compared)
unfolding open_all portal_parsed
portal_facts = (refl, refl)
