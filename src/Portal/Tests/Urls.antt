-- ===== src/Portal/Tests/Urls.antt =====
-- The theorems on whole URLs at a concrete tunnel.
use nowhere_dash.Base.{
  [], ◌++◌, some, none, true, false, Text, codes, ◌≡◌, refl, All, if◌then◌else◌,
}
use nowhere_dash.Portal.Platform.{ok, Url}
use nowhere_dash.Portal.Endpoint.{ServiceEndpoint, normalize_host, is_compact}
use nowhere_dash.Portal.Parse.{parse_service_url, canonical_digits}
use nowhere_dash.Portal.Vector.{derive_vector_url, concrete_service}
use nowhere_dash.Portal.Vector.Export.{key, derive_vector_url-parse}
use nowhere_dash.Portal.Path.Kept.{read_back}
use nowhere_dash.Portal.Path.RoundTrip.{shown_host}
use nowhere_dash.Portal.Uri.{is_scalar}
use nowhere_dash.Portal.Tests.{open_all, simple_web, simple_new_url, two_ports, url_of}

abbrev exported : Text
exported =
    codes "vector://k%401@m.example/tcp:443/udp4:0053?"
    ++ codes "up=tcp&down=tcp&mux=0&sni=none&pin=none&morph=0&rate=0&etar=0"
    ++ codes "&socks=127.0.0.1:1080&log=info"

unfoldable exported_url : Url
exported_url =
    url_of (codes "vector") (codes "k%401") (codes "m.example") (codes "/tcp:443/udp4:0053") (
      codes
        "?up=tcp&down=tcp&mux=0&sni=none&pin=none&morph=0&rate=0&etar=0&socks=127.0.0.1:1080&log=info")

abbrev socks_text : Text
socks_text = codes "127.0.0.1:1080"

abbrev exported_service : ServiceEndpoint
exported_service = concrete_service simple_web two_ports none

-- What the export is, and what the URL parser makes of it.
exported_facts :
    (derive_vector_url simple_web two_ports none socks_text ≡ some exported)
    × (simple_new_url exported ≡ some exported_url)
    × (normalize_host simple_web (normalize_host simple_web exported_url.hostname)
        ≡ normalize_host simple_web exported_service.host)
    × (exported_url.port
        ≡ (if is_compact exported_service then canonical_digits exported_service.tcp_port else []))
    × (key simple_web two_ports none socks_text ≡ codes "k@1")
    × (shown_host simple_web exported_service ≡ codes "m.example")
unfolding open_all exported_url
exported_facts = (refl, refl, refl, refl, refl, refl)

key_scalars : All (λ c. is_scalar c ≡ true) (key simple_web two_ports none socks_text)
key_scalars = rw exported_facts.4 (refl, (refl, (refl, tt)))

derive_vector_url-parse_example :
    parse_service_url simple_web exported false
    ≡ ok
        (exported_url, read_back (normalize_host simple_web exported_url.hostname) exported_service)
derive_vector_url-parse_example =
    derive_vector_url-parse simple_web two_ports none socks_text exported exported_url
      exported_facts.0 exported_facts.1 exported_facts.2 exported_facts.3 key_scalars
