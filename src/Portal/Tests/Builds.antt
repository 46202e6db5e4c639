-- ===== src/Portal/Tests/Builds.antt =====
-- The theorem on new portal URLs at a concrete tunnel.
use nowhere_dash.Base.{if◌then◌else◌, some, [], ◌++◌, some, codes, ◌≡◌, ◌≢◌, refl, arith}
use nowhere_dash.Portal.Tunnel.{Tunnel}
use nowhere_dash.Portal.Service.{url_of_either, portal_service_endpoint}
use nowhere_dash.Portal.Build.{build_portal_url}
use nowhere_dash.Portal.Platform.{Url}
use nowhere_dash.Portal.Uri.{encode_component}
use nowhere_dash.Portal.Endpoint.{ServiceEndpoint, normalize_host, is_compact}
use nowhere_dash.Portal.Parse.{parse_portal_url, canonical_digits}
use nowhere_dash.Portal.Path.Kept.{read_back}
use nowhere_dash.Portal.Build.ReadBack.{build_portal_url-parse}
use nowhere_dash.Portal.Build.Options.{IsBuilt, build_portal_url-IsBuilt}
use nowhere_dash.Portal.Tests.{open_all, simple_new_url, url_of, simple_web, two_ports}

-- A tunnel that goes on to a second portal over UDP.
abbrev chained_tunnel : Tunnel
chained_tunnel = record two_ports {
  next = some (codes "n@b.example/udp:7000");
  mux = some (codes "4");
}

built_run :
    (url_of_either chained_tunnel.command_url chained_tunnel.command_line ≡ [])
    × (build_portal_url simple_web chained_tunnel
        ≡ codes "portal://k%401@*/tcp:443/udp4:0053?"
          ++ codes "tls=1&morph=0&next=n@b.example/udp:7000&mux=0&up=udp&down=udp&log=info")
unfolding open_all
built_run = (refl, refl)

built_given : build_portal_url simple_web chained_tunnel ≢ []
built_given = rw built_run.1 (ground arith)

build_portal_url-IsBuilt_example :
    IsBuilt simple_web chained_tunnel (build_portal_url simple_web chained_tunnel)
build_portal_url-IsBuilt_example =
    build_portal_url-IsBuilt simple_web chained_tunnel built_run.0 built_given

unfoldable built_url : Url
built_url =
    url_of (codes "portal") (codes "k%401") (codes "*") (codes "/tcp:443/udp4:0053")
      (codes "?tls=1&morph=0&next=n@b.example/udp:7000&mux=0&up=udp&down=udp&log=info")

abbrev built_service : ServiceEndpoint
built_service = portal_service_endpoint simple_web chained_tunnel

built_facts :
    (simple_new_url (build_portal_url simple_web chained_tunnel) ≡ some built_url)
    × (built_url.protocol ≡ codes "portal:")
    × (built_url.username ≡ encode_component (codes "k@1"))
    × (normalize_host simple_web (normalize_host simple_web built_url.hostname)
        ≡ normalize_host simple_web built_service.host)
    × (built_url.port
        ≡ (if is_compact built_service then canonical_digits built_service.tcp_port else []))
unfolding open_all built_url
built_facts = (refl, refl, refl, refl, refl)

build_portal_url-parse_example :
    parse_portal_url simple_web (build_portal_url simple_web chained_tunnel)
    ≡ some (built_url, read_back (normalize_host simple_web built_url.hostname) built_service)
build_portal_url-parse_example =
    build_portal_url-parse simple_web chained_tunnel built_url built_run.0 built_given built_facts.0
      built_facts.1 built_facts.2 built_facts.3 built_facts.4 (refl, (refl, (refl, tt)))
