-- ===== src/Portal/Tests/Endpoints.antt =====
-- The theorems on components and endpoints at concrete texts.
use nowhere_dash.Base.{[], some, true, codes, ◌≡◌, ◌↔◌, refl}
use nowhere_dash.Portal.Platform.{ok}
use nowhere_dash.Portal.Uri.{encode_component, decode_uri_component}
use nowhere_dash.Portal.Uri.RoundTrip.{decode-encode_component}
use nowhere_dash.Portal.Endpoint.{ServiceEndpoint, validate_service_endpoint}
use nowhere_dash.Portal.Endpoint.Valid.{IsValid, validate_service_endpoint_iff}
use nowhere_dash.Portal.Tests.{simple_web}

decode-encode_component_example :
    decode_uri_component (encode_component (codes "k@1 键")) ≡ some (codes "k@1 键")
decode-encode_component_example =
    decode-encode_component (codes "k@1 键") (refl, (refl, (refl, (refl, (refl, tt)))))

abbrev plain_endpoint : ServiceEndpoint
plain_endpoint = record {
  host = codes "m.example";
  tcp_port = codes "443";
  udp_port = [];
  tcp_family = codes "any";
  udp_family = codes "any";
}

validate_service_endpoint_iff_example :
    (validate_service_endpoint simple_web plain_endpoint true ≡ ok tt)
    ↔ IsValid simple_web true plain_endpoint
validate_service_endpoint_iff_example = validate_service_endpoint_iff simple_web plain_endpoint true
