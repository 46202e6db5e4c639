-- ===== src/Portal/Path/Kept.antt =====
-- What `parseServiceUrl` keeps of an endpoint that it reads back.
use nowhere_dash.Base.{true, [], ◌∷◌, Text, codes, text_eq_iff, ◌≡◌, ◌≢◌, refl, arith}
use nowhere_dash.Portal.Platform.{tcp, udp}
use nowhere_dash.Portal.Endpoint.{ServiceEndpoint, is_compact}
use nowhere_dash.Portal.Endpoint.Valid.{IsCarrier}
use nowhere_dash.Portal.Parse.{canonical_digits, no_carriers}
use nowhere_dash.Portal.Path.Segments.{canonical_digits_lem}
use nowhere_dash.Portal.Path.Carriers.{keep_carrier}

-- What reading back keeps of a port, and of the family beside it.
abbrev pub kept_port : Text → Text
kept_port [] = []
kept_port (c ∷ s) = canonical_digits (c ∷ s)

abbrev pub kept_family : Text → Text → Text
kept_family [] family = codes "any"
kept_family (c ∷ s) family = family

-- The endpoint read back under the host `h`: a carrier that is on keeps its family and has its port
-- in canonical digits; the other is empty.
abbrev pub read_back : Text → ServiceEndpoint → ServiceEndpoint
read_back h e = record {
  host = h;
  tcp_port = kept_port e.tcp_port;
  udp_port = kept_port e.udp_port;
  tcp_family = kept_family e.tcp_port e.tcp_family;
  udp_family = kept_family e.udp_port e.udp_family;
}

pub keep-read_back :
    (h : Text) (e : ServiceEndpoint)
    → keep_carrier udp e (keep_carrier tcp e (no_carriers h)) ≡ read_back h e
keep-read_back h e = ground arith

-- The compact form of an endpoint says the same as the two carriers.
pub compact-read_back :
    (h : Text) (e : ServiceEndpoint) (port : Text)
    → is_compact e ≡ true
    → port ≡ canonical_digits e.tcp_port
    → record (no_carriers h) { tcp_port = port; udp_port = port } ≡ read_back h e
compact-read_back h e port c p = ground (
  arith,
  text_eq_iff e.tcp_port e.udp_port,
  text_eq_iff e.tcp_family (codes "any"),
  text_eq_iff e.udp_family (codes "any"),
)

canonical-IsCarrier :
    (host port family : Text)
    → port ≢ []
    → IsCarrier host port family
    → IsCarrier host (canonical_digits port) family
canonical-IsCarrier host port family ne v =
    let (value, digits, given) = canonical_digits_lem port ne v.digits in
    record {
      digits = digits;
      from_one = rw value v.from_one;
      to_max = rw value v.to_max;
      known = v.known;
      not_four = v.not_four;
      not_six = v.not_six;
    }

pub kept-IsCarrier :
    (host port family : Text)
    → (port ≢ [] → IsCarrier host port family)
    → kept_port port ≢ []
    → IsCarrier host (kept_port port) (kept_family port family)
kept-IsCarrier host [] family v on = absurd (on refl)
kept-IsCarrier host (c ∷ s) family v on = canonical-IsCarrier host (c ∷ s) family (cc) (v cc)

pub kept_port-ne-nil :
    (host port family : Text)
    → (port ≢ [] → IsCarrier host port family)
    → port ≢ []
    → kept_port port ≢ []
kept_port-ne-nil host [] family v on = on
kept_port-ne-nil host (c ∷ s) family v on = (canonical_digits_lem (c ∷ s) on (v on).digits).2
