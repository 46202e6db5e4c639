-- ===== src/TunnelForm/Check.antt =====
-- What the form checks and sends: `validate` and `submit` of
-- web/src/components/tunnels/simple-create-tunnel-modal.tsx.
use nowhere_dash.Base.{
  ℕ, Bool, true, false, not, ◌&&◌, ◌||◌, [], ◌∷◌, Option, none, some, leb, ◌==◌, if◌then◌else◌,
  Text, codes, text_eq, truthy, text_or, is_digit, trim, all, length,
}
use nowhere_dash.Portal.Platform.{Error, Result, ok, err, to_option}
use nowhere_dash.Portal.Uri.{byte_length}
use nowhere_dash.Portal.Endpoint.{ServiceEndpoint, validate_service_endpoint}
use nowhere_dash.Portal.Credentials.{
  parse_next_endpoint, validate_socks_endpoint, validate_portal_sni,
}
use nowhere_dash.TunnelForm.Fields.{Peer, PortalForm, Web, is_configured, is_udp}
use nowhere_dash.TunnelForm.Tags.{Tags, Read, tags_read, invalid_tag, text_to_tags}

-- What `validate` and `textToTags` throw; `service` is an error of portal-url.ts.
pub data Problem : Type 0 where
  required invalid : Problem
  service : Error → Problem
  bad_tag : Text → Problem

pub data Checked {ℓ} (A : Type ℓ) : Type ℓ where
  passed : A → Checked A
  thrown : Problem → Checked A

module _ {ℓ κ} {A : Type ℓ} {B : Type κ} where
  infixl 5 ◌>>=◌
  abbrev pub ◌>>=◌ : Checked A → (A → Checked B) → Checked B
  thrown p >>= rest = thrown p
  passed a >>= rest = rest a

infixl 5 ◌>>◌
abbrev pub ◌>>◌ {ℓ} : {B : Type ℓ} → Checked (Unit {0}) → Checked B → Checked B
check >> rest = check >>= λ nothing. rest

-- `if (!test) throw …`.
abbrev pub require : Bool → Problem → Checked (Unit {0})
require true p = passed tt
require false p = thrown p

abbrev pub of_result {ℓ} : {A : Type ℓ} → Result A → Checked A
of_result (ok a) = passed a
of_result (err e) = thrown (service e)

-- `if (test) …`.
abbrev pub when : Bool → Checked (Unit {0}) → Checked (Unit {0})
when true check = check
when false check = passed tt

-- `/^[a-f0-9]{64}$/`.
abbrev pub is_pin : Text → Bool
is_pin s = length s == 64 && all (λ c. is_digit c || (leb b'a' c && leb c b'f')) s

-- The listener as it is checked and sent: no port for a carrier that is off.
unfoldable pub listener : PortalForm → ServiceEndpoint
listener f = record {
  host = text_or (trim f.listen_host) (codes "*");
  tcp_port = (if is_udp f.network then [] else f.tcp_port);
  udp_port = (if text_eq f.network (codes "tcp") then [] else f.udp_port);
  tcp_family = f.tcp_family;
  udp_family = f.udp_family;
}

-- The first test of `validate`.
unfoldable pub is_filled : PortalForm → Bool
is_filled f =
    truthy f.api_endpoint
    && truthy (trim f.tunnel_name)
    && (is_udp f.network || truthy f.tcp_port)
    && (text_eq f.network (codes "tcp") || truthy f.udp_port)
    && truthy f.shared_key

-- One round of the loop over `up` and `down`.
unfoldable pub carrier_available : ServiceEndpoint → Text → Bool
carrier_available e carrier =
    not (truthy carrier)
    || ((is_udp carrier || truthy e.tcp_port)
        && (text_eq carrier (codes "tcp") || truthy e.udp_port))

module _ (web : Web) where
  -- `Number(s || 0)` is an integer from 0 to 2147483647.
  unfoldable pub is_rate : Text → Bool
  is_rate s = elim (if truthy s then web.natural s else some 0) [
    | none ↦ false
    | some n ↦ leb n 2147483647
  ]

  unfoldable pub check_next : PortalForm → Checked (Unit {0})
  unfolding carrier_available
  check_next f = do
    e ← of_result (parse_next_endpoint web.platform (trim f.next))
    of_result (validate_portal_sni (trim f.sni))
    require (carrier_available e f.up && carrier_available e f.down) invalid

  unfoldable pub validate : PortalForm → Checked (Unit {0})
  unfolding is_filled listener is_rate is_configured check_next
  validate f = do
    require (is_filled f) required
    of_result (validate_service_endpoint web.platform (listener f) true)
    require (leb (byte_length f.shared_key) 255) invalid
    require
        (not (text_eq f.tls_mode (codes "2"))
          || (truthy (trim f.cert_path) && truthy (trim f.key_path)))
        invalid
    require (is_rate f.rate && is_rate f.etar) invalid
    require (text_eq f.mux (codes "0") || text_eq f.mux (codes "1")) invalid
    require (not (is_configured web f.socks && is_configured web f.next)) invalid
    when (is_configured web f.socks)
        (of_result (validate_socks_endpoint web.platform (trim f.socks) false))
    when (is_configured web f.next) (check_next f)
    require (not (is_configured web f.next) || not (is_configured web f.pin) || is_pin (trim f.pin))
        invalid

  -- The next tunnel's endpoint, where it can be read.
  unfoldable pub next_endpoint : PortalForm → Option ServiceEndpoint
  unfolding is_configured
  next_endpoint f =
      if is_configured web f.next
      then to_option (parse_next_endpoint web.platform (trim f.next))
      else none

  unfoldable pub default_carrier : PortalForm → Text
  unfolding next_endpoint
  default_carrier f = elim (next_endpoint f) [
    | none ↦ codes "tcp"
    | some e ↦ if truthy e.tcp_port then codes "tcp" else codes "udp"
  ]

  unfoldable pub udp_only_next : PortalForm → Bool
  unfolding default_carrier
  udp_only_next f =
      is_udp (text_or f.up (default_carrier f)) && is_udp (text_or f.down (default_carrier f))

-- The body of the request; what is `undefined` is left out of it.
pub record Payload : Type 0 where
  pub endpoint_id : Option ℕ
  pub name : Text
  pub listen_host : Text
  pub tcp_port : Text
  pub udp_port : Text
  pub tcp_family : Text
  pub udp_family : Text
  pub morph : Text
  pub shared_key : Text
  pub tls_mode : Text
  pub cert_path : Text
  pub key_path : Text
  pub rate : Option ℕ
  pub etar : Option ℕ
  pub dial : Option Text
  pub socks : Option Text
  pub next : Text
  pub up : Text
  pub down : Text
  pub mux : Text
  pub sni : Option Text
  pub pin : Text
  pub log_level : Text
  pub restart : Bool
  pub enable_log_store : Bool
  pub tags : Tags
  pub peer : Option Peer

-- `s || undefined`.
abbrev pub given : Text → Option Text
given [] = none
given (c ∷ s) = some (c ∷ s)

module _ (web : Web) where
  unfoldable pub payload_of : PortalForm → Tags → Payload
  unfolding listener udp_only_next
  payload_of f tags = record {
    endpoint_id = web.natural f.api_endpoint;
    name = trim f.tunnel_name;
    listen_host = trim f.listen_host;
    tcp_port = (listener f).tcp_port;
    udp_port = (listener f).udp_port;
    tcp_family = f.tcp_family;
    udp_family = f.udp_family;
    morph = f.morph;
    shared_key = f.shared_key;
    tls_mode = f.tls_mode;
    cert_path = (if text_eq f.tls_mode (codes "2") then trim f.cert_path else []);
    key_path = (if text_eq f.tls_mode (codes "2") then trim f.key_path else []);
    rate = (if truthy f.rate then web.natural f.rate else none);
    etar = (if truthy f.etar then web.natural f.etar else none);
    dial = given (trim f.dial);
    socks = given (trim f.socks);
    next = text_or (trim f.next) (codes "none");
    up = f.up;
    down = f.down;
    mux = (if udp_only_next web f then codes "0" else f.mux);
    sni = given (trim f.sni);
    pin = text_or (trim f.pin) (codes "none");
    log_level = f.log_level;
    restart = f.restart;
    enable_log_store = f.enable_log_store;
    tags = tags;
    peer = f.peer;
  }

  abbrev pub of_read : Read → Checked Tags
  of_read (tags_read tags) = passed tags
  of_read (invalid_tag line) = thrown (bad_tag line)

  -- `submit` up to its request: the body, or what is shown as an error.
  unfoldable pub prepare : PortalForm → Checked Payload
  unfolding payload_of validate
  prepare f = do
    validate web f
    tags ← of_read (text_to_tags f.tags_text)
    passed (payload_of f tags)
