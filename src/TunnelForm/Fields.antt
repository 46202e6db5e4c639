-- ===== src/TunnelForm/Fields.antt =====
-- `PortalForm`, its first values and the handlers of its inputs, in
-- web/src/components/tunnels/simple-create-tunnel-modal.tsx.
use nowhere_dash.Base.{
  ℕ, ◌+◌, ◌-◌, ◌*◌, ◌/◌, ◌%◌, Bool, true, not, ◌&&◌, List, [], ◌∷◌, Option, none, some, ltb, ◌==◌,
  if◌then◌else◌, Text, codes, text_eq, truthy, trim, nat_text,
}
use nowhere_dash.Portal.Platform.{Platform}
use nowhere_dash.Portal.Endpoint.{ServiceEndpoint}

-- `PeerMetadata`.
pub record Peer : Type 0 where
  pub sid : Option Text
  pub kind : Option Text
  pub alias : Option Text

pub record PortalForm : Type 0 where
  pub api_endpoint : Text
  pub tunnel_name : Text
  pub listen_host : Text
  pub tcp_port : Text
  pub udp_port : Text
  pub tcp_family : Text
  pub udp_family : Text
  pub morph : Text
  pub shared_key : Text
  pub network : Text
  pub tls_mode : Text
  pub cert_path : Text
  pub key_path : Text
  pub rate : Text
  pub etar : Text
  pub dial : Text
  pub socks : Text
  pub next : Text
  pub up : Text
  pub down : Text
  pub mux : Text
  pub sni : Text
  pub pin : Text
  pub log_level : Text
  pub restart : Bool
  pub enable_log_store : Bool
  pub tags_text : Text
  pub peer : Option Peer

abbrev pub initial_form : PortalForm
initial_form = record {
  api_endpoint = [];
  tunnel_name = [];
  listen_host = [];
  tcp_port = [];
  udp_port = [];
  tcp_family = codes "any";
  udp_family = codes "any";
  morph = codes "0";
  shared_key = [];
  network = codes "mix";
  tls_mode = codes "1";
  cert_path = [];
  key_path = [];
  rate = [];
  etar = [];
  dial = [];
  socks = [];
  next = [];
  up = [];
  down = [];
  mux = codes "0";
  sni = [];
  pin = [];
  log_level = codes "info";
  restart = true;
  enable_log_store = true;
  tags_text = [];
  peer = none;
}

-- What the form takes from elsewhere: the URL parser, `toLowerCase`, and `Number` of a text, where
-- it is a natural number.
pub record Web : Type 0 where
  pub platform : Platform
  pub to_lower : Text → Text
  pub natural : Text → Option ℕ

-- `randomListenPort` on the random 16-bit number.
unfoldable pub random_listen_port : ℕ → Text
random_listen_port value = nat_text (1024 + value % 64512)

-- The character of six bits in `btoa`, after the replacement of `+` and `/`.
unfoldable pub base64_char : ℕ → ℕ
base64_char n =
    if ltb n 26
    then b'A' + n
    else if ltb n 52
    then b'a' + (n - 26)
    else if ltb n 62
    then b'0' + (n - 52)
    else if n == 62
    then b'-'
    else b'_'

-- `btoa`, without its `=`.
unfoldable pub base64 : List ℕ → Text
unfolding base64_char
base64 [] = []
base64 (a ∷ []) = base64_char (a / 4) ∷ base64_char (a % 4 * 16) ∷ []
base64 (a ∷ b ∷ []) =
    base64_char (a / 4) ∷ base64_char (a % 4 * 16 + b / 16) ∷ base64_char (b % 16 * 4) ∷ []
base64 (a ∷ b ∷ c ∷ rest) =
    base64_char (a / 4)
    ∷ base64_char (a % 4 * 16 + b / 16)
    ∷ base64_char (b % 16 * 4 + c / 64)
    ∷ base64_char (c % 64)
    ∷ base64 rest

-- The form for a new tunnel: the first node, one random port for both carriers, a random key.
unfoldable pub new_form : List Text → ℕ → List ℕ → PortalForm
unfolding random_listen_port base64
new_form nodes value bytes = record initial_form {
  api_endpoint = elim nodes [ [] ↦ [] | id ∷ ids ↦ id ];
  tcp_port = random_listen_port value;
  udp_port = random_listen_port value;
  shared_key = base64 bytes;
}

-- The fields of a loaded tunnel that the form reads; a missing one is `none`.
pub record Loaded : Type 0 where
  pub endpoint_id : Option Text
  pub page_endpoint_id : Option Text
  pub name : Option Text
  pub morph : Option Text
  pub shared_key : Option Text
  pub tls_mode : Option Text
  pub cert_path : Option Text
  pub key_path : Option Text
  pub rate : Option Text
  pub etar : Option Text
  pub dial : Option Text
  pub socks : Option Text
  pub next : Option Text
  pub up : Option Text
  pub down : Option Text
  pub mux : Option Text
  pub sni : Option Text
  pub pin : Option Text
  pub log_level : Option Text
  pub restart : Option Bool
  pub enable_log_store : Option Bool
  pub old_enable_log_store : Option Bool
  pub peer : Option Peer

-- `value ?? fallback`.
abbrev pub or_else {ℓ} : {A : Type ℓ} → Option A → A → A
or_else none fallback = fallback
or_else (some v) fallback = v

module _ (web : Web) where
  -- `value.trim() && value.trim().toLowerCase() !== "none"`.
  unfoldable pub is_configured : Text → Bool
  is_configured value =
      truthy (trim value) && not (text_eq (web.to_lower (trim value)) (codes "none"))

  -- `value && value.toLowerCase() !== "none" ? value : ""`.
  unfoldable pub unless_none : Option Text → Text
  unless_none none = []
  unless_none (some v) = if text_eq (web.to_lower v) (codes "none") then [] else v

  -- The form for a tunnel that is edited, with its listener and the text of its tags.
  unfoldable pub edit_form : Loaded → ServiceEndpoint → Text → PortalForm
  unfolding unless_none
  edit_form t listener tags = record {
    api_endpoint = or_else t.endpoint_id (or_else t.page_endpoint_id []);
    tunnel_name = or_else t.name [];
    listen_host = listener.host;
    tcp_port = listener.tcp_port;
    udp_port = listener.udp_port;
    tcp_family = listener.tcp_family;
    udp_family = listener.udp_family;
    morph = or_else t.morph (codes "0");
    shared_key = or_else t.shared_key [];
    network =
        (if not (truthy listener.tcp_port)
          then codes "udp"
          else if not (truthy listener.udp_port)
          then codes "tcp"
          else codes "mix");
    tls_mode = or_else t.tls_mode (codes "1");
    cert_path = or_else t.cert_path [];
    key_path = or_else t.key_path [];
    rate = or_else t.rate (codes "0");
    etar = or_else t.etar (codes "0");
    dial = or_else t.dial (codes "auto");
    socks = or_else t.socks (codes "none");
    next = unless_none t.next;
    up = or_else t.up [];
    down = or_else t.down [];
    mux = or_else t.mux (codes "0");
    sni = or_else t.sni (codes "none");
    pin = unless_none t.pin;
    log_level = or_else t.log_level (codes "info");
    restart = or_else t.restart true;
    enable_log_store = or_else t.enable_log_store (or_else t.old_enable_log_store true);
    tags_text = tags;
    peer = t.peer;
  }

  -- The inputs for the SOCKS address and the next tunnel empty each other.
  unfoldable pub type_socks : Text → PortalForm → PortalForm
  unfolding is_configured
  type_socks value f = record f {
    socks = value;
    next = (if is_configured value then [] else f.next);
  }

  unfoldable pub type_next : Text → PortalForm → PortalForm
  unfolding is_configured
  type_next value f = record f {
    next = value;
    socks = (if is_configured value then [] else f.socks);
  }

abbrev pub is_udp : Text → Bool
is_udp s = text_eq s (codes "udp")

-- `updateCarrier("up", value)` and `updateCarrier("down", value)`.
abbrev pub reset_mux : PortalForm → PortalForm
reset_mux f = if is_udp f.up && is_udp f.down then record f { mux = codes "0" } else f

unfoldable pub update_up : Text → PortalForm → PortalForm
update_up value f = reset_mux (record f { up = value })

unfoldable pub update_down : Text → PortalForm → PortalForm
update_down value f = reset_mux (record f { down = value })
