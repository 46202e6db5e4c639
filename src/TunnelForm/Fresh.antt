-- ===== src/TunnelForm/Fresh.antt =====
-- Theorems on the form for a new tunnel.
use mathlib.Core.Bool.{false≢true}
use nowhere_dash.Base.{
  ℕ, ◌+◌, ◌*◌, ◌%◌, ◌≤◌, Bool, true, false, ◌&&◌, ◌||◌, List, [], ◌∷◌, ltb, leb, Text, codes,
  text_eq, ends_with, truthy, trim, trim_start, has_char, starts_with, is_member, nat_text, split,
  and_parts, length, ◌≡◌, ◌≢◌, refl, ap, ◌∙◌, sym, arith, inl,
}
use nowhere_dash.Base.Decimals.{digits_value-nat_text, is_digits-nat_text}
use nowhere_dash.Portal.Uri.{byte_length, utf8}
use nowhere_dash.Portal.Platform.{Platform, Carrier, tcp, udp, ok, reject, family_conflict}
use nowhere_dash.Portal.Endpoint.{
  ServiceEndpoint, port_of, family_of, validate_carrier, validate_host, validate_service_endpoint,
  is_dotted_quad, normalize_host,
}
use nowhere_dash.TunnelForm.Fields.{
  PortalForm, Web, new_form, is_configured, random_listen_port, base64, base64_char,
}
use nowhere_dash.TunnelForm.Tags.{text_to_tags, tags_read, read_line}
use nowhere_dash.TunnelForm.Check.{passed, listener, is_filled, is_rate, prepare, payload_of}
use nowhere_dash.TunnelForm.Passed.{Passes, Passes-validate}
use nowhere_dash.TunnelForm.Valid.{IsValid, validate_iff}
use nowhere_dash.TunnelForm.Filled.{is_filled-IsFilled}

base64_char-byte : (n : ℕ) (s : Text) → byte_length (base64_char n ∷ s) ≡ 1 + byte_length s
unfolding byte_length utf8 base64_char
base64_char-byte n s = ground arith

byte_length-nil : byte_length [] ≡ 0
unfolding byte_length
byte_length-nil = refl

base64-byte_length : (bs : List ℕ) → byte_length (base64 bs) * 3 ≤ (length bs + 2) * 4
unfolding base64
base64-byte_length [] = unfold byte_length in omega arith
base64-byte_length (a ∷ []) = simp (base64_char-byte, byte_length-nil) (omega arith)
base64-byte_length (a ∷ b ∷ []) = simp (base64_char-byte, byte_length-nil) (omega arith)
base64-byte_length (a ∷ b ∷ c ∷ rest) =
    simp base64_char-byte (omega (arith, base64-byte_length rest))

base64-truthy : (bs : List ℕ) → bs ≢ [] → truthy (base64 bs) ≡ true
unfolding base64
base64-truthy [] h = absurd (h refl)
base64-truthy (a ∷ []) h = refl
base64-truthy (a ∷ b ∷ []) h = refl
base64-truthy (a ∷ b ∷ c ∷ rest) h = refl

-- A random port is one of those that an ordinary user may listen on.
port_range : (value : ℕ) → (1024 ≤ 1024 + value % 64512) × (1024 + value % 64512 ≤ 65535)
port_range value = (omega arith, omega arith)

port-valid :
    (host : Text) (e : ServiceEndpoint) (c : Carrier) (n : ℕ)
    → port_of c e ≡ nat_text n
    → family_of c e ≡ codes "any"
    → 1 ≤ n
    → n ≤ 65535
    → validate_carrier host e c ≡ ok tt
unfolding validate_carrier is_member text_eq
port-valid host e c n p f low high =
    let (t, a) = and_parts (truthy (nat_text n)) _ (is_digits-nat_text n) in
    rw (p, f, t, a, digits_value-nat_text n, above n low, below n high)
      (no_conflict (has_char b':' host) (is_dotted_quad host))
  where
    above : (k : ℕ) → 1 ≤ k → ltb k 1 ≡ false
    above k l = ground arith

    below : (k : ℕ) → k ≤ 65535 → ltb 65535 k ≡ false
    below k l = ground arith

    no_conflict : (a b : Bool) → reject ((a && false) || (b && false)) family_conflict ≡ ok tt
    no_conflict a b = ground arith

star_host : (p : Platform) → normalize_host p (codes "*") ≡ codes "*"
unfolding normalize_host starts_with ends_with
star_host p = refl

star_allowed : (p : Platform) → validate_host p (codes "*") true ≡ ok tt
unfolding validate_host has_char text_eq
star_allowed p = refl

-- A listener on every host, on one port of any family for both carriers.
star-valid :
    (p : Platform) (n : ℕ)
    → 1 ≤ n
    → n ≤ 65535
    → validate_service_endpoint p
        (record {
          host = codes "*";
          tcp_port = nat_text n;
          udp_port = nat_text n;
          tcp_family = codes "any";
          udp_family = codes "any";
        })
        true
      ≡ ok tt
unfolding validate_service_endpoint
star-valid p n low high =
    let e : ServiceEndpoint = record {
      host = codes "*";
      tcp_port = nat_text n;
      udp_port = nat_text n;
      tcp_family = codes "any";
      udp_family = codes "any";
    } in
    let (t, a) = and_parts (truthy (nat_text n)) _ (is_digits-nat_text n) in
    rw (star_host p, star_allowed p, t, port-valid (codes "*") e tcp n refl refl low high)
      (port-valid (codes "*") e udp n refl refl low high)

-- The form with a name, and nothing else typed.
abbrev pub named_form : Text → Text → List Text → ℕ → List ℕ → PortalForm
named_form name node nodes value bytes = record (new_form (node ∷ nodes) value bytes) {
  tunnel_name = name;
}

module _ (web : Web) (name node : Text) (nodes : List Text) (value : ℕ) (bytes : List ℕ) where
  new_port_text : truthy (nat_text (1024 + value % 64512)) ≡ true
  new_port_text = (and_parts (truthy (nat_text (1024 + value % 64512))) _ (is_digits-nat_text _)).0

  new-filled :
      truthy node ≡ true
      → truthy (trim name) ≡ true
      → bytes ≢ []
      → is_filled (named_form name node nodes value bytes) ≡ true
  unfolding is_filled new_form random_listen_port text_eq
  new-filled n t b = rw (n, t, new_port_text, base64-truthy bytes b) refl

  new-listens :
      validate_service_endpoint web.platform
        (listener (named_form name node nodes value bytes))
        true
      ≡ ok tt
  unfolding listener new_form random_listen_port text_eq trim trim_start
  new-listens = star-valid web.platform (1024 + value % 64512) (omega arith) (omega arith)

  new-keyed : length bytes ≡ 18 → leb (byte_length (base64 bytes)) 255 ≡ true
  new-keyed l = let k = base64-byte_length bytes in ground arith

  unconfigured : is_configured web [] ≡ false
  unfolding is_configured trim trim_start
  unconfigured = refl

  -- Neither the SOCKS address nor the next tunnel is configured.
  not_configured {ℓ} : {P : Type ℓ} → is_configured web [] ≡ true → P
  not_configured h = absurd (false≢true (sym unconfigured ∙ h))

  given_bytes : length bytes ≡ 18 → bytes ≢ []
  given_bytes l e = let k : length bytes ≡ 0 = ap length e in omega arith

  new-Passes :
      truthy node ≡ true
      → truthy (trim name) ≡ true
      → length bytes ≡ 18
      → Passes web (named_form name node nodes value bytes)
  unfolding new_form is_rate text_eq
  new-Passes n t l = record {
    filled =
        is_filled-IsFilled (named_form name node nodes value bytes)
          (new-filled n t (given_bytes l));
    listens = new-listens;
    keyed = new-keyed l;
    certified = λ h. absurd (false≢true h);
    limited = (refl, refl);
    muxed = inl refl;
    exclusive = λ h. unconfigured;
    proxied = λ h. not_configured h;
    chained = λ h. not_configured h;
    pinned = λ h k. not_configured h;
  }

  no_tags : text_to_tags [] ≡ tags_read []
  unfolding text_to_tags split read_line trim trim_start
  no_tags = refl

  -- A form for a new tunnel with a node, 18 random bytes for its key and a name that is not blank
  -- is valid, and `submit` has a body to send, whatever the random numbers are.
  pub new_form-prepare :
      truthy node ≡ true
      → truthy (trim name) ≡ true
      → length bytes ≡ 18
      → IsValid web (named_form name node nodes value bytes)
        × (prepare web (named_form name node nodes value bytes)
            ≡ passed (payload_of web (named_form name node nodes value bytes) []))
  unfolding prepare new_form
  new_form-prepare n t l =
      let f = named_form name node nodes value bytes in
      let passes = Passes-validate web f (new-Passes n t l) in
      ((validate_iff web f).0 passes, rw (passes, no_tags) refl)
