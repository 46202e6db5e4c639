-- ===== src/TunnelForm/Valid.antt =====
-- Theorems on the forms that `validate` of simple-create-tunnel-modal.tsx accepts.
use mathlib.Core.Bool.{false≢true}
use nowhere_dash.Base.{
  ℕ, ◌≤◌, Bool, true, false, [], leb, leb→le, codes, text_eq_iff, trim, ◌≡◌, ◌≢◌, ◌↔◌, ◌⊎◌, refl,
  sym, ◌∙◌, arith, and_parts,
}
use nowhere_dash.Portal.Platform.{ok}
use nowhere_dash.Portal.Uri.{byte_length}
use nowhere_dash.Portal.Endpoint.{ServiceEndpoint}
use nowhere_dash.Portal.Endpoint.Valid.{IsValid as IsService, validate_service_endpoint_iff}
use nowhere_dash.Portal.Credentials.{
  parse_next_endpoint, validate_socks_endpoint, validate_portal_sni,
}
use nowhere_dash.TunnelForm.Fields.{PortalForm, Web}
use nowhere_dash.TunnelForm.Check.{passed, listener, validate}
use nowhere_dash.TunnelForm.Filled.{IsFilled, truthy_iff}
use nowhere_dash.TunnelForm.Rules.{
  IsRate, IsConfigured, IsPin, IsCarried, IsListener, is_rate-IsRate, IsRate-is_rate,
  is_configured_iff, is_pin_iff, carrier_available_iff, listener-IsListener, IsListener-unique,
}
use nowhere_dash.TunnelForm.Passed.{Passes, PassesNext, validate-Passes, Passes-validate}

-- The next tunnel can be read, its name for TLS is acceptable, and it has the carriers chosen.
pub record IsChained (web : Web) (f : PortalForm) : Type 0 where
  pub endpoint : ServiceEndpoint
  pub read : parse_next_endpoint web.platform (trim f.next) ≡ ok endpoint
  pub named : validate_portal_sni (trim f.sni) ≡ ok tt
  pub carried : IsCarried endpoint f.up × IsCarried endpoint f.down

-- A form that may be sent.
pub record IsValid (web : Web) (f : PortalForm) : Type 0 where
  pub filled : IsFilled f
  pub listens : (e : ServiceEndpoint) × (IsListener f e × IsService web.platform true e)
  pub keyed : byte_length f.shared_key ≤ 255
  pub certified : f.tls_mode ≡ codes "2" → (trim f.cert_path ≢ []) × (trim f.key_path ≢ [])
  pub limited : IsRate web f.rate × IsRate web f.etar
  pub muxed : (f.mux ≡ codes "0") ⊎ (f.mux ≡ codes "1")
  pub exclusive : ¬ (IsConfigured web f.socks × IsConfigured web f.next)
  pub proxied :
      IsConfigured web f.socks → validate_socks_endpoint web.platform (trim f.socks) false ≡ ok tt
  pub chained : IsConfigured web f.next → IsChained web f
  pub pinned : IsConfigured web f.next → IsConfigured web f.pin → IsPin (trim f.pin)

Passes-IsChained : (web : Web) (f : PortalForm) → PassesNext web f → IsChained web f
Passes-IsChained web f c =
    let (up, down) = and_parts _ _ c.carried in
    record {
      endpoint = c.endpoint;
      read = c.read;
      named = c.named;
      carried = ((carrier_available_iff c.endpoint f.up).0 up, (carrier_available_iff _ _).0 down);
    }

IsChained-Passes : (web : Web) (f : PortalForm) → IsChained web f → PassesNext web f
IsChained-Passes web f c =
    let up = (carrier_available_iff c.endpoint f.up).1 c.carried.0 in
    let down = (carrier_available_iff c.endpoint f.down).1 c.carried.1 in
    record { endpoint = c.endpoint; read = c.read; named = c.named; carried = ground arith }

module _ (web : Web) (f : PortalForm) where
  Passes-IsValid : Passes web f → IsValid web f
  Passes-IsValid p = record {
    filled = p.filled;
    listens = (
      listener f,
      (
        listener-IsListener f,
        (validate_service_endpoint_iff web.platform (listener f) true).0 p.listens,
      ),
    );
    keyed = leb→le _ 255 p.keyed;
    certified = λ e.
        let (cert, key) = p.certified ((text_eq_iff _ _).1 e) in
        ((truthy_iff _).0 cert, (truthy_iff _).0 key);
    limited = (is_rate-IsRate web f.rate p.limited.0, is_rate-IsRate web f.etar p.limited.1);
    muxed = p.muxed;
    exclusive = λ both.
        let next = p.exclusive ((is_configured_iff web f.socks).1 both.0) in
        absurd (false≢true (sym next ∙ (is_configured_iff web f.next).1 both.1));
    proxied = λ c. p.proxied ((is_configured_iff web f.socks).1 c);
    chained = λ c. Passes-IsChained web f (p.chained ((is_configured_iff web f.next).1 c));
    pinned = λ c d.
        (is_pin_iff _).0
          (p.pinned ((is_configured_iff web f.next).1 c) ((is_configured_iff web f.pin).1 d));
  }

  IsValid-Passes : IsValid web f → Passes web f
  IsValid-Passes v = record {
    filled = v.filled;
    listens =
        let (e, (l, service)) = v.listens in
        rw (IsListener-unique f e l)
          ((validate_service_endpoint_iff web.platform e true).1 service);
    keyed = le_leb _ v.keyed;
    certified = λ t.
        let (cert, key) = v.certified ((text_eq_iff _ _).0 t) in
        ((truthy_iff _).1 cert, (truthy_iff _).1 key);
    limited = (IsRate-is_rate web f.rate v.limited.0, IsRate-is_rate web f.etar v.limited.1);
    muxed = v.muxed;
    exclusive =
        λ s. free _ (λ n. v.exclusive ((is_configured_iff _ _).0 s, (is_configured_iff _ _).0 n));
    proxied = λ c. v.proxied ((is_configured_iff web f.socks).0 c);
    chained = λ c. IsChained-Passes web f (v.chained ((is_configured_iff web f.next).0 c));
    pinned = λ c d.
        (is_pin_iff _).1
          (v.pinned ((is_configured_iff web f.next).0 c) ((is_configured_iff web f.pin).0 d));
  }
    where
      le_leb : (n : ℕ) → n ≤ 255 → leb n 255 ≡ true
      le_leb n h = ground arith

      free : (b : Bool) → ¬ (b ≡ true) → b ≡ false
      free true h = absurd (h refl)
      free false h = refl

-- `validate` throws nothing exactly on the valid forms: a node, a name that is not blank, a port for
-- each carrier that is on and a key are given; the listener (every host where none is typed, no port
-- for a carrier that is off) is a valid service; the key has at most 255 bytes; in TLS mode 2 both
-- paths are given; each rate is not given or a number up to 2147483647; mux is 0 or 1; SOCKS and
-- next are not both configured, that is more than white space and not none in any case; a SOCKS address that is
-- configured passes `validateSocksEndpoint`; a next that is configured can be read by
-- `parseNextEndpoint`, its name passes `validatePortalSni`, it has the ports that the carriers
-- chosen need, and a pin configured besides it is 64 lower-case hexadecimal digits.
pub validate_iff : (web : Web) (f : PortalForm) → (validate web f ≡ passed tt) ↔ IsValid web f
validate_iff web f = (
  λ h. Passes-IsValid web f (validate-Passes web f h),
  λ v. Passes-validate web f (IsValid-Passes web f v),
)
