-- ===== src/TunnelForm/Sent.antt =====
-- Theorems on the body that the tunnel form sends.
use mathlib.Core.Option.{some-injective}
use nowhere_dash.Base.{
  ℕ, ◌≤◌, true, false, [], ◌∷◌, Option, none, some, leb→le, if◌then◌else◌, Text, codes, text_eq,
  text_eq_iff, truthy, text_or, trim, ◌≡◌, ◌≢◌, ◌⊎◌, refl, inl, inr, Bool-cases, Option-cases,
}
use nowhere_dash.Base.Trims.{trim-trim}
use nowhere_dash.Portal.Platform.{ok}
use nowhere_dash.Portal.Endpoint.{ServiceEndpoint}
use nowhere_dash.Portal.Endpoint.Valid.{IsValid as IsService, validate_service_endpoint_iff}
use nowhere_dash.Portal.Credentials.{
  parse_next_endpoint, validate_socks_endpoint, validate_portal_sni,
}
use nowhere_dash.Portal.Uri.{byte_length}
use nowhere_dash.TunnelForm.Fields.{PortalForm, Web}
use nowhere_dash.TunnelForm.Tags.{Tags, Read, tags_read, invalid_tag, text_to_tags}
use nowhere_dash.TunnelForm.Check.{
  Checked, passed, thrown, ◌>>=◌, ◌>>◌, Payload, listener, is_rate, validate, payload_of, prepare,
  udp_only_next, of_read, given,
}
use nowhere_dash.TunnelForm.Valid.{IsValid, validate_iff}
use nowhere_dash.TunnelForm.Rules.{IsConfigured, IsPin, IsCarried, unequal_texts}
use nowhere_dash.TunnelForm.Passed.{Passes, validate-Passes}

passed-injective {ℓ} : {A : Type ℓ} (a b : A) → ◌≡◌ {A = Checked A} (passed a) (passed b) → a ≡ b
passed-injective a b h = cc

abbrev pub AtMost : ℕ → Option ℕ → Type 0
AtMost n none = Unit {0}
AtMost n (some k) = k ≤ n

-- Text that is neither the default `none` of the form nor the word in another case.
pub IsNamed : Web → Text → Type 0
IsNamed web s = (s ≢ codes "none") × (web.to_lower s ≢ codes "none")

-- A SOCKS address of the body, and not the word none.
pub IsProxy : Web → Option Text → Text → Type 0
IsProxy web o s = (o ≡ some s) × (web.to_lower s ≢ codes "none")

-- The next tunnel of a body.
pub record IsNext (web : Web) (p : Payload) : Type 0 where
  pub endpoint : ServiceEndpoint
  pub read : parse_next_endpoint web.platform p.next ≡ ok endpoint
  pub carried : IsCarried endpoint p.up × IsCarried endpoint p.down
  pub hidden : (s : Text) → p.sni ≡ some s → validate_portal_sni s ≡ ok tt

-- A body that passes the form's checks.
pub record IsPayload (web : Web) (p : Payload) : Type 0 where
  pub named : (p.name ≢ []) × (trim p.name ≡ p.name)
  pub listens : IsService web.platform true (record {
    host = text_or p.listen_host (codes "*");
    tcp_port = p.tcp_port;
    udp_port = p.udp_port;
    tcp_family = p.tcp_family;
    udp_family = p.udp_family;
  })
  pub keyed : (p.shared_key ≢ []) × (byte_length p.shared_key ≤ 255)
  pub certified : p.tls_mode ≡ codes "2" → (p.cert_path ≢ []) × (p.key_path ≢ [])
  pub uncertified : p.tls_mode ≢ codes "2" → (p.cert_path ≡ []) × (p.key_path ≡ [])
  pub limited : AtMost 2147483647 p.rate × AtMost 2147483647 p.etar
  pub muxed : (p.mux ≡ codes "0") ⊎ (p.mux ≡ codes "1")
  pub split : p.up ≡ codes "udp" → p.down ≡ codes "udp" → p.mux ≡ codes "0"
  pub exclusive : (s : Text) → IsProxy web p.socks s → ¬ IsNamed web p.next
  pub proxied :
      (s : Text) → IsProxy web p.socks s → validate_socks_endpoint web.platform s false ≡ ok tt
  pub chained : IsNamed web p.next → IsNext web p
  pub pinned : IsNamed web p.next → IsNamed web p.pin → IsPin p.pin

rate_bound :
    (web : Web) (s : Text)
    → is_rate web s ≡ true
    → AtMost 2147483647 (if truthy s then web.natural s else none)
unfolding is_rate
rate_bound web [] h = tt
rate_bound web (c ∷ s) h = elim (Option-cases (web.natural (c ∷ s))) [
  | inl e ↦ rw e tt
  | inr (n, e) ↦ rw e (leb→le n 2147483647 (rw e at h))
]

mux_kept :
    (web : Web) (f : PortalForm)
    → Passes web f
    → ((if udp_only_next web f then codes "0" else f.mux) ≡ codes "0")
      ⊎ ((if udp_only_next web f then codes "0" else f.mux) ≡ codes "1")
mux_kept web f v = elim (Bool-cases (udp_only_next web f)) [
  | inl u ↦ rw u (inl refl)
  | inr u ↦ rw u v.muxed
]

mux_split :
    (web : Web) (f : PortalForm)
    → f.up ≡ codes "udp"
    → f.down ≡ codes "udp"
    → (if udp_only_next web f then codes "0" else f.mux) ≡ codes "0"
unfolding udp_only_next text_eq
mux_split web f u d = rw (u, d)

given_is : (s t : Text) → given s ≡ some t → (s ≡ t) × (s ≢ [])
given_is [] t h = cc
given_is (c ∷ s) t h = (some-injective (c ∷ s) t h, λ e. cc)

-- A SOCKS address that is sent was configured in the form.
proxy_typed :
    (web : Web) (typed s : Text)
    → IsProxy web (given (trim typed)) s
    → IsConfigured web typed × (trim typed ≡ s)
unfolding IsProxy IsConfigured
proxy_typed web typed s (sent, other) =
    let (same, full) = given_is (trim typed) s sent in ((full, rw same other), same)

or_none :
    (s : Text) → text_or s (codes "none") ≢ codes "none" → (text_or s (codes "none") ≡ s) × (s ≢ [])
or_none [] h = absurd (h refl)
or_none (c ∷ s) h = (refl, λ e. cc)

-- A next tunnel or a pin that is sent and not none was configured in the form.
name_typed :
    (web : Web) (typed : Text)
    → IsNamed web (text_or (trim typed) (codes "none"))
    → IsConfigured web typed × (text_or (trim typed) (codes "none") ≡ trim typed)
unfolding IsNamed IsConfigured
name_typed web typed (set, other) =
    let (same, full) = or_none (trim typed) set in ((full, rw same at other), same)

module _ (web : Web) (f : PortalForm) (tags : Tags) (v : IsValid web f) where
  sent_exclusive :
      (s : Text)
      → IsProxy web (payload_of web f tags).socks s
      → ¬ IsNamed web (payload_of web f tags).next
  unfolding payload_of
  sent_exclusive s a b = v.exclusive ((proxy_typed web f.socks s a).0, (name_typed web f.next b).0)

  sent_proxied :
      (s : Text)
      → IsProxy web (payload_of web f tags).socks s
      → validate_socks_endpoint web.platform s false ≡ ok tt
  unfolding payload_of
  sent_proxied s a = let (set, same) = proxy_typed web f.socks s a in rw (← same) (v.proxied set)

  sent_chained : IsNamed web (payload_of web f tags).next → IsNext web (payload_of web f tags)
  unfolding payload_of
  sent_chained b =
      let (set, same) = name_typed web f.next b in
      let c = v.chained set in
      record {
        endpoint = c.endpoint;
        read = rw same c.read;
        carried = c.carried;
        hidden = λ s h. rw (← (given_is (trim f.sni) s h).0) c.named;
      }

  sent_pinned :
      IsNamed web (payload_of web f tags).next
      → IsNamed web (payload_of web f tags).pin
      → IsPin (payload_of web f tags).pin
  unfolding payload_of
  sent_pinned b c =
      let (set, same) = name_typed web f.pin c in rw same (v.pinned (name_typed web f.next b).0 set)

payload_of-IsPayload :
    (web : Web) (f : PortalForm) (tags : Tags)
    → Passes web f
    → IsValid web f
    → IsPayload web (payload_of web f tags)
unfolding payload_of
payload_of-IsPayload web f tags v w =
    let name = v.filled.named in
    let key = v.filled.secret in
    record {
      named = (name, trim-trim f.tunnel_name);
      listens =
          unfold listener in
          (validate_service_endpoint_iff web.platform (listener f) true).0 v.listens;
      keyed = (key, leb→le _ 255 v.keyed);
      certified = λ t. rw ((text_eq_iff _ _).1 t) (w.certified t);
      uncertified = λ t. rw (unequal_texts f.tls_mode (codes "2") t) (refl, refl);
      limited = (rate_bound web f.rate v.limited.0, rate_bound web f.etar v.limited.1);
      muxed = mux_kept web f v;
      split = λ u d. mux_split web f u d;
      exclusive = sent_exclusive web f tags w;
      proxied = sent_proxied web f tags w;
      chained = sent_chained web f tags w;
      pinned = sent_pinned web f tags w;
    }

-- Both steps before the request succeed.
both_passed :
    (web : Web) (f : PortalForm) (c : Checked (Unit {0})) (r : Read) (p : Payload)
    → (c >> (of_read web r >>= λ tags. passed (payload_of web f tags))) ≡ passed p
    → (c ≡ passed tt) × ((tags : Tags) × (r ≡ tags_read tags) × (payload_of web f tags ≡ p))
both_passed web f (thrown x) r p h = cc
both_passed web f (passed tt) (invalid_tag line) p h = cc
both_passed web f (passed tt) (tags_read tags) p h = (refl, (tags, refl, passed-injective _ p h))

-- Whatever `submit` sends passes the checks of the form, and has the tags that its text spells.
pub prepare-IsPayload :
    (web : Web) (f : PortalForm) (p : Payload)
    → prepare web f ≡ passed p
    → IsPayload web p × (text_to_tags f.tags_text ≡ tags_read p.tags)
unfolding prepare
prepare-IsPayload web f p h =
    let (valid, (tags, read, sent)) =
      both_passed web f (validate web f) (text_to_tags f.tags_text) p h in
    let body =
      payload_of-IsPayload web f tags (validate-Passes web f valid)
        ((validate_iff web f).0 valid) in
    rw (← sent) (body, unfold payload_of in read)
