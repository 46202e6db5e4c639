-- ===== src/TunnelForm/Rules.antt =====
-- The parts of a form that `validate` of simple-create-tunnel-modal.tsx tests, described apart.
use nowhere_dash.Base.{
  ℕ, ◌≤◌, true, false, ◌&&◌, ◌||◌, [], ◌∷◌, some, leb, leb→le, Text, codes, text_eq, text_eq_iff,
  text_or, is_digit, trim, all, All, length, ◌==◌, if◌then◌else◌, ◌≡◌, ◌≢◌, ◌↔◌, ◌⊎◌, refl, sym,
  arith, inl, inr, Bool-cases, Option-cases, and_parts,
}
use nowhere_dash.Portal.Endpoint.{ServiceEndpoint}
use nowhere_dash.TunnelForm.Fields.{PortalForm, Web, is_configured}
use nowhere_dash.TunnelForm.Filled.{truthy_iff}
use nowhere_dash.TunnelForm.Check.{is_pin, listener, carrier_available, is_rate}

-- A rate that is not given, or a number up to 2147483647.
pub IsRate : Web → Text → Type 0
IsRate web s = (s ≡ []) ⊎ ((n : ℕ) × (web.natural s ≡ some n) × (n ≤ 2147483647))

-- More than white space, and not the word none in any case.
unfoldable pub IsConfigured : Web → Text → Type 0
IsConfigured web s = (trim s ≢ []) × (web.to_lower (trim s) ≢ codes "none")

-- 64 lower-case hexadecimal digits.
pub IsPin : Text → Type 0
IsPin s = (length s ≡ 64) × All (λ c. ((b'0' ≤ c) × (c ≤ b'9')) ⊎ ((b'a' ≤ c) × (c ≤ b'f'))) s

-- A carrier that is not chosen, or the ports that it needs: all but `udp` need one for TCP, and all
-- but `tcp` need one for UDP.
pub IsCarried : ServiceEndpoint → Text → Type 0
IsCarried e c =
    (c ≡ []) ⊎ (((c ≡ codes "udp") ⊎ (e.tcp_port ≢ [])) × ((c ≡ codes "tcp") ⊎ (e.udp_port ≢ [])))

-- The service that a form listens on: every host where none is typed, and no port for a carrier
-- that is off.
pub record IsListener (f : PortalForm) (e : ServiceEndpoint) : Type 0 where
  pub any_host : trim f.listen_host ≡ [] → e.host ≡ codes "*"
  pub own_host : trim f.listen_host ≢ [] → e.host ≡ trim f.listen_host
  pub tcp_off : f.network ≡ codes "udp" → e.tcp_port ≡ []
  pub tcp_on : f.network ≢ codes "udp" → e.tcp_port ≡ f.tcp_port
  pub udp_off : f.network ≡ codes "tcp" → e.udp_port ≡ []
  pub udp_on : f.network ≢ codes "tcp" → e.udp_port ≡ f.udp_port
  pub families : (e.tcp_family ≡ f.tcp_family) × (e.udp_family ≡ f.udp_family)

pub is_rate-IsRate : (web : Web) (s : Text) → is_rate web s ≡ true → IsRate web s
unfolding is_rate IsRate
is_rate-IsRate web [] h = inl refl
is_rate-IsRate web (c ∷ s) h = elim (Option-cases (web.natural (c ∷ s))) [
  | inl e ↦ let bad : false ≡ true = rw e at h in cc
  | inr (n, e) ↦ inr (n, e, leb→le n 2147483647 (rw e at h))
]

pub IsRate-is_rate : (web : Web) (s : Text) → IsRate web s → is_rate web s ≡ true
unfolding is_rate IsRate
IsRate-is_rate web [] h = refl
IsRate-is_rate web (c ∷ s) (inl e) = cc
IsRate-is_rate web (c ∷ s) (inr (n, e, b)) = rw e (ground arith)

pub is_configured_iff : (web : Web) (s : Text) → (is_configured web s ≡ true) ↔ IsConfigured web s
unfolding is_configured IsConfigured
is_configured_iff web s =
    let t = truthy_iff (trim s) in
    let q = text_eq_iff (web.to_lower (trim s)) (codes "none") in
    (λ h. ground (arith, t, q), λ h. ground (arith, t, q))

hex_char_iff :
    (c : ℕ)
    → ((is_digit c || (leb b'a' c && leb c b'f')) ≡ true)
      ↔ (((b'0' ≤ c) × (c ≤ b'9')) ⊎ ((b'a' ≤ c) × (c ≤ b'f')))
hex_char_iff c = (λ h. ground arith, λ h. ground arith)

hex_iff :
    (s : Text)
    → (all (λ c. is_digit c || (leb b'a' c && leb c b'f')) s ≡ true)
      ↔ All (λ c. ((b'0' ≤ c) × (c ≤ b'9')) ⊎ ((b'a' ≤ c) × (c ≤ b'f'))) s
hex_iff [] = (λ h. tt, λ h. refl)
hex_iff (c ∷ s) = (
  λ h. let (a, b) = and_parts _ _ h in ((hex_char_iff c).0 a, (hex_iff s).0 b),
  λ h. rw ((hex_char_iff c).1 h.0) ((hex_iff s).1 h.1),
)

pub is_pin_iff : (s : Text) → (is_pin s ≡ true) ↔ IsPin s
unfolding IsPin
is_pin_iff s = (
  λ h. let (a, b) = and_parts (length s == 64) _ h in (ground arith, (hex_iff s).0 b),
  λ h. rw h.0 ((hex_iff s).1 h.1),
)

pub carrier_available_iff :
    (e : ServiceEndpoint) (c : Text) → (carrier_available e c ≡ true) ↔ IsCarried e c
unfolding carrier_available IsCarried
carrier_available_iff e c =
    let unset = truthy_iff c in
    let tcp = truthy_iff e.tcp_port in
    let udp = truthy_iff e.udp_port in
    let is_udp = text_eq_iff c (codes "udp") in
    let is_tcp = text_eq_iff c (codes "tcp") in
    (
      λ h. ground (arith, unset, tcp, udp, is_udp, is_tcp),
      λ h. ground (arith, unset, tcp, udp, is_udp, is_tcp),
    )

pub unequal_texts : (a b : Text) → a ≢ b → text_eq a b ≡ false
unequal_texts a b h = let q = text_eq_iff a b in ground arith

pub listener-IsListener : (f : PortalForm) → IsListener f (listener f)
unfolding listener
listener-IsListener f = record {
  any_host = λ h. rw h refl;
  own_host = λ h. given (trim f.listen_host) h;
  tcp_off = λ h. rw ((text_eq_iff _ _).1 h) refl;
  tcp_on = λ h. rw (unequal_texts f.network (codes "udp") h) refl;
  udp_off = λ h. rw ((text_eq_iff _ _).1 h) refl;
  udp_on = λ h. rw (unequal_texts f.network (codes "tcp") h) refl;
  families = (refl, refl);
}
  where
    given : (s : Text) → s ≢ [] → text_or s (codes "*") ≡ s
    given [] h = absurd (h refl)
    given (c ∷ s) h = refl

-- A form has one listener.
pub IsListener-unique : (f : PortalForm) (e : ServiceEndpoint) → IsListener f e → listener f ≡ e
unfolding listener
IsListener-unique f e l =
    let h = host_is (trim f.listen_host) l.any_host l.own_host in
    let t = port_is f.network (codes "udp") f.tcp_port e.tcp_port l.tcp_off l.tcp_on in
    let u = port_is f.network (codes "tcp") f.udp_port e.udp_port l.udp_off l.udp_on in
    rw (h, t, u, ← l.families.0, ← l.families.1) refl
  where
    host_is :
        (s : Text)
        → (s ≡ [] → e.host ≡ codes "*")
        → (s ≢ [] → e.host ≡ s)
        → text_or s (codes "*") ≡ e.host
    host_is [] any_host own_host = sym (any_host refl)
    host_is (c ∷ s) any_host own_host = sym (own_host (λ k. cc))

    port_is :
        (network off given port : Text)
        → (network ≡ off → port ≡ [])
        → (network ≢ off → port ≡ given)
        → (if text_eq network off then [] else given) ≡ port
    port_is network off given port h k =
        let q = text_eq_iff network off in
        elim (Bool-cases (text_eq network off)) [
          | inl e ↦ rw e (sym (h (q.0 e)))
          | inr e ↦ rw e (sym (k (λ same. let yes = q.1 same in ground arith)))
        ]
