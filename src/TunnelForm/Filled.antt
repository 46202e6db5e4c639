-- ===== src/TunnelForm/Filled.antt =====
-- What `validate` of the tunnel form asks to be given.
use nowhere_dash.Base.{
  Bool, true, ◌&&◌, ◌||◌, [], ◌∷◌, Text, codes, text_eq, text_eq_iff, truthy, trim, ◌≡◌, ◌≢◌, ◌↔◌,
  ◌⊎◌, refl, arith,
}
use nowhere_dash.TunnelForm.Fields.{PortalForm}
use nowhere_dash.TunnelForm.Check.{is_filled}

-- What has to be given: a node, a name, a port for each carrier that is on, and a key.
pub record IsFilled (f : PortalForm) : Type 0 where
  pub owner : f.api_endpoint ≢ []
  pub named : trim f.tunnel_name ≢ []
  pub tcp_given : (f.network ≡ codes "udp") ⊎ (f.tcp_port ≢ [])
  pub udp_given : (f.network ≡ codes "tcp") ⊎ (f.udp_port ≢ [])
  pub secret : f.shared_key ≢ []

pub truthy_iff : (s : Text) → (truthy s ≡ true) ↔ (s ≢ [])
truthy_iff [] = (λ h. cc, λ h. absurd (h refl))
truthy_iff (c ∷ s) = (λ h e. cc, λ h. refl)

is-or-given :
    (network name port : Text)
    → ((text_eq network name || truthy port) ≡ true) ↔ ((network ≡ name) ⊎ (port ≢ []))
is-or-given network name port =
    let q = text_eq_iff network name in
    let t = truthy_iff port in (λ h. ground (arith, q, t), λ h. ground (arith, q, t))

pub is_filled-IsFilled : (f : PortalForm) → is_filled f ≡ true → IsFilled f
unfolding is_filled
is_filled-IsFilled f h =
    let (owner, (named, (tcp, (udp, secret)))) = parts _ _ _ _ _ h in
    record {
      owner = (truthy_iff _).0 owner;
      named = (truthy_iff _).0 named;
      tcp_given = (is-or-given f.network (codes "udp") f.tcp_port).0 tcp;
      udp_given = (is-or-given f.network (codes "tcp") f.udp_port).0 udp;
      secret = (truthy_iff _).0 secret;
    }
  where
    parts :
        (a b c d e : Bool)
        → (a && b && c && d && e) ≡ true
        → (a ≡ true) × ((b ≡ true) × ((c ≡ true) × ((d ≡ true) × (e ≡ true))))
    parts a b c d e k = ground arith

pub IsFilled-is_filled : (f : PortalForm) → IsFilled f → is_filled f ≡ true
unfolding is_filled
IsFilled-is_filled f v =
    five _ _ _ _ _ ((truthy_iff _).1 v.owner) ((truthy_iff _).1 v.named)
      ((is-or-given f.network (codes "udp") f.tcp_port).1 v.tcp_given)
      ((is-or-given f.network (codes "tcp") f.udp_port).1 v.udp_given) ((truthy_iff _).1 v.secret)
  where
    five :
        (a b c d e : Bool)
        → a ≡ true
        → b ≡ true
        → c ≡ true
        → d ≡ true
        → e ≡ true
        → (a && b && c && d && e) ≡ true
    five a b c d e p q r s t = ground arith
