-- ===== src/TunnelForm/Passed.antt =====
-- The tests of `validate` of simple-create-tunnel-modal.tsx, taken apart.
use nowhere_dash.Base.{
  Bool, true, false, not, ◌&&◌, ◌||◌, leb, Text, codes, text_eq, text_eq_iff, truthy, trim, ◌≡◌,
  ◌⊎◌, refl, ap, arith, inl, inr, Bool-cases, and_parts,
}
use nowhere_dash.Portal.Platform.{Result, ok, err, Result-cases}
use nowhere_dash.Portal.Uri.{byte_length}
use nowhere_dash.Portal.Endpoint.{ServiceEndpoint, validate_service_endpoint}
use nowhere_dash.Portal.Credentials.{
  parse_next_endpoint, validate_socks_endpoint, validate_portal_sni,
}
use nowhere_dash.TunnelForm.Fields.{PortalForm, Web, is_configured}
use nowhere_dash.TunnelForm.Check.{
  Checked, passed, thrown, Problem, required, invalid, service, ◌>>◌, require, of_result, when,
  is_pin, listener, is_filled, carrier_available, is_rate, check_next, validate,
}
use nowhere_dash.TunnelForm.Filled.{IsFilled, is_filled-IsFilled, IsFilled-is_filled}

-- The tests on the next tunnel.
pub record PassesNext (web : Web) (f : PortalForm) : Type 0 where
  pub endpoint : ServiceEndpoint
  pub read : parse_next_endpoint web.platform (trim f.next) ≡ ok endpoint
  pub named : validate_portal_sni (trim f.sni) ≡ ok tt
  pub carried : (carrier_available endpoint f.up && carrier_available endpoint f.down) ≡ true

-- Each test of `validate` as it stands in the code.
pub record Passes (web : Web) (f : PortalForm) : Type 0 where
  pub filled : IsFilled f
  pub listens : validate_service_endpoint web.platform (listener f) true ≡ ok tt
  pub keyed : leb (byte_length f.shared_key) 255 ≡ true
  pub certified :
      text_eq f.tls_mode (codes "2") ≡ true
      → (truthy (trim f.cert_path) ≡ true) × (truthy (trim f.key_path) ≡ true)
  pub limited : (is_rate web f.rate ≡ true) × (is_rate web f.etar ≡ true)
  pub muxed : (f.mux ≡ codes "0") ⊎ (f.mux ≡ codes "1")
  pub exclusive : is_configured web f.socks ≡ true → is_configured web f.next ≡ false
  pub proxied :
      is_configured web f.socks ≡ true
      → validate_socks_endpoint web.platform (trim f.socks) false ≡ ok tt
  pub chained : is_configured web f.next ≡ true → PassesNext web f
  pub pinned :
      is_configured web f.next ≡ true → is_configured web f.pin ≡ true → is_pin (trim f.pin) ≡ true

then_passed : (c r : Checked (Unit {0})) → (c >> r) ≡ passed tt → (c ≡ passed tt) × (r ≡ passed tt)
then_passed (passed tt) r h = (refl, h)
then_passed (thrown p) r h = cc

passed_then : (c r : Checked (Unit {0})) → c ≡ passed tt → r ≡ passed tt → (c >> r) ≡ passed tt
passed_then c r h k = rw h k

require_passed : (b : Bool) (p : Problem) → require b p ≡ passed tt → b ≡ true
require_passed true p h = refl
require_passed false p h = cc

of_result_passed : (r : Result (Unit {0})) → of_result r ≡ passed tt → r ≡ ok tt
of_result_passed (ok tt) h = refl
of_result_passed (err e) h = cc

when_passed : (b : Bool) (c : Checked (Unit {0})) → when b c ≡ passed tt → b ≡ true → c ≡ passed tt
when_passed true c h k = h
when_passed false c h k = cc

passed_when :
    (b : Bool) (c : Checked (Unit {0})) → (b ≡ true → c ≡ passed tt) → when b c ≡ passed tt
passed_when true c h = h refl
passed_when false c h = refl

thrown≢passed : (p : Problem) → ¬ (◌≡◌ {A = Checked (Unit {0})} (thrown p) (passed tt))
thrown≢passed p h = cc

implied_both : (t a b : Bool) → (not t || (a && b)) ≡ true → t ≡ true → (a ≡ true) × (b ≡ true)
implied_both t a b h k = ground arith

both_implied : (t a b : Bool) → (t ≡ true → (a ≡ true) × (b ≡ true)) → (not t || (a && b)) ≡ true
both_implied true a b h = let both = h refl in ground arith
both_implied false a b h = refl

either_text : (s a b : Text) → (text_eq s a || text_eq s b) ≡ true → (s ≡ a) ⊎ (s ≡ b)
either_text s a b h = elim (Bool-cases (text_eq s a)) [
  | inl e ↦ inl ((text_eq_iff s a).0 e)
  | inr e ↦ inr ((text_eq_iff s b).0 (rw e at h))
]

text_either : (s a b : Text) → (s ≡ a) ⊎ (s ≡ b) → (text_eq s a || text_eq s b) ≡ true
text_either s a b (inl e) = let same = (text_eq_iff s a).1 e in ground arith
text_either s a b (inr e) = let same = (text_eq_iff s b).1 e in ground arith

not_both : (a b : Bool) → not (a && b) ≡ true → a ≡ true → b ≡ false
not_both a b h k = ground arith

both_not : (a b : Bool) → (a ≡ true → b ≡ false) → not (a && b) ≡ true
both_not true b h = ap not (h refl)
both_not false b h = refl

third : (a b c : Bool) → (not a || not b || c) ≡ true → a ≡ true → b ≡ true → c ≡ true
third a b c h k l = ground arith

by_third : (a b c : Bool) → (a ≡ true → b ≡ true → c ≡ true) → (not a || not b || c) ≡ true
by_third true true c h = h refl refl
by_third true false c h = refl
by_third false b c h = refl

-- The checks on the next tunnel, as one.
check_next-PassesNext :
    (web : Web) (f : PortalForm) → check_next web f ≡ passed tt → PassesNext web f
unfolding check_next
check_next-PassesNext web f h =
    elim (Result-cases (parse_next_endpoint web.platform (trim f.next))) [
      | inl (x, e) ↦ absurd (thrown≢passed (service x) (rw e at h))
      | inr (endpoint, e) ↦
          let (named, carried) =
            then_passed (of_result (validate_portal_sni (trim f.sni))) _ (rw e at h) in
          record {
            endpoint = endpoint;
            read = e;
            named = of_result_passed _ named;
            carried = require_passed _ _ carried;
          }
    ]

PassesNext-check_next :
    (web : Web) (f : PortalForm) → PassesNext web f → check_next web f ≡ passed tt
unfolding check_next
PassesNext-check_next web f c = rw (c.read, c.named, c.carried)

pub validate-Passes : (web : Web) (f : PortalForm) → validate web f ≡ passed tt → Passes web f
unfolding validate
validate-Passes web f h =
    let (filled, h1) = then_passed (require (is_filled f) required) _ h in
    let (listens, h2) =
      then_passed (of_result (validate_service_endpoint web.platform (listener f) true)) _ h1 in
    let (keyed, h3) = then_passed _ _ h2 in
    let (certified, h4) = then_passed _ _ h3 in
    let (limited, h5) = then_passed _ _ h4 in
    let (muxed, h6) = then_passed _ _ h5 in
    let (exclusive, h7) = then_passed _ _ h6 in
    let (proxied, h8) = then_passed _ _ h7 in
    let (chained, pinned) = then_passed _ _ h8 in
    record {
      filled = is_filled-IsFilled f (require_passed _ _ filled);
      listens = of_result_passed _ listens;
      keyed = require_passed _ _ keyed;
      certified = implied_both _ _ _ (require_passed _ _ certified);
      limited = and_parts _ _ (require_passed _ _ limited);
      muxed = either_text f.mux _ _ (require_passed _ _ muxed);
      exclusive = not_both _ _ (require_passed _ _ exclusive);
      proxied = λ k. of_result_passed _ (when_passed _ _ proxied k);
      chained = λ k. check_next-PassesNext web f (when_passed _ _ chained k);
      pinned = third _ _ _ (require_passed _ _ pinned);
    }

pub Passes-validate : (web : Web) (f : PortalForm) → Passes web f → validate web f ≡ passed tt
unfolding validate
Passes-validate web f v =
    passed_then _ _ (ap (λ t. require t required) (IsFilled-is_filled f v.filled)) (
      passed_then _ _ (ap of_result v.listens) (
        passed_then _ _ (ap (λ t. require t invalid) v.keyed) (
          passed_then _ _ (ap (λ t. require t invalid) (both_implied _ _ _ v.certified)) (
            passed_then _ _ (ap (λ t. require t invalid) (both _ _ v.limited)) (
              passed_then _ _ (ap (λ t. require t invalid) (text_either f.mux _ _ v.muxed)) (
                passed_then _ _ (ap (λ t. require t invalid) (both_not _ _ v.exclusive)) (
                  passed_then _ _ (passed_when _ _ (λ k. ap of_result (v.proxied k))) (
                    passed_then _ _
                      (passed_when _ _ (λ k. PassesNext-check_next web f (v.chained k)))
                      (ap (λ t. require t invalid) (by_third _ _ _ v.pinned))))))))))
  where
    both : (a b : Bool) → (a ≡ true) × (b ≡ true) → (a && b) ≡ true
    both a b h = ground arith
