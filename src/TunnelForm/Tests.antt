-- ===== src/TunnelForm/Tests.antt =====
-- The form for a tunnel on concrete inputs, and its theorems at them.
use nowhere_dash.Base.{
  ℕ, Bool, true, false, List, [], ◌∷◌, ◌++◌, Option, none, some, Text, codes, is_digits,
  digits_value, if◌then◌else◌, truthy, replicate, trim, split, text_eq, is_member, ◌≡◌, refl,
}
use nowhere_dash.TunnelForm.Fields.{PortalForm, Web, new_form, type_socks, type_next}
use nowhere_dash.TunnelForm.Tags.{Tags, tags_read, invalid_tag, text_to_tags}
use nowhere_dash.TunnelForm.Check.{Payload, passed, thrown, required, validate, prepare, payload_of}
use nowhere_dash.TunnelForm.Valid.{IsValid, validate_iff}
use nowhere_dash.TunnelForm.Sent.{IsPayload}
use nowhere_dash.TunnelForm.Exclusive.{
  IsExclusive, here, next, socks_typed, next_typed, Reach-IsExclusive,
}
use nowhere_dash.TunnelForm.Fresh.{named_form, new_form-prepare}
use nowhere_dash.TunnelForm.Modal.{Modal, create, submit}
use nowhere_dash.TunnelForm.Requests.{submit_sends_checked}

abbrev web : Web
web = record {
  platform = record { new_url = λ s. none; number_text = λ s. s };
  to_lower = λ s. s;
  natural = λ s. if is_digits s then some (digits_value 0 s) else none;
}

abbrev bytes : List ℕ
bytes = replicate 18 7

abbrev fresh_form : PortalForm
fresh_form = named_form (codes " home ") (codes "3") [] 5000 bytes

abbrev fresh_body : Payload
fresh_body = payload_of web fresh_form []

fresh_port : fresh_body.tcp_port ≡ codes "6024"
unfolding payload_of new_form text_eq nowhere_dash.Base.nat_text
fresh_port = refl

new_form-prepare_example : IsValid web fresh_form × (prepare web fresh_form ≡ passed fresh_body)
unfolding trim
new_form-prepare_example =
    new_form-prepare web (codes " home ") (codes "3") [] 5000 bytes refl refl refl

-- A form without a name is refused.
nameless_refused : validate web (named_form [] (codes "3") [] 5000 bytes) ≡ thrown required
unfolding validate new_form trim
nameless_refused = refl

validate_iff_example : IsValid web fresh_form
validate_iff_example = (validate_iff web fresh_form).0 fresh_valid
  where
    fresh_valid : validate web fresh_form ≡ passed tt
    fresh_valid = (validate_iff web fresh_form).1 new_form-prepare_example.0

abbrev opened_modal : Modal
opened_modal = record {
  mode = create;
  nodes = codes "3" ∷ [];
  form = fresh_form;
  real_tunnel_id = [];
  loading = false;
  submitting = false;
  advanced_open = false;
  show_shared_key = false;
  current = some 0;
  made = 1;
  notices = [];
  closings = 0;
  savings = 0;
}

opened_sends : (submit web opened_modal).1 ≡ some fresh_body
unfolding submit
opened_sends = rw new_form-prepare_example.1 refl

submit_sends_checked_example :
    (opened_modal.loading ≡ false)
    × (opened_modal.submitting ≡ false)
    × IsPayload web fresh_body
    × (text_to_tags fresh_form.tags_text ≡ tags_read fresh_body.tags)
    × ((submit web (submit web opened_modal).0).1 ≡ none)
submit_sends_checked_example = submit_sends_checked web opened_modal fresh_body opened_sends

abbrev both_typed : PortalForm
both_typed =
    type_next web (codes "key@host:1")
      (type_socks web (codes "localhost:1080") (new_form [] 1 bytes))

both_typed_kept : (both_typed.next ≡ codes "key@host:1") × (both_typed.socks ≡ [])
unfolding type_next type_socks trim text_eq
both_typed_kept = (refl, refl)

Reach-IsExclusive_example : IsExclusive web both_typed
Reach-IsExclusive_example =
    Reach-IsExclusive web [] 1 bytes
      (next (next here (socks_typed (codes "localhost:1080"))) (next_typed (codes "key@host:1")))

abbrev some_tags : Tags
some_tags = (codes "env", codes "a=b") ∷ (codes "zone", []) ∷ []

-- A line without a key is refused as it stands.
keyless_refused : text_to_tags (codes "a=1\n =2") ≡ invalid_tag (codes "=2")
unfolding text_to_tags split trim
keyless_refused = refl
