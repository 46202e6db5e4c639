-- ===== src/Subscription/Save.antt =====
-- What the editor of
-- web/src/components/subscriptions/subscription-form-modal.tsx saves.
use mathlib.Core.Option
use nowhere_dash.Base.{
  ℕ, Bool, true, false, not, ◌&&◌, ◌||◌, List, [], Option, none, some, ltb, ◌==◌, if◌then◌else◌,
  Text, codes, truthy, includes, trim, length,
}
use nowhere_dash.Subscription.Form.{Node, Subscription, Editor, Web, uris}
use nowhere_dash.Subscription.Edit.{table_rows}

-- `SubscriptionPayload`, without the preferences; an icon that was not changed is `none`.
pub record Payload : Type 0 where
  pub name : Text
  pub profile_title : Text
  pub expires_at : Option Text
  pub traffic_limit : Option ℕ
  pub tunnel_ids : List ℕ
  pub tunnel_names : List (ℕ × Text)
  pub external_uris : List Text
  pub node_order : List Node
  pub icon : Option Text

unfoldable pub payload_of : Web → Editor → Payload
payload_of web e = record {
  name = trim e.form.name;
  profile_title = trim e.form.name;
  expires_at = (if truthy e.form.expires_at then some (web.to_iso e.form.expires_at) else none);
  traffic_limit =
      (if truthy (trim e.form.traffic_limit_gib)
        then some (web.gib_bytes e.form.traffic_limit_gib)
        else none);
  tunnel_ids = e.form.tunnel_ids;
  tunnel_names = e.form.tunnel_names;
  external_uris = (uris e.form).values;
  node_order = e.form.node_order;
  icon = (if e.icon_changed then some (elim e.form.icon [ none ↦ [] | some i ↦ i ]) else none);
}

-- `submit` returns early.
unfoldable pub refuses_form : Web → Editor → Bool
unfolding table_rows
refuses_form web e =
    not (truthy (trim e.form.name))
    || length (table_rows web e) == 0
    || ltb 0 (length (uris e.form).issues)
    || (truthy (trim e.form.traffic_limit_gib) && not (web.is_positive e.form.traffic_limit_gib))

-- What `saveSubscription` sends: the payload, with the id of the subscription that it updates.
pub record Sent : Type 0 where
  pub id : Option ℕ
  pub payload : Payload

-- `saveSubscription` up to its `await`.
unfoldable pub save_subscription : Web → Editor → Editor × Sent
unfolding payload_of
save_subscription web e = (
  record e { submitting = true },
  record {
    id = Option.map (λ (s : Subscription). s.id) e.subscription;
    payload = payload_of web e;
  },
)

-- `submit` up to its `await`.
unfoldable pub submit : Web → Editor → Editor × Option Sent
unfolding refuses_form save_subscription
submit web e =
    let e' = record e { attempted = true } in
    if refuses_form web e
    then (e', none)
    else if ltb 0 (length (uris e.form).values)
    then (record e' { save_confirmation_open = true }, none)
    else (let (saving, sent) = save_subscription web e' in (saving, some sent))

-- The rest of `saveSubscription`: `none` is an answer, `some` the message of an error. The flag
-- tells whether `onOpenChange(false)` is called.
unfoldable pub saved : Option Text → Editor → Editor × Bool
saved none e = (record e { save_confirmation_open = false; submitting = false }, true)
saved (some message) e = (
  record e {
    external_server_error =
        (if includes message (codes "externalUris") then message else e.external_server_error);
    save_confirmation_open = false;
    submitting = false;
  },
  false,
)
