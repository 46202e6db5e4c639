-- ===== src/Subscription/Submit.antt =====
-- What the editor sends when its form is submitted.
use mathlib.Core.List.{filter_map}
use mathlib.Core.Option.{some-injective}
use mathlib.Core.Bool.{false≢true}
use nowhere_dash.Base.{
  or_parts, Bool, true, false, not, List, [], ◌∷◌, none, some, ltb, ◌==◌, Text, truthy, trim,
  length, ◌≡◌, ◌≢◌, refl, ◌∙◌, sym, arith, inl, inr, Bool-cases,
}
use nowhere_dash.Subscription.Form.{Editor, Web, uris}
use nowhere_dash.Subscription.Edit.{table_rows}
use nowhere_dash.Subscription.Save.{Sent, payload_of, refuses_form, save_subscription, submit}

accepted_form :
    (web : Web) (e : Editor)
    → refuses_form web e ≡ false
    → (truthy (trim e.form.name) ≡ true) × ((length (table_rows web e) == 0) ≡ false)
unfolding refuses_form
accepted_form web e h =
    let (name, rows, _, _) =
      or_parts (not (truthy (trim e.form.name))) (length (table_rows web e) == 0)
        (ltb 0 (length (uris e.form).issues)) _ h in
    (named (truthy (trim e.form.name)) name, rows)
  where
    named : (a : Bool) → not a ≡ false → a ≡ true
    named a k = ground arith

no_values : (vs : List Text) → ltb 0 (length vs) ≡ false → vs ≡ []
no_values [] h = refl
no_values (v ∷ vs) h = ground arith

no_rows :
    (web : Web) (e : Editor) → e.form.node_order ≡ [] → (length (table_rows web e) == 0) ≡ true
unfolding table_rows
no_rows web e h = rw h (unfold filter_map in refl)

-- What `submit` sends at once has a name, no external node, and at least one node.
pub submit_sends :
    (web : Web) (e : Editor) (sent : Sent)
    → (submit web e).1 ≡ some sent
    → (truthy sent.payload.name ≡ true)
      × (sent.payload.external_uris ≡ [])
      × (sent.payload.node_order ≢ [])
unfolding submit save_subscription payload_of
submit_sends web e sent h = elim (Bool-cases (refuses_form web e)) [
  | inl r ↦ let bad : none ≡ some sent = rw r at h in cc
  | inr r ↦ elim (Bool-cases (ltb 0 (length (uris e.form).values))) [
    | inl v ↦ let bad : none ≡ some sent = rw (r, v) at h in cc
    | inr v ↦
        let (name, rows) = accepted_form web e r in
        rw (← some-injective _ sent (rw (r, v) at h)) (
          name,
          no_values (uris e.form).values v,
          λ (n : e.form.node_order ≡ []). false≢true (sym rows ∙ no_rows web e n),
        )
  ]
]
