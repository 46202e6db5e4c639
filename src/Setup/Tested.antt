-- ===== src/Setup/Tested.antt =====
-- Theorems on the connection that is initialized and the one that was tested
-- (web/src/pages/setup.tsx).
use nowhere_dash.Base.{◌≡◌, refl, sym, ap, ◌∙◌, true, false, inl, inr, none, some, Text, Bool-cases}
use nowhere_dash.Setup.Form.{SetupPayload, Web, build_payload, no_keys, admin_errors_of}
use nowhere_dash.Setup.Submit.{Reach-Sent, at_five}
use mathlib.Core.Bool.{true≢false}
use nowhere_dash.Setup.Wizard.{Wizard, begin_submit}
use nowhere_dash.Setup.Session.{
  World, opened, Event, agree, choose, edit, next, back, press_test, test_answer, press_submit,
  submit_answer, test_answered, happen, Reach, here, after,
}
use nowhere_dash.Setup.Calm.{
  is_calm, IsTested, Same-IsTested, forward-Same, backward-Same, agree_next-Same,
  test_pressed-IsTested, clash, answer_to-IsTested, choose_driver-IsTested, edit_field-IsTested,
  submit_pressed-IsTested, submit_answered-IsTested,
}

happen-IsTested :
    (web : Web) (e : Event) (s : World)
    → is_calm e s ≡ true
    → IsTested web s
    → IsTested web (happen web e s)
unfolding happen is_calm test_answered
happen-IsTested web (agree phrase doc) s c h =
    Same-IsTested web s _ (agree_next-Same web phrase doc s.wizard) h
happen-IsTested web (choose d) s c h = choose_driver-IsTested web d s c h
happen-IsTested web (edit k) s c h = edit_field-IsTested web k s c h
happen-IsTested web next s c h = Same-IsTested web s _ (forward-Same web s.wizard) h
happen-IsTested web back s c h = Same-IsTested web s _ (backward-Same web s.wizard) h
happen-IsTested web press_test s c h = test_pressed-IsTested web s h
happen-IsTested web (test_answer o) s c h = answer_to-IsTested web s.running o s refl h
happen-IsTested web press_submit s c h = submit_pressed-IsTested web s h
happen-IsTested web (submit_answer o) s c h = submit_answered-IsTested web o s h

opened-IsTested : (web : Web) (timezone : Text) → IsTested web (opened timezone)
unfolding IsTested opened
opened-IsTested web timezone = (inl refl, inl (refl, refl))

Reach-IsTested :
    (web : Web) (timezone : Text) {s : World} → Reach web is_calm timezone s → IsTested web s
Reach-IsTested web timezone here = opened-IsTested web timezone
Reach-IsTested web timezone (after {s} e r calm) =
    happen-IsTested web e s calm (Reach-IsTested web timezone r)

without :
    (web : Web) (w : Wizard) (p : SetupPayload)
    → (begin_submit web w).1 ≡ some p
    → some (build_payload web w.form false)
      ≡ some (record p { admin = none; accepted_version = none })
unfolding begin_submit build_payload
without web w p = elim (Bool-cases (no_keys (admin_errors_of w.form))) [
  | inl k ↦ simp k (λ e.
      ap
        (λ o. elim o [
          | none ↦ none
          | some q ↦ some (record q { admin = none; accepted_version = none })
        ])
        e)
  | inr k ↦ simp k (λ e. absurd (clash none p e refl))
]

-- In a run where the connection is not edited while a test runs, a payload that the last step's
-- button sends is, without its account and its agreement, the last one that the server has
-- connected by.
pub submits_tested :
    (web : Web) (timezone : Text) {s : World} (p : SetupPayload)
    → Reach web is_calm timezone s
    → s.wizard.step ≡ 5
    → (begin_submit web s.wizard).1 ≡ some p
    → s.proven ≡ some (record p { admin = none; accepted_version = none })
unfolding IsTested
submits_tested web timezone {s} p r five sends =
    let (sound, sent) = Reach-Sent web is_calm timezone r in
    let (agreed, (chosen, tested)) = at_five s.wizard sound (rw five refl) in
    elim (Reach-IsTested web timezone r).0 [
      | inl untested ↦ absurd (true≢false (sym tested ∙ untested))
      | inr proven ↦ proven ∙ without web s.wizard p sends
    ]
