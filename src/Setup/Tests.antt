-- ===== src/Setup/Tests.antt =====
-- The wizard on a concrete run.
use nowhere_dash.Base.{
  Bool, true, false, [], ◌∷◌, List, Option, none, some, codes, digits_value, ◌≡◌, ◌≢◌, refl, sym,
  ap, arith, ◌==◌, text_eq, trim,
}
use mathlib.Core.Bool.{true≢false}
use nowhere_dash.Setup.Form.{
  of_postgres, Database, sqlite, postgres, SetupPayload, Web, build_payload,
}
use nowhere_dash.Setup.Wizard.{
  admin_pass, admin_confirm, admin_ack, pg_host, done, begin_submit, count_from, seconds,
  end_submit,
}
use nowhere_dash.Setup.Session.{
  edit_field, forward, test_answered, test_pressed, choose_driver, agree_next, World, opened, Event,
  agree, choose, edit, next, press_test, test_answer, press_submit, submit_pressed, happen, Reach,
  here, after,
}
use nowhere_dash.Setup.Submit.{IsSound, Sent, Reach-Sent}
use nowhere_dash.Setup.Tested.{submits_tested}
use nowhere_dash.Setup.Calm.{is_calm}
use nowhere_dash.Setup.Finish.{finish_leaves}

abbrev web : Web
web = record { number = digits_value 0; required_phrase = codes "I agree" }

abbrev events : List Event
events =
    next
    ∷ agree (codes "I agree ") (some (codes "1.0"))
    ∷ choose sqlite
    ∷ next
    ∷ press_test
    ∷ test_answer done
    ∷ next
    ∷ edit (admin_pass (codes "long enough"))
    ∷ edit (admin_confirm (codes "long enough"))
    ∷ edit (admin_ack true)
    ∷ []

run : List Event → World → World
run [] s = s
run (e ∷ es) s = run es (happen web e s)

abbrev ready : World
ready = run events (opened (codes "UTC"))

-- All of the events are allowed by a test.
AllFine : (Event → World → Bool) → List Event → World → Type 0
AllFine fine [] s = Unit {0}
AllFine fine (e ∷ es) s = (fine e s ≡ true) × AllFine fine es (happen web e s)

run-Reach :
    (fine : Event → World → Bool) (es : List Event) (s : World)
    → Reach web fine (codes "UTC") s
    → AllFine fine es s
    → Reach web fine (codes "UTC") (run es s)
unfolding run AllFine
run-Reach fine [] s r ok = r
run-Reach fine (e ∷ es) s r (f, ok) = run-Reach fine es (happen web e s) (after e r f) ok

events_calm : AllFine is_calm events (opened (codes "UTC"))
unfolding run AllFine is_calm happen text_eq trim edit_field forward test_answered test_pressed
    choose_driver agree_next opened
events_calm = (refl, (refl, (refl, (refl, (refl, (refl, (refl, (refl, (refl, (refl, tt))))))))))

ready_Reach : Reach web is_calm (codes "UTC") ready
ready_Reach = run-Reach is_calm events (opened (codes "UTC")) here events_calm

ready_five : ready.wizard.step ≡ 5
unfolding run happen text_eq trim edit_field forward test_answered test_pressed choose_driver
    agree_next opened
ready_five = refl

abbrev ready_payload : SetupPayload
ready_payload = build_payload web ready.wizard.form true

ready_sends : (begin_submit web ready.wizard).1 ≡ some ready_payload
unfolding begin_submit run happen text_eq trim edit_field forward test_answered test_pressed
    choose_driver agree_next opened
ready_sends = refl

abbrev submitted : World
submitted = run (press_submit ∷ []) ready

submit_calm : AllFine is_calm (press_submit ∷ []) ready
unfolding AllFine is_calm
submit_calm = (refl, tt)

submitted_Reach : Reach web is_calm (codes "UTC") submitted
submitted_Reach = run-Reach is_calm (press_submit ∷ []) ready ready_Reach submit_calm

submitted_sent : submitted.sent ≡ (ready.wizard, ready_payload) ∷ []
unfolding begin_submit run happen text_eq trim edit_field forward test_answered test_pressed
    choose_driver agree_next opened submit_pressed
submitted_sent = refl

Reach-Sent_example : IsSound submitted.wizard × Sent web submitted.sent
Reach-Sent_example = Reach-Sent web is_calm (codes "UTC") submitted_Reach

submits_tested_example :
    ready.proven ≡ some (record ready_payload { admin = none; accepted_version = none })
submits_tested_example =
    submits_tested web (codes "UTC") ready_payload ready_Reach ready_five ready_sends

ready_stays : ready.wizard.left ≡ false
unfolding run happen text_eq trim edit_field forward test_answered test_pressed choose_driver
    agree_next opened
ready_stays = refl

finish_leaves_example :
    (count_from
      (seconds 5 (end_submit done ready.wizard)).countdown
      (seconds 5 (end_submit done ready.wizard))).left
    ≡ (5 == 5)
finish_leaves_example = finish_leaves 5 ready.wizard (omega arith) ready_stays

-- A host that is typed while a test runs counts as tested when the test succeeds.
abbrev hasty : List Event
hasty =
    next
    ∷ agree (codes "I agree") (some (codes "1.0"))
    ∷ choose postgres
    ∷ next
    ∷ press_test
    ∷ edit (pg_host (codes "elsewhere"))
    ∷ test_answer done
    ∷ next
    ∷ []

abbrev hastily : World
hastily = run hasty (opened (codes "UTC"))

at_elsewhere : Option SetupPayload → Bool
at_elsewhere none = false
at_elsewhere (some p) = hosted p.database
  where
    hosted : Database → Bool
    hosted (of_postgres d) = text_eq d.host (codes "elsewhere")
    hosted _ = false

hasty_untested :
    (hastily.wizard.step ≡ 5)
    × (hastily.proven ≢ some (build_payload web hastily.wizard.form false))
unfolding at_elsewhere build_payload run happen text_eq trim edit_field forward test_answered
    test_pressed choose_driver agree_next opened
hasty_untested = (refl, λ e. true≢false (sym (ap at_elsewhere e)))
