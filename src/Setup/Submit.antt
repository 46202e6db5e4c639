-- ===== src/Setup/Submit.antt =====
-- Theorems on when the wizard of web/src/pages/setup.tsx sends a request to initialize.
use nowhere_dash.Base.{
  unit_length, ◌≡◌, refl, Bool, true, false, not, ◌&&◌, ◌||◌, List, [], ◌∷◌, Option, none, some,
  ◌==◌, ltb, Text, text_eq, Bool-cases, Option-cases, inl, inr, and_parts, arith,
}
use nowhere_dash.Setup.Form.{
  DriverKind, Form, Web, build_payload, admin_errors_of, no_keys, username_test,
}
use nowhere_dash.Setup.Wizard.{
  Wizard, Field, set_field, put, is_connection, begin_test, end_test, Outcome, begin_submit,
  end_submit, accept, driver_next,
}
use nowhere_dash.Setup.Session.{
  World, opened, Event, agree, choose, edit, next, back, press_test, test_answer, press_submit,
  submit_answer, input_step, forward, backward, choose_driver, agree_next, edit_field, test_pressed,
  test_answered, submit_pressed, submit_answered, happen, Reach, here, after, record_sent, Request,
}

abbrev pub has_driver : Option DriverKind → Bool
has_driver none = false
has_driver (some d) = true

-- What each step rests on: from the third on the agreement, from the fourth on a driver, in the
-- fifth the page's mark of a tested connection.
unfoldable pub IsSound : Wizard → Type 0
IsSound w =
    ((ltb w.step 3 || w.form.compliance_accepted) ≡ true)
    × (((ltb w.step 4 || has_driver w.form.driver) ≡ true) × ((ltb w.step 5 || w.test_ok) ≡ true))

forward-IsSound : (w : Wizard) → IsSound w → IsSound (forward w)
unfolding forward driver_next IsSound
forward-IsSound w h = ground arith

backward-IsSound : (w : Wizard) → IsSound w → IsSound (backward w)
unfolding backward IsSound
backward-IsSound w h = ground arith

choose_driver-IsSound : (d : DriverKind) (w : Wizard) → IsSound w → IsSound (choose_driver d w)
unfolding choose_driver set_field put IsSound
choose_driver-IsSound d w h = ground arith

agree_next-IsSound :
    (web : Web) (phrase : Text) (doc : Option Text) (w : Wizard)
    → IsSound w
    → IsSound (agree_next web phrase doc w)
unfolding agree_next accept set_field put IsSound
agree_next-IsSound web phrase none w h = ground arith
agree_next-IsSound web phrase (some version) w h = ground arith

edit_field-IsSound : (k : Field) (w : Wizard) → IsSound w → IsSound (edit_field k w)
unfolding edit_field set_field put IsSound input_step is_connection
edit_field-IsSound k w h = ground arith

end_test-IsSound : (o : Outcome) (w : Wizard) → IsSound w → IsSound (end_test o w)
unfolding end_test IsSound
end_test-IsSound o w h = ground arith

end_submit-IsSound : (o : Outcome) (w : Wizard) → IsSound w → IsSound (end_submit o w)
unfolding end_submit IsSound
end_submit-IsSound o w h = ground arith

begin_submit-IsSound : (web : Web) (w : Wizard) → IsSound w → IsSound (begin_submit web w).0
unfolding begin_submit IsSound
begin_submit-IsSound web w h = ground arith

test_pressed-IsSound :
    (web : Web) (s : World) → IsSound s.wizard → IsSound (test_pressed web s).wizard
unfolding test_pressed begin_test IsSound
test_pressed-IsSound web s h = ground arith

test_answered-IsSound :
    (o : Outcome) (s : World) → IsSound s.wizard → IsSound (test_answered o s).wizard
unfolding test_answered
test_answered-IsSound o s h = elim (Option-cases s.running) [
  | inl e ↦ rw e h
  | inr (p, e) ↦ rw e (end_test-IsSound o s.wizard h)
]

submit_pressed-IsSound :
    (web : Web) (s : World) → IsSound s.wizard → IsSound (submit_pressed web s).wizard
unfolding submit_pressed
submit_pressed-IsSound web s h =
    elim (Bool-cases ((s.wizard.step == 5) && not s.wizard.submitting)) [
      | inl e ↦ rw e (begin_submit-IsSound web s.wizard h)
      | inr e ↦ rw e h
    ]

submit_answered-IsSound :
    (o : Outcome) (s : World) → IsSound s.wizard → IsSound (submit_answered o s).wizard
unfolding submit_answered
submit_answered-IsSound o s h = elim (Bool-cases s.wizard.submitting) [
  | inl e ↦ simp e (end_submit-IsSound o s.wizard h)
  | inr e ↦ simp e h
]

happen-IsSound :
    (web : Web) (e : Event) (s : World) → IsSound s.wizard → IsSound (happen web e s).wizard
unfolding happen
happen-IsSound web (agree phrase doc) s h = agree_next-IsSound web phrase doc s.wizard h
happen-IsSound web (choose d) s h = choose_driver-IsSound d s.wizard h
happen-IsSound web (edit k) s h = edit_field-IsSound k s.wizard h
happen-IsSound web next s h = forward-IsSound s.wizard h
happen-IsSound web back s h = backward-IsSound s.wizard h
happen-IsSound web press_test s h = test_pressed-IsSound web s h
happen-IsSound web (test_answer o) s h = test_answered-IsSound o s h
happen-IsSound web press_submit s h = submit_pressed-IsSound web s h
happen-IsSound web (submit_answer o) s h = submit_answered-IsSound o s h

IsFilled : Form → Type 0
IsFilled f =
    (username_test f.admin_user ≡ true)
    × ((ltb (unit_length f.admin_pass) 8 ≡ false)
        × ((text_eq f.admin_pass f.admin_confirm ≡ true) × (f.admin_ack ≡ true)))

admin_errors_of-IsFilled : (f : Form) → no_keys (admin_errors_of f) ≡ true → IsFilled f
unfolding no_keys admin_errors_of IsFilled
admin_errors_of-IsFilled f h = ground arith

-- A request is complete when its payload is the one of the page that sent it, and that page had the
-- agreement, a driver, the mark of a tested connection and an account that passes the check.
pub IsComplete : Web → Request → Type 0
IsComplete web (w, p) =
    (p ≡ build_payload web w.form true)
    × ((w.form.compliance_accepted ≡ true)
        × ((has_driver w.form.driver ≡ true) × ((w.test_ok ≡ true) × IsFilled w.form)))

pub Sent : Web → List Request → Type 0
Sent web [] = Unit {0}
Sent web (r ∷ rs) = IsComplete web r × Sent web rs

pub at_five :
    (w : Wizard)
    → IsSound w
    → (w.step == 5) ≡ true
    → (w.form.compliance_accepted ≡ true) × ((has_driver w.form.driver ≡ true) × (w.test_ok ≡ true))
unfolding IsSound
at_five w h e = ground arith

begin_submit-Sent :
    (web : Web) (w : Wizard) (rs : List Request)
    → IsSound w
    → (w.step == 5) ≡ true
    → Sent web rs
    → Sent web (record_sent w (begin_submit web w).1 rs)
unfolding begin_submit Sent IsComplete
begin_submit-Sent web w rs h e k = elim (Bool-cases (no_keys (admin_errors_of w.form))) [
  | inl c ↦
      let (agreed, (chosen, tested)) = at_five w h e in
      rw c ((refl, (agreed, (chosen, (tested, admin_errors_of-IsFilled w.form c)))), k)
  | inr c ↦ rw c k
]

happen-Sent :
    (web : Web) (e : Event) (s : World)
    → IsSound s.wizard
    → Sent web s.sent
    → Sent web (happen web e s).sent
unfolding happen test_pressed test_answered submit_pressed submit_answered
happen-Sent web (agree phrase doc) s h k = k
happen-Sent web (choose d) s h k = k
happen-Sent web (edit f) s h k = k
happen-Sent web next s h k = k
happen-Sent web back s h k = k
happen-Sent web press_test s h k =
    elim (Bool-cases ((s.wizard.step == 4) && not s.wizard.testing)) [
      | inl e ↦ simp e k
      | inr e ↦ simp e k
    ]
happen-Sent web (test_answer o) s h k = elim (Option-cases s.running) [
  | inl e ↦ rw e k
  | inr (p, e) ↦ rw e k
]
happen-Sent web press_submit s h k =
    elim (Bool-cases ((s.wizard.step == 5) && not s.wizard.submitting)) [
      | inl e ↦
          let (five, idle) = and_parts (s.wizard.step == 5) (not s.wizard.submitting) e in
          simp e (begin_submit-Sent web s.wizard s.sent h five k)
      | inr e ↦ simp e k
    ]
happen-Sent web (submit_answer o) s h k = elim (Bool-cases s.wizard.submitting) [
  | inl e ↦ simp e k
  | inr e ↦ simp e k
]

-- In every world that the page reaches from its start, each step of the wizard rests on what comes
-- before it, and every request to initialize so far was sent by a page that had the agreement, a
-- driver, the mark of a tested connection and an account that passes the check, with the payload of
-- that page's form.
pub Reach-Sent :
    (web : Web) (fine : Event → World → Bool) (timezone : Text) {s : World}
    → Reach web fine timezone s
    → IsSound s.wizard × Sent web s.sent
unfolding IsSound Sent opened
Reach-Sent web fine timezone here = ((refl, (refl, refl)), tt)
Reach-Sent web fine timezone (after {s} e r ok) =
    let (h, k) = Reach-Sent web fine timezone r in
    (happen-IsSound web e s h, happen-Sent web e s h k)
