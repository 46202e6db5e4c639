-- ===== src/Setup/Calm.antt =====
-- What the handlers of web/src/pages/setup.tsx leave of the test of a connection.
use nowhere_dash.Base.{
  ◌≡◌, refl, sym, ◌∙◌, Bool, true, false, not, ◌&&◌, ◌⊎◌, inl, inr, Option, none, some, ◌==◌, Text,
  Bool-cases, arith,
}
use nowhere_dash.Setup.Form.{DriverKind, Form, SetupPayload, Web, build_payload, database_of}
use nowhere_dash.Setup.Wizard.{
  Wizard, Field, driver, set_field, put, is_connection, begin_test, end_test, Outcome, done, broken,
  begin_submit, end_submit, accept, driver_next,
}
use nowhere_dash.Setup.Session.{
  World, Event, choose, edit, input_step, forward, backward, choose_driver, agree_next, edit_field,
  test_pressed, answer_to, submit_pressed, submit_answered,
}

-- The connection is not edited while a test runs.
unfoldable pub is_calm : Event → World → Bool
unfolding is_connection
is_calm (edit k) s = not (s.wizard.testing && is_connection k)
is_calm (choose d) s = not s.wizard.testing
is_calm _ s = true

-- A test that succeeded was of this payload, and so is a test that runs.
abbrev Kept : Bool → Bool → SetupPayload → Option SetupPayload → Option SetupPayload → Type 0
Kept ok testing p running proven =
    ((ok ≡ false) ⊎ (proven ≡ some p))
    × (((testing ≡ false) × (running ≡ none)) ⊎ ((testing ≡ true) × (running ≡ some p)))

unfoldable pub IsTested : Web → World → Type 0
IsTested web s =
    Kept s.wizard.test_ok s.wizard.testing (build_payload web s.wizard.form false) s.running
      s.proven

-- Two states of the page that the tests do not tell apart.
abbrev Same : Web → Wizard → Wizard → Type 0
Same web w v =
    (v.test_ok ≡ w.test_ok)
    × ((v.testing ≡ w.testing) × (build_payload web v.form false ≡ build_payload web w.form false))

pub Same-IsTested :
    (web : Web) (s : World) (v : Wizard)
    → Same web s.wizard v
    → IsTested web s
    → IsTested web (record s { wizard = v })
unfolding IsTested
Same-IsTested web s v (ok, (testing, form)) h = simp (ok, testing, form) h

put-payload :
    (web : Web) (k : Field) (f : Form)
    → is_connection k ≡ false
    → build_payload web (put k f) false ≡ build_payload web f false
unfolding build_payload database_of put is_connection
put-payload web k f h = ground arith

pub forward-Same : (web : Web) (w : Wizard) → Same web w (forward w)
unfolding forward driver_next
forward-Same web w = ground arith

pub backward-Same : (web : Web) (w : Wizard) → Same web w (backward w)
unfolding backward
backward-Same web w = ground arith

set_field-IsTested :
    (web : Web) (k : Field) (s : World)
    → (s.wizard.testing && is_connection k) ≡ false
    → IsTested web s
    → IsTested web (record s { wizard = set_field k s.wizard })
unfolding set_field IsTested
set_field-IsTested web k s e (ok, run) = elim (Bool-cases (is_connection k)) [
  | inl c ↦ elim run [
    | inl (t, r) ↦ simp c (inl refl, inl (t, r))
    | inr (t, r) ↦ absurd (clash s.wizard.testing (is_connection k) e t c)
  ]
  | inr c ↦ simp (c, put-payload web k s.wizard.form c) (ok, run)
]
  where
    clash : (a b : Bool) → (a && b) ≡ false → a ≡ true → b ≡ true → ⊥
    clash a b e t c = ground arith

pub agree_next-Same :
    (web : Web) (phrase : Text) (doc : Option Text) (w : Wizard)
    → Same web w (agree_next web phrase doc w)
unfolding agree_next accept set_field put is_connection build_payload database_of
agree_next-Same web phrase none w = ground arith
agree_next-Same web phrase (some version) w = ground arith

begin_submit-Same : (web : Web) (w : Wizard) → Same web w (begin_submit web w).0
unfolding begin_submit
begin_submit-Same web w = ground arith

end_submit-Same : (web : Web) (o : Outcome) (w : Wizard) → Same web w (end_submit o w)
unfolding end_submit
end_submit-Same web o w = ground arith

pub test_pressed-IsTested :
    (web : Web) (s : World) → IsTested web s → IsTested web (test_pressed web s)
unfolding test_pressed begin_test IsTested
test_pressed-IsTested web s h = elim (Bool-cases ((s.wizard.step == 4) && not s.wizard.testing)) [
  | inl e ↦ rw e (inl refl, inr (refl, refl))
  | inr e ↦ rw e h
]

pub clash : (o : Option SetupPayload) (p : SetupPayload) → o ≡ some p → o ≡ none → ⊥
clash o p a b = ground arith

pub answer_to-IsTested :
    (web : Web) (r : Option SetupPayload) (o : Outcome) (s : World)
    → s.running ≡ r
    → IsTested web s
    → IsTested web (answer_to r o s)
unfolding answer_to end_test IsTested
answer_to-IsTested web none o s e h = h
answer_to-IsTested web (some p) (broken message) s e (ok, run) = (ok, inl (refl, refl))
answer_to-IsTested web (some p) done s e (ok, inl (t, r)) = absurd (clash s.running p e r)
answer_to-IsTested web (some p) done s e (ok, inr (t, r)) = (inr (sym e ∙ r), inl (refl, refl))

pub choose_driver-IsTested :
    (web : Web) (d : DriverKind) (s : World)
    → not s.wizard.testing ≡ true
    → IsTested web s
    → IsTested web (record s { wizard = choose_driver d s.wizard })
unfolding choose_driver is_connection
choose_driver-IsTested web d s e h = elim (Bool-cases (s.wizard.step == 3)) [
  | inl k ↦ simp k (set_field-IsTested web (driver d) s (idle s.wizard.testing e) h)
  | inr k ↦ simp k h
]
  where
    idle : (b : Bool) → not b ≡ true → (b && true) ≡ false
    idle b h = ground arith

pub edit_field-IsTested :
    (web : Web) (k : Field) (s : World)
    → not (s.wizard.testing && is_connection k) ≡ true
    → IsTested web s
    → IsTested web (record s { wizard = edit_field k s.wizard })
unfolding edit_field
edit_field-IsTested web k s e h = elim (Bool-cases (s.wizard.step == input_step k)) [
  | inl i ↦ simp i (set_field-IsTested web k s (not-true _ e) h)
  | inr i ↦ simp i h
]
  where
    not-true : (b : Bool) → not b ≡ true → b ≡ false
    not-true b h = ground arith

pub submit_pressed-IsTested :
    (web : Web) (s : World) → IsTested web s → IsTested web (submit_pressed web s)
unfolding submit_pressed IsTested
submit_pressed-IsTested web s h =
    elim (Bool-cases ((s.wizard.step == 5) && not s.wizard.submitting)) [
      | inl e ↦
          simp e
            (Same-IsTested web s ((begin_submit web s.wizard).0) (begin_submit-Same web s.wizard) h)
      | inr e ↦ simp e h
    ]

pub submit_answered-IsTested :
    (web : Web) (o : Outcome) (s : World) → IsTested web s → IsTested web (submit_answered o s)
unfolding submit_answered
submit_answered-IsTested web o s h = elim (Bool-cases s.wizard.submitting) [
  | inl e ↦ simp e (Same-IsTested web s _ (end_submit-Same web o s.wizard) h)
  | inr e ↦ simp e h
]
