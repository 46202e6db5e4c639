-- ===== src/Setup/Session.antt =====
-- A run of the wizard of web/src/pages/setup.tsx: what the user may press in each step, and the
-- answers of the server.
use nowhere_dash.Base.{
  ℕ, ◌≡◌, Bool, true, false, not, ◌&&◌, List, [], ◌∷◌, Option, none, some, ◌==◌, if◌then◌else◌,
  Text,
}
use nowhere_dash.Setup.Form.{DriverKind, SetupPayload, Web, build_payload}
use nowhere_dash.Setup.Wizard.{
  Wizard, Field, driver, sqlite_path, compliance_version, compliance_accepted, initial,
  is_connection, set_field, begin_test, end_test, Outcome, done, begin_submit, end_submit, accept,
  driver_next,
}

-- A request to initialize: the page when `submit` ran, and the payload.
abbrev pub Request : Type 0
Request = Wizard × SetupPayload

-- The page with the payload of the test that has no answer yet, the last payload that the server
-- has connected by, and the requests to initialize so far, the newest first.
pub record World : Type 0 where
  pub wizard : Wizard
  pub running : Option SetupPayload
  pub proven : Option SetupPayload
  pub sent : List Request

unfoldable pub opened : Text → World
unfolding initial
opened timezone = record { wizard = initial timezone; running = none; proven = none; sent = [] }

pub data Event : Type 0 where
  agree : Text → Option Text → Event
  choose : DriverKind → Event
  edit : Field → Event
  next back : Event
  press_test : Event
  test_answer : Outcome → Event
  press_submit : Event
  submit_answer : Outcome → Event

-- The step that has an input for a key; 0 stands for none.
unfoldable pub input_step : Field → ℕ
unfolding is_connection
input_step (driver d) = 0
input_step (sqlite_path v) = 0
input_step (compliance_version v) = 0
input_step (compliance_accepted v) = 0
input_step k = if is_connection k then 4 else 5

-- The buttons of the steps, in the first, third and fourth step.
unfoldable pub forward : Wizard → Wizard
unfolding driver_next
forward w =
    if w.step == 1
    then record w { step = 2 }
    else if w.step == 3
    then driver_next w
    else if (w.step == 4) && w.test_ok
    then record w { step = 5 }
    else w

unfoldable pub backward : Wizard → Wizard
backward w =
    if w.step == 2
    then record w { step = 1 }
    else if w.step == 3
    then record w { step = 2 }
    else if w.step == 4
    then record w { step = 3 }
    else if (w.step == 5) && not w.submitting
    then record w { step = 4 }
    else w

unfoldable pub choose_driver : DriverKind → Wizard → Wizard
unfolding set_field
choose_driver d w = if w.step == 3 then set_field (driver d) w else w

unfoldable pub agree_next : Web → Text → Option Text → Wizard → Wizard
unfolding accept
agree_next web phrase doc w = if w.step == 2 then accept web phrase doc w else w

unfoldable pub edit_field : Field → Wizard → Wizard
unfolding set_field input_step
edit_field k w = if w.step == input_step k then set_field k w else w

-- A button that shows a spinner cannot be pressed.
unfoldable pub test_pressed : Web → World → World
unfolding begin_test
test_pressed web s =
    if (s.wizard.step == 4) && not s.wizard.testing
    then record s {
      wizard = begin_test s.wizard;
      running = some (build_payload web s.wizard.form false);
    }
    else s

unfoldable pub answer_to : Option SetupPayload → Outcome → World → World
unfolding end_test
answer_to none o s = s
answer_to (some p) o s = record s {
  wizard = end_test o s.wizard;
  running = none;
  proven = elim o [ done ↦ some p | _ ↦ s.proven ];
}

unfoldable pub test_answered : Outcome → World → World
unfolding answer_to
test_answered o s = answer_to s.running o s

abbrev pub record_sent : Wizard → Option SetupPayload → List Request → List Request
record_sent w none old = old
record_sent w (some p) old = (w, p) ∷ old

unfoldable pub submit_pressed : Web → World → World
unfolding begin_submit
submit_pressed web s =
    if (s.wizard.step == 5) && not s.wizard.submitting
    then record s {
      wizard = (begin_submit web s.wizard).0;
      sent = record_sent s.wizard (begin_submit web s.wizard).1 s.sent;
    }
    else s

unfoldable pub submit_answered : Outcome → World → World
unfolding end_submit
submit_answered o s = if s.wizard.submitting then record s { wizard = end_submit o s.wizard } else s

unfoldable pub happen : Web → Event → World → World
happen web (agree phrase doc) s = record s { wizard = agree_next web phrase doc s.wizard }
happen web (choose d) s = record s { wizard = choose_driver d s.wizard }
happen web (edit k) s = record s { wizard = edit_field k s.wizard }
happen web next s = record s { wizard = forward s.wizard }
happen web back s = record s { wizard = backward s.wizard }
happen web press_test s = test_pressed web s
happen web (test_answer o) s = test_answered o s
happen web press_submit s = submit_pressed web s
happen web (submit_answer o) s = submit_answered o s

-- The worlds that events which satisfy a test lead to.
pub data Reach (web : Web) (fine : Event → World → Bool) (timezone : Text) : World → Type 0 where
  here : Reach web fine timezone (opened timezone)
  after :
      {s : World}
      → (e : Event) → Reach web fine timezone s
      → fine e s ≡ true
      → Reach web fine timezone (happen web e s)
