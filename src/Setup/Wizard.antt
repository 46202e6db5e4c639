-- ===== src/Setup/Wizard.antt =====
-- `SetupPage` of web/src/pages/setup.tsx: its state, its handlers split at each `await`, and the
-- buttons of its steps.
use nowhere_dash.Base.{
  ℕ, zero, suc, ◌-◌, Bool, true, false, not, [], Option, none, some, ◌==◌, if◌then◌else◌, Text,
  trim, text_eq,
}
use nowhere_dash.Setup.Form.{
  DriverKind, Form, initial_form, Web, SetupPayload, build_payload, AdminErrors, no_errors,
  admin_errors_of, no_keys,
}

-- `step` is 1 to 5; `left` says that the page has gone to `/login`.
pub record Wizard : Type 0 where
  pub step : ℕ
  pub form : Form
  pub testing : Bool
  pub test_ok : Bool
  pub test_error : Text
  pub submitting : Bool
  pub submit_error : Text
  pub admin_errors : AdminErrors
  pub countdown : Option ℕ
  pub left : Bool

unfoldable pub initial : Text → Wizard
unfolding initial_form
initial timezone = record {
  step = 1;
  form = initial_form timezone;
  testing = false;
  test_ok = false;
  test_error = [];
  submitting = false;
  submit_error = [];
  admin_errors = no_errors;
  countdown = none;
  left = false;
}

-- The arguments of `setField`: a key and a value of its type.
pub data Field : Type 0 where
  driver : DriverKind → Field
  sqlite_path : Text → Field
  sqlite_wal : Bool → Field
  pg_host : Text → Field
  pg_port : Text → Field
  pg_database : Text → Field
  pg_user : Text → Field
  pg_password : Text → Field
  pg_ssl : Text → Field
  pg_timezone : Text → Field
  admin_user : Text → Field
  admin_pass : Text → Field
  admin_confirm : Text → Field
  admin_ack : Bool → Field
  compliance_version : Text → Field
  compliance_accepted : Bool → Field

-- `{ ...prev, [key]: value }`.
unfoldable pub put : Field → Form → Form
put (driver d) f = record f { driver = some d }
put (sqlite_path v) f = record f { sqlite_path = v }
put (sqlite_wal v) f = record f { sqlite_wal = v }
put (pg_host v) f = record f { pg_host = v }
put (pg_port v) f = record f { pg_port = v }
put (pg_database v) f = record f { pg_database = v }
put (pg_user v) f = record f { pg_user = v }
put (pg_password v) f = record f { pg_password = v }
put (pg_ssl v) f = record f { pg_ssl = v }
put (pg_timezone v) f = record f { pg_timezone = v }
put (admin_user v) f = record f { admin_user = v }
put (admin_pass v) f = record f { admin_pass = v }
put (admin_confirm v) f = record f { admin_confirm = v }
put (admin_ack v) f = record f { admin_ack = v }
put (compliance_version v) f = record f { compliance_version = v }
put (compliance_accepted v) f = record f { compliance_accepted = v }

-- The list of keys that a test of the connection depends on.
unfoldable pub is_connection : Field → Bool
is_connection (admin_user v) = false
is_connection (admin_pass v) = false
is_connection (admin_confirm v) = false
is_connection (admin_ack v) = false
is_connection (compliance_version v) = false
is_connection (compliance_accepted v) = false
is_connection _ = true

unfoldable pub set_field : Field → Wizard → Wizard
unfolding put is_connection
set_field k w = record w {
  form = put k w.form;
  test_ok = (if is_connection k then false else w.test_ok);
  test_error = (if is_connection k then [] else w.test_error);
}

-- How a request of the wizard ends.
pub data Outcome : Type 0 where
  done : Outcome
  broken : Text → Outcome

-- `handleTest` up to its request, and after it.
unfoldable pub begin_test : Wizard → Wizard
begin_test w = record w { testing = true; test_ok = false; test_error = [] }

unfoldable pub end_test : Outcome → Wizard → Wizard
end_test done w = record w { test_ok = true; testing = false }
end_test (broken message) w = record w { test_error = message; testing = false }

-- `handleSubmit` up to its request, with the payload of the request, and after it.
unfoldable pub begin_submit : Web → Wizard → Wizard × Option SetupPayload
unfolding admin_errors_of no_keys build_payload
begin_submit web w =
    let checked = record w { admin_errors = admin_errors_of w.form } in
    if not (no_keys checked.admin_errors) then (checked, none) else (
      record checked { submitting = true; submit_error = [] },
      some (build_payload web w.form true),
    )

unfoldable pub end_submit : Outcome → Wizard → Wizard
end_submit done w = record w { countdown = some 5; submitting = false }
end_submit (broken message) w = record w { submit_error = message; submitting = false }

-- The effect of the countdown, which leaves at 0 and otherwise waits a second, and its timer.
unfoldable pub count_from : Option ℕ → Wizard → Wizard
count_from none w = w
count_from (some n) w = if n == 0 then record w { left = true } else w

unfoldable pub tick : Wizard → Wizard
tick w = record w { countdown = elim w.countdown [ none ↦ none | some n ↦ some (n - 1) ] }

-- `handleNext` of the step of the agreement, by the phrase typed and the version that was loaded.
unfoldable pub accept : Web → Text → Option Text → Wizard → Wizard
unfolding set_field trim text_eq
accept web phrase none w = w
accept web phrase (some version) w =
    if text_eq (trim phrase) (trim web.required_phrase)
    then record (set_field (compliance_accepted true) (set_field (compliance_version version) w)) {
      step = 3;
    }
    else w

-- `form.driver && setStep(4)`.
unfoldable pub driver_next : Wizard → Wizard
driver_next w = elim w.form.driver [ none ↦ w | some d ↦ record w { step = 4 } ]

-- One run of the countdown's effect and the timer that it sets, and several.
unfoldable pub second : Wizard → Wizard
unfolding count_from tick
second w = tick (count_from w.countdown w)

unfoldable pub seconds : ℕ → Wizard → Wizard
unfolding second
seconds zero w = w
seconds (suc n) w = seconds n (second w)
