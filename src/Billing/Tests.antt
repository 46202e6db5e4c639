-- ===== src/Billing/Tests.antt =====
-- A traffic plan of an endpoint.
use nowhere_dash.Base.{true, none, some, codes, digits_value, text_eq, ◌≡◌, ◌↔◌, refl}
use nowhere_dash.Billing.Plan.{
  has_traffic_limit, Form, Web, natural, billing_error, has_traffic_limit, invalid_limit,
  invalid_schedule, time_test, date_test,
}
use nowhere_dash.Billing.Accepted.{IsAccepted, billing_error_iff}

abbrev web : Web
web = record {
  gib_bytes = λ s. natural (digits_value 0 s);
  number = λ s. natural (digits_value 0 s);
  is_date = λ s. true;
  is_zone = λ s. text_eq s (codes "UTC");
}

abbrev monthly : Form
monthly = record {
  traffic_reset_date = codes "2030-01-31";
  amount = codes "5 EUR";
  monthly_traffic_gib = codes "100";
  traffic_reset_day = codes "31";
  traffic_reset_time = codes "23:59";
  traffic_reset_timezone = codes " UTC";
  auto_reset_traffic = true;
}

billing_error_iff_example : (billing_error web monthly ≡ none) ↔ IsAccepted web monthly
billing_error_iff_example = billing_error_iff web monthly

monthly_accepted : billing_error web monthly ≡ none
unfolding billing_error has_traffic_limit date_test digits_value time_test text_eq
monthly_accepted = refl

late_refused :
    billing_error web (record monthly { traffic_reset_time = codes "24:00" })
    ≡ some invalid_schedule
unfolding billing_error has_traffic_limit date_test digits_value time_test text_eq
late_refused = refl

empty_refused :
    billing_error web (record monthly { monthly_traffic_gib = codes "0" }) ≡ some invalid_limit
unfolding billing_error has_traffic_limit date_test digits_value time_test text_eq
empty_refused = refl
