-- ===== src/Billing/Plan.antt =====
-- `billingPayload` and `billingError` of web/src/lib/endpoint-billing.ts.
use nowhere_dash.Base.{
  ℕ, Bool, true, false, not, ◌&&◌, ◌||◌, [], ◌∷◌, Option, none, some, ◌==◌, ltb, leb, if◌then◌else◌,
  Text, trim, truthy, is_digit, unit_length,
}

pub record Form : Type 0 where
  pub traffic_reset_date : Text
  pub amount : Text
  pub monthly_traffic_gib : Text
  pub traffic_reset_day : Text
  pub traffic_reset_time : Text
  pub traffic_reset_timezone : Text
  pub auto_reset_traffic : Bool

-- A number of the language: a natural one, or any other, `NaN` and fractions included.
pub data Number : Type 0 where
  natural : ℕ → Number
  other : Number

-- `Math.round(Number(text) * 1024 ** 3)`, `Number(text)`, whether `new Date(text)` is a date, and
-- whether `Intl` knows a time zone.
pub record Web : Type 0 where
  pub gib_bytes : Text → Number
  pub number : Text → Number
  pub is_date : Text → Bool
  pub is_zone : Text → Bool

pub record Plan : Type 0 where
  pub traffic_reset_date : Text
  pub amount : Text
  pub monthly_traffic_limit : Option Number
  pub traffic_reset_day : Number
  pub traffic_reset_time : Text
  pub traffic_reset_timezone : Text
  pub auto_reset_traffic : Bool

unfoldable pub has_traffic_limit : Form → Bool
unfolding trim
has_traffic_limit f = truthy (trim f.monthly_traffic_gib)

unfoldable pub billing_payload : Web → Form → Plan
unfolding trim
billing_payload web f = record {
  traffic_reset_date = (if has_traffic_limit f then f.traffic_reset_date else []);
  amount = f.amount;
  monthly_traffic_limit =
      (if has_traffic_limit f then some (web.gib_bytes f.monthly_traffic_gib) else none);
  traffic_reset_day = web.number f.traffic_reset_day;
  traffic_reset_time = f.traffic_reset_time;
  traffic_reset_timezone = trim f.traffic_reset_timezone;
  auto_reset_traffic = has_traffic_limit f && f.auto_reset_traffic;
}

-- `/^\d{4}-\d{2}-\d{2}$/`.
unfoldable pub date_test : Text → Bool
date_test (a ∷ b ∷ c ∷ d ∷ e ∷ f ∷ g ∷ h ∷ i ∷ j ∷ []) =
    (is_digit a && is_digit b && is_digit c && is_digit d)
    && (e == b'-')
    && (is_digit f && is_digit g)
    && (h == b'-')
    && (is_digit i && is_digit j)
date_test _ = false

-- `/^([01]\d|2[0-3]):[0-5]\d$/`.
unfoldable pub time_test : Text → Bool
time_test (a ∷ b ∷ c ∷ d ∷ e ∷ []) =
    ((((a == b'0') || (a == b'1')) && is_digit b) || ((a == b'2') && leb b'0' b && leb b b'3'))
    && (c == b':')
    && (leb b'0' d && leb d b'5')
    && is_digit e
time_test _ = false

-- `Number.MAX_SAFE_INTEGER`.
abbrev pub max_safe_integer : ℕ
max_safe_integer = 9007199254740991

-- `!Number.isSafeInteger(limit) || limit <= 0`.
abbrev pub is_bad_limit : Number → Bool
is_bad_limit other = true
is_bad_limit (natural n) = ltb max_safe_integer n || ltb n 1

-- `!Number.isInteger(day) || day < 1 || day > 31`.
abbrev pub is_bad_day : Number → Bool
is_bad_day other = true
is_bad_day (natural n) = ltb n 1 || ltb 31 n

pub data Problem : Type 0 where
  invalid_schedule invalid_amount invalid_limit invalid_timezone : Problem

-- The tests on the limit, where there is one.
abbrev pub limit_refused : Option Number → Bool → Bool
limit_refused none auto = auto
limit_refused (some limit) auto = is_bad_limit limit

abbrev pub date_refused : Web → Option Number → Text → Bool
date_refused web none date = false
date_refused web (some limit) date = not (date_test date) || not (web.is_date date)

unfoldable pub billing_error : Web → Form → Option Problem
unfolding billing_payload unit_length
billing_error web f =
    let plan = billing_payload web f in
    if date_refused web plan.monthly_traffic_limit f.traffic_reset_date
    then some invalid_schedule
    else if ltb 200 (unit_length plan.amount)
    then some invalid_amount
    else if limit_refused plan.monthly_traffic_limit plan.auto_reset_traffic
    then some invalid_limit
    else if is_bad_day plan.traffic_reset_day || not (time_test plan.traffic_reset_time)
    then some invalid_schedule
    else if not (web.is_zone plan.traffic_reset_timezone)
    then some invalid_timezone
    else none
