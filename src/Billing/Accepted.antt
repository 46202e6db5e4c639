-- ===== src/Billing/Accepted.antt =====
-- The plans that `billingError` of web/src/lib/endpoint-billing.ts accepts.
use mathlib.Core.Bool.{false≢true}
use nowhere_dash.Base.{
  sym, ℕ, ◌≤◌, Bool, true, false, not, ◌||◌, ◌⊎◌, inl, inr, none, some, ltb, if◌then◌else◌, trim,
  unit_length, ◌≡◌, ◌↔◌, refl, arith, Bool-cases,
}
use nowhere_dash.Billing.Plan.{
  Form, Number, natural, other, Web, has_traffic_limit, billing_payload, date_test, time_test,
  invalid_schedule, invalid_amount, invalid_limit, invalid_timezone, max_safe_integer, is_bad_limit,
  is_bad_day, limit_refused, date_refused, billing_error,
}
use nowhere_dash.Billing.Times.{IsTime, time_test-IsTime, IsTime-time_test}

-- The traffic limit is not given, or it is a positive safe number of bytes with a date to start on.
pub IsLimited : Web → Form → Type 0
IsLimited web f =
    (has_traffic_limit f ≡ false)
    ⊎ ((has_traffic_limit f ≡ true)
        × ((n : ℕ) × ((web.gib_bytes f.monthly_traffic_gib ≡ natural n)
              × (((1 ≤ n) × (n ≤ 9007199254740991))
                  × ((date_test f.traffic_reset_date ≡ true)
                      × (web.is_date f.traffic_reset_date ≡ true))))))

-- A plan within the limits of the form.
pub record IsAccepted (web : Web) (f : Form) : Type 0 where
  pub limited : IsLimited web f
  pub amount : unit_length f.amount ≤ 200
  pub day : (n : ℕ) × ((web.number f.traffic_reset_day ≡ natural n) × ((1 ≤ n) × (n ≤ 31)))
  pub time : IsTime f.traffic_reset_time
  pub zone : web.is_zone (trim f.traffic_reset_timezone) ≡ true

all_pass :
    (a b c d e : Bool)
    → (if a
        then some invalid_schedule
        else if b
        then some invalid_amount
        else if c
        then some invalid_limit
        else if d
        then some invalid_schedule
        else if e
        then some invalid_timezone
        else none)
      ≡ none
    → (a ≡ false) × ((b ≡ false) × ((c ≡ false) × ((d ≡ false) × (e ≡ false))))
all_pass a b c d e h = ground arith

none_refuses :
    (a b c d e : Bool)
    → a ≡ false
    → b ≡ false
    → c ≡ false
    → d ≡ false
    → e ≡ false
    → (if a
        then some invalid_schedule
        else if b
        then some invalid_amount
        else if c
        then some invalid_limit
        else if d
        then some invalid_schedule
        else if e
        then some invalid_timezone
        else none)
      ≡ none
none_refuses a b c d e p q r s t = rw (p, q, r, s, t) refl

good_day : (d : Number) → is_bad_day d ≡ false → (n : ℕ) × ((d ≡ natural n) × ((1 ≤ n) × (n ≤ 31)))
good_day (natural n) h = (n, (refl, ground arith))
good_day other h = absurd (false≢true (sym h))

good_limit :
    (l : Number)
    → is_bad_limit l ≡ false
    → (n : ℕ) × ((l ≡ natural n) × ((1 ≤ n) × (n ≤ 9007199254740991)))
good_limit (natural n) h = (n, (refl, ground arith))
good_limit other h = absurd (false≢true (sym h))

IsLimited-of :
    (web : Web) (f : Form)
    → date_refused web (billing_payload web f).monthly_traffic_limit f.traffic_reset_date ≡ false
    → limit_refused
        (billing_payload web f).monthly_traffic_limit
        (billing_payload web f).auto_reset_traffic
      ≡ false
    → IsLimited web f
unfolding billing_payload IsLimited
IsLimited-of web f d l = elim (Bool-cases (has_traffic_limit f)) [
  | inl h ↦
      let (dated, is_date) = both_pass _ _ (rw h at d) in
      let (n, (e, range)) = good_limit (web.gib_bytes f.monthly_traffic_gib) (rw h at l) in
      inr (h, (n, (e, (range, (dated, is_date)))))
  | inr h ↦ inl h
]
  where
    both_pass : (a b : Bool) → (not a || not b) ≡ false → (a ≡ true) × (b ≡ true)
    both_pass a b h = ground arith

error-IsAccepted : (web : Web) (f : Form) → billing_error web f ≡ none → IsAccepted web f
unfolding billing_error billing_payload
error-IsAccepted web f h =
    let (a, (b, (c, (d, e)))) = all_pass _ _ _ _ _ h in
    let (day, time) = or_fails _ _ d in
    record {
      limited = IsLimited-of web f a c;
      amount = short (unit_length f.amount) b;
      day = good_day (web.number f.traffic_reset_day) day;
      time = time_test-IsTime f.traffic_reset_time (not_fails _ time);
      zone = not_fails _ e;
    }
  where
    or_fails : (a b : Bool) → (a || b) ≡ false → (a ≡ false) × (b ≡ false)
    or_fails a b h = ground arith

    not_fails : (a : Bool) → not a ≡ false → a ≡ true
    not_fails a h = ground arith

    short : (n : ℕ) → ltb 200 n ≡ false → n ≤ 200
    short n h = ground arith

limit_passes :
    (web : Web) (f : Form)
    → IsLimited web f
    → (date_refused web (billing_payload web f).monthly_traffic_limit f.traffic_reset_date ≡ false)
      × (limit_refused
            (billing_payload web f).monthly_traffic_limit
            (billing_payload web f).auto_reset_traffic
          ≡ false)
unfolding billing_payload IsLimited
limit_passes web f (inl h) = rw h (refl, refl)
limit_passes web f (inr (h, (n, (e, ((low, high), (dated, is_date)))))) =
    rw (h, e, dated, is_date) (refl, in_range n low high)
  where
    in_range : (n : ℕ) → 1 ≤ n → n ≤ 9007199254740991 → (ltb max_safe_integer n || ltb n 1) ≡ false
    in_range n low high = ground arith

IsAccepted-error : (web : Web) (f : Form) → IsAccepted web f → billing_error web f ≡ none
unfolding billing_error billing_payload
IsAccepted-error web f v =
    let (dated, limited) = limit_passes web f v.limited in
    none_refuses _ _ _ _ _ dated (fits (unit_length f.amount) v.amount) limited
      (day_passes (web.number f.traffic_reset_day) (time_test f.traffic_reset_time) v.day
        (IsTime-time_test f.traffic_reset_time v.time))
      (known (web.is_zone (trim f.traffic_reset_timezone)) v.zone)
  where
    fits : (n : ℕ) → n ≤ 200 → ltb 200 n ≡ false
    fits n h = ground arith

    known : (b : Bool) → b ≡ true → not b ≡ false
    known b h = ground arith

    in_month : (n : ℕ) → 1 ≤ n → n ≤ 31 → (ltb n 1 || ltb 31 n) ≡ false
    in_month n low high = ground arith

    day_passes :
        (d : Number) (t : Bool)
        → (n : ℕ) × ((d ≡ natural n) × ((1 ≤ n) × (n ≤ 31)))
        → t ≡ true
        → (is_bad_day d || not t) ≡ false
    day_passes d t (n, (e, (low, high))) h = rw (e, h, in_month n low high) refl

-- `billingError` returns null exactly on the forms with a limit that is not given or positive, safe
-- and dated, an amount of at most 200 characters, a day from 1 to 31, a time of the day and a known
-- time zone.
pub billing_error_iff : (web : Web) (f : Form) → (billing_error web f ≡ none) ↔ IsAccepted web f
billing_error_iff web f = (error-IsAccepted web f, IsAccepted-error web f)
