-- ===== src/Billing/Times.antt =====
-- The times of the day that web/src/lib/endpoint-billing.ts accepts.
use mathlib.Core.Bool.{false≢true}
use nowhere_dash.Base.{ℕ, ◌-◌, ap, ◌∙◌, ◌+◌, ◌*◌, ◌≤◌, ◌<◌, true, [], ◌∷◌, Text, ◌≡◌, arith}
use nowhere_dash.Billing.Plan.{time_test}

-- A time of the day in four digits.
pub record IsTime (s : Text) : Type 0 where
  pub tens : ℕ
  pub ones : ℕ
  pub minute_tens : ℕ
  pub minute_ones : ℕ
  pub one_digit : ones ≤ 9
  pub minute_digits : (minute_tens ≤ 9) × (minute_ones ≤ 9)
  pub hour : tens * 10 + ones < 24
  pub minute : minute_tens * 10 + minute_ones < 60
  pub text : s ≡ (48 + tens) ∷ (48 + ones) ∷ 58 ∷ (48 + minute_tens) ∷ (48 + minute_ones) ∷ []

-- The digits of a time that passes the test.
Digits : (a b c d e : ℕ) → Type 0
Digits a b c d e =
    ((48 ≤ a) × ((48 ≤ b) × (b ≤ 57)))
    × (((a - 48) * 10 + (b - 48) < 24)
        × ((c ≡ 58) × (((48 ≤ d) × (d ≤ 53)) × ((48 ≤ e) × (e ≤ 57)))))

time-Digits : (a b c d e : ℕ) → time_test (a ∷ b ∷ c ∷ d ∷ e ∷ []) ≡ true → Digits a b c d e
unfolding time_test Digits
time-Digits a b c d e h = ground arith

Digits-text :
    (a b c d e : ℕ)
    → Digits a b c d e
    → a ∷ b ∷ c ∷ d ∷ e ∷ []
      ≡ (48 + (a - 48)) ∷ (48 + (b - 48)) ∷ 58 ∷ (48 + (d - 48)) ∷ (48 + (e - 48)) ∷ []
unfolding Digits
Digits-text a b c d e h = ground arith

pub time_test-IsTime : (s : Text) → time_test s ≡ true → IsTime s
unfolding Digits time_test
time_test-IsTime (a ∷ b ∷ c ∷ d ∷ e ∷ []) h =
    let k = time-Digits a b c d e h in
    record {
      tens = a - 48;
      ones = b - 48;
      minute_tens = d - 48;
      minute_ones = e - 48;
      one_digit = omega arith;
      minute_digits = (omega arith, omega arith);
      hour = k.1.0;
      minute = omega arith;
      text = Digits-text a b c d e k;
    }
time_test-IsTime [] h = absurd (false≢true h)
time_test-IsTime (a ∷ []) h = absurd (false≢true h)
time_test-IsTime (a ∷ b ∷ []) h = absurd (false≢true h)
time_test-IsTime (a ∷ b ∷ c ∷ []) h = absurd (false≢true h)
time_test-IsTime (a ∷ b ∷ c ∷ d ∷ []) h = absurd (false≢true h)
time_test-IsTime (a ∷ b ∷ c ∷ d ∷ e ∷ f ∷ s) h = absurd (false≢true h)

time_passes :
    (x y z w : ℕ)
    → y ≤ 9
    → w ≤ 9
    → z ≤ 9
    → x * 10 + y < 24
    → z * 10 + w < 60
    → time_test ((48 + x) ∷ (48 + y) ∷ 58 ∷ (48 + z) ∷ (48 + w) ∷ []) ≡ true
unfolding time_test
time_passes x y z w a b c h m = ground arith

pub IsTime-time_test : (s : Text) → IsTime s → time_test s ≡ true
IsTime-time_test s t =
    ap time_test t.text
    ∙ time_passes t.tens t.ones t.minute_tens t.minute_ones t.one_digit t.minute_digits.1
        t.minute_digits.0 t.hour t.minute
