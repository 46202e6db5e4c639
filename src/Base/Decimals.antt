-- ===== src/Base/Decimals.antt =====
-- Theorems on the decimal text of a number.
use Prim.Native.Nat.{ℕ, zero, suc, ◌+◌, ◌-◌, ◌*◌, ◌/◌, ◌%◌, ◌<◌}
use mathlib.Core.Path.{◌≡◌, refl, ap, ◌∙◌}
use mathlib.Core.Logic.{inl, inr}
use mathlib.Core.Bool.{true, false}
use mathlib.Core.List.{[], ◌∷◌}
use native.Mathlib.Omega.{arith}
use nowhere_dash.Base.Tests.{ltb, Bool-cases, ltb→lt}
use nowhere_dash.Base.Lists.{all}
use nowhere_dash.Base.Strings.{Text, is_digit, is_digits, digits_value, nat_digits, nat_text}

digits_value-nat_digits :
    (f n : ℕ) (s : Text) → n < f → digits_value 0 (nat_digits f n s) ≡ digits_value n s
unfolding nat_digits digits_value
digits_value-nat_digits zero n s h = absurd (omega arith)
digits_value-nat_digits (suc f) n s h = elim (Bool-cases (ltb n 10)) [
  | inl e ↦ rw e (ap (λ k. digits_value k s) (small n (ltb→lt n 10 e)))
  | inr e ↦ rw e (
      digits_value-nat_digits f (n / 10) ((48 + n % 10) ∷ s) (fewer n f e h)
      ∙ ap (λ k. digits_value k s) (regroup n))
]
  where
    small : (k : ℕ) → k < 10 → 0 * 10 + (48 + k - 48) ≡ k
    small k l = omega arith

    fewer : (k g : ℕ) → ltb k 10 ≡ false → k < suc g → k / 10 < g
    fewer k g l m = ground arith

    regroup : (k : ℕ) → k / 10 * 10 + (48 + k % 10 - 48) ≡ k
    regroup k = omega arith

-- `Number(String(n))`.
pub digits_value-nat_text : (n : ℕ) → digits_value 0 (nat_text n) ≡ n
unfolding nat_text
digits_value-nat_text n =
    digits_value-nat_digits (suc n) n [] (omega arith) ∙ unfold digits_value in refl

is_digits-nat_digits :
    (f n : ℕ) (s : Text) → n < f → all is_digit s ≡ true → is_digits (nat_digits f n s) ≡ true
unfolding nat_digits
is_digits-nat_digits zero n s h a = absurd (omega arith)
is_digits-nat_digits (suc f) n s h a = elim (Bool-cases (ltb n 10)) [
  | inl e ↦ rw e (digit_front n s (ltb→lt n 10 e) a)
  | inr e ↦ rw e (
      is_digits-nat_digits f (n / 10) ((48 + n % 10) ∷ s) (fewer n f e h)
        (digit_front (n % 10) s (omega arith) a))
]
  where
    fewer : (k g : ℕ) → ltb k 10 ≡ false → k < suc g → k / 10 < g
    fewer k g l m = ground arith

    digit_front :
        (k : ℕ) (t : Text) → k < 10 → all is_digit t ≡ true → all is_digit ((48 + k) ∷ t) ≡ true
    digit_front k t l b = ground arith

pub is_digits-nat_text : (n : ℕ) → is_digits (nat_text n) ≡ true
unfolding nat_text
is_digits-nat_text n = is_digits-nat_digits (suc n) n [] (omega arith) refl
