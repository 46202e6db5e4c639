-- ===== src/Base/Strings.antt =====
-- JavaScript strings as lists of Unicode code points, and the string methods that the code calls.
-- A string with a lone surrogate is not represented.
use Prim.Native.Nat.{ℕ, zero, suc, ◌+◌, ◌-◌, ◌*◌, ◌/◌, ◌%◌}
use Prim.Native.Char.{code}
use Prim.Native.String.{String}
use mathlib.Core.Path.{◌≡◌, refl, ap}
use mathlib.Core.Logic.{◌↔◌, ◌≢◌}
use mathlib.Core.Bool.{Bool, true, false, ◌&&◌, ◌||◌}
use mathlib.Core.List.{List, [], ◌∷◌, ◌++◌, reverse}
use native.Mathlib.Omega.{arith}
use mathlib.Core.Option.{Option, none, some}
use nowhere_dash.Base.Tests.{ltb, leb, ◌==◌, if◌then◌else◌}
use nowhere_dash.Base.Lists.{All, all}

abbrev pub Text : Type 0
Text = List ℕ

-- The code points of a literal.
abbrev pub codes : String → Text
codes String.[] = []
codes (String.◌∷◌ c s) = code c ∷ codes s

-- `===` on strings.
unfoldable pub text_eq : Text → Text → Bool
text_eq [] [] = true
text_eq (x ∷ xs) (y ∷ ys) = x == y && text_eq xs ys
text_eq _ _ = false

pub text_eq_iff : (a b : Text) → (text_eq a b ≡ true) ↔ (a ≡ b)
unfolding text_eq
text_eq_iff (x ∷ a) (y ∷ b) = ground (arith, text_eq_iff a b)
text_eq_iff _ _ = ground arith

pub text_eq_refl : (a : Text) → text_eq a a ≡ true
text_eq_refl a = (text_eq_iff a a).1 refl

-- The truth value of a string: `""` is falsy.
abbrev pub truthy : Text → Bool
truthy [] = false
truthy (_ ∷ _) = true

-- `a || b` on strings.
abbrev pub text_or : Text → Text → Text
text_or [] b = b
text_or (c ∷ s) b = c ∷ s

abbrev pub is_digit : ℕ → Bool
is_digit c = leb b'0' c && leb c b'9'

-- The white space of `\s` and of `trim`.
abbrev pub is_space : ℕ → Bool
is_space c =
    (leb 9 c && leb c 13)
    || c == 32
    || c == 160
    || c == 5760
    || (leb 8192 c && leb c 8202)
    || c == 8232
    || c == 8233
    || c == 8239
    || c == 8287
    || c == 12288
    || c == 65279

-- `s.includes(c)` for one character.
unfoldable pub has_char : ℕ → Text → Bool
has_char c [] = false
has_char c (d ∷ s) = c == d || has_char c s

unfoldable pub starts_with : Text → Text → Bool
starts_with s [] = true
starts_with [] (p ∷ ps) = false
starts_with (c ∷ s) (p ∷ ps) = c == p && starts_with s ps

unfoldable pub ends_with : Text → ℕ → Bool
ends_with [] c = false
ends_with (d ∷ []) c = d == c
ends_with (d ∷ e ∷ s) c = ends_with (e ∷ s) c

-- `s.includes(needle)`.
unfoldable pub includes : Text → Text → Bool
unfolding starts_with
includes [] needle = starts_with [] needle
includes (c ∷ s) needle = starts_with (c ∷ s) needle || includes s needle

-- `text.length`, which counts a code point above the first plane twice.
unfoldable pub unit_length : Text → ℕ
unit_length [] = 0
unit_length (c ∷ s) = (if ltb c 65536 then 1 else 2) + unit_length s

unfoldable pub is_member : Text → List Text → Bool
unfolding text_eq
is_member a [] = false
is_member a (b ∷ bs) = text_eq a b || is_member a bs

pub text_eq-ne : (a b c : Text) → text_eq a b ≡ true → text_eq a c ≡ text_eq b c
text_eq-ne a b c h = ap (λ t. text_eq t c) ((text_eq_iff a b).0 h)

pub is_member-append :
    (u : Text) (xs ys : List Text) → is_member u (xs ++ ys) ≡ (is_member u xs || is_member u ys)
unfolding is_member
is_member-append u [] ys = refl
is_member-append u (x ∷ xs) ys = let ih = is_member-append u xs ys in ground arith

unfoldable pub trim_start : Text → Text
trim_start [] = []
trim_start (c ∷ s) = if is_space c then trim_start s else c ∷ s

unfoldable pub trim : Text → Text
unfolding trim_start
trim s = reverse (trim_start (reverse (trim_start s)))

-- Puts a character in front of the first part.
abbrev pub extend : ℕ → List Text → List Text
extend c [] = (c ∷ []) ∷ []
extend c (p ∷ ps) = (c ∷ p) ∷ ps

-- `s.split(sep)` for a separator of one character.
unfoldable pub split : ℕ → Text → List Text
split sep [] = [] ∷ []
split sep (c ∷ s) = if c == sep then [] ∷ split sep s else extend c (split sep s)

-- `parts.join(sep)`.
unfoldable pub join : Text → List Text → Text
join sep [] = []
join sep (p ∷ []) = p
join sep (p ∷ q ∷ ps) = p ++ sep ++ join sep (q ∷ ps)

-- What stands before the first `c`, and what after it, if it stands in the text.
unfoldable pub before_char : ℕ → Text → Text
before_char c [] = []
before_char c (d ∷ s) = if d == c then [] else d ∷ before_char c s

unfoldable pub after_char : ℕ → Text → Option Text
after_char c [] = none
after_char c (d ∷ s) = if d == c then some s else after_char c s

-- `/^\d+$/`.
abbrev pub is_digits : Text → Bool
is_digits s = truthy s && all is_digit s

-- `Number(s)` for a string of decimal digits.
unfoldable pub digits_value : ℕ → Text → ℕ
digits_value n [] = n
digits_value n (c ∷ s) = digits_value (n * 10 + (c - b'0')) s

-- The decimal digits of a number in front of a text, for more fuel than the number.
unfoldable pub nat_digits : ℕ → ℕ → Text → Text
nat_digits zero n s = s
nat_digits (suc f) n s =
    let rest = nat_digits f (n / 10) ((48 + n % 10) ∷ s) in if ltb n 10 then (48 + n) ∷ s else rest

-- `String(n)` for an integer.
unfoldable pub nat_text : ℕ → Text
unfolding nat_digits
nat_text n = nat_digits (suc n) n []

-- No code point of the text is `c`.
abbrev pub Lacks : ℕ → Text → Type 0
Lacks c = All (λ d. d ≢ c)
