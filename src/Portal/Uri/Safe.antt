-- ===== src/Portal/Uri/Safe.antt =====
-- The characters of an encoded component.
use mathlib.Core.List.{flat_map, append-nil, append_assoc}
use nowhere_dash.Base.{
  ℕ, ◌/◌, ◌%◌, ◌<◌, Bool, true, false, ◌||◌, List, [], ◌∷◌, ◌++◌, ◌≡◌, refl, ◌∙◌, ap, arith, ◌==◌,
  Text, All, All-append, inl, inr, Bool-cases,
}
use nowhere_dash.Portal.Uri.{
  utf8, percent, percents, is_scalar, encode_unit, encode_uri_component, encode_component,
  escape_mark, is_mark, is_unreserved, hex_digit,
}

-- A letter, a digit, one of `-_.~`, or the percent sign of an escape.
abbrev pub is_component_char : ℕ → Bool
is_component_char c = is_unreserved c || c == b'%'

abbrev pub IsComponent : Text → Type 0
IsComponent = All (λ c. is_component_char c ≡ true)

hex_digit_lem : (n : ℕ) → n < 16 → is_component_char (hex_digit n) ≡ true
hex_digit_lem n h = ground arith

pub percent-IsComponent : (b : ℕ) → b < 256 → IsComponent (percent b)
unfolding percent
percent-IsComponent b h =
    (refl, (hex_digit_lem (b / 16) (omega arith), (hex_digit_lem (b % 16) (omega arith), tt)))

pub percents-IsComponent : (bs : List ℕ) → All (λ b. b < 256) bs → IsComponent (percents bs)
unfolding percents
percents-IsComponent [] _ = tt
percents-IsComponent (b ∷ bs) (h, hs) =
    All-append _ (percent b) (percents bs) (percent-IsComponent b h) (percents-IsComponent bs hs)

pub utf8-bytes : (c : ℕ) → is_scalar c ≡ true → All (λ b. b < 256) (utf8 c)
unfolding utf8
utf8-bytes c s = ground arith

-- What the whole chain puts out for one character.
pub encode_one : ℕ → Text
encode_one c = flat_map escape_mark (encode_unit c)

escape_mark-component : (c : ℕ) → is_component_char c ≡ true → escape_mark c ≡ c ∷ []
unfolding escape_mark
escape_mark-component c h = ground arith

escape_marks_of_IsComponent : (t : Text) → IsComponent t → flat_map escape_mark t ≡ t
unfolding flat_map
escape_marks_of_IsComponent [] _ = refl
escape_marks_of_IsComponent (c ∷ t) (h, hs) =
    rw (escape_mark-component c h, escape_marks_of_IsComponent t hs)

mark_or : (a b : Bool) → b ≡ true → (a || b) ≡ true
mark_or a b h = ground arith

-- A mark is escaped as one byte; every other character as `encodeURIComponent` does.
pub encode_one-mark : (c : ℕ) → is_mark c ≡ true → encode_one c ≡ percent c
unfolding encode_one encode_unit escape_mark flat_map
encode_one-mark c h = rw (mark_or (is_unreserved c) (is_mark c) h, h, append-nil)

encode_unit-IsComponent :
    (c : ℕ) → is_scalar c ≡ true → is_mark c ≡ false → IsComponent (encode_unit c)
unfolding encode_unit
encode_unit-IsComponent c s h = elim (Bool-cases (is_unreserved c)) [
  | inl u ↦ rw (h, u) (ground arith)
  | inr u ↦ rw (h, u) (percents-IsComponent (utf8 c) (utf8-bytes c s))
]

pub encode_one-other :
    (c : ℕ) → is_scalar c ≡ true → is_mark c ≡ false → encode_one c ≡ encode_unit c
unfolding encode_one
encode_one-other c s h = escape_marks_of_IsComponent (encode_unit c) (encode_unit-IsComponent c s h)

encode_one-IsComponent : (c : ℕ) → is_scalar c ≡ true → IsComponent (encode_one c)
encode_one-IsComponent c s = elim (Bool-cases (is_mark c)) [
  | inl m ↦ rw (encode_one-mark c m) (percent-IsComponent c (ground arith))
  | inr m ↦ rw (encode_one-other c s m) (encode_unit-IsComponent c s m)
]

pub flat_map-append :
    (f : ℕ → Text) (xs ys : Text) → flat_map f (xs ++ ys) ≡ flat_map f xs ++ flat_map f ys
unfolding flat_map
flat_map-append f [] ys = refl
flat_map-append f (x ∷ xs) ys = rw (flat_map-append f xs ys, append_assoc)

pub encode_component_lem : (s : Text) → encode_component s ≡ flat_map encode_one s
unfolding encode_component encode_uri_component encode_one
encode_component_lem [] = unfold flat_map in refl
encode_component_lem (c ∷ s) =
    flat_map-append escape_mark (encode_unit c) (flat_map encode_unit s)
    ∙ ap (λ t. flat_map escape_mark (encode_unit c) ++ t) (encode_component_lem s)

flat_map-IsComponent :
    (s : Text) → All (λ c. is_scalar c ≡ true) s → IsComponent (flat_map encode_one s)
unfolding flat_map
flat_map-IsComponent [] _ = tt
flat_map-IsComponent (c ∷ s) (h, hs) =
    All-append _ (encode_one c) _ (encode_one-IsComponent c h) (flat_map-IsComponent s hs)

-- The encoding of a well-formed string is made of letters, digits, `-`, `_`, `.`, `~` and `%`
-- only.
pub encode_component-IsComponent :
    (s : Text) → All (λ c. is_scalar c ≡ true) s → IsComponent (encode_component s)
encode_component-IsComponent s h = rw encode_component_lem (flat_map-IsComponent s h)
