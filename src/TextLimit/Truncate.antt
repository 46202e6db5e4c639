-- ===== src/TextLimit/Truncate.antt =====
-- Theorems on `truncateText`.
use nowhere_dash.Base.{
  ℕ, ◌+◌, ◌≤◌, ◌<◌, [], ◌∷◌, ◌++◌, ◌≡◌, ◌⊎◌, refl, ◌∙◌, ap, arith, ltb, leb, Text, inl, inr,
  Bool-cases,
}
use nowhere_dash.TextLimit.{char_width, width_from, display_width, fit, truncate_text}

width_from-append : (s t : Text) (w : ℕ) → width_from w (s ++ t) ≡ width_from (width_from w s) t
unfolding width_from
width_from-append [] t w = refl
width_from-append (c ∷ s) t w = width_from-append s t (w + char_width c)

width_from_shift : (s : Text) (w : ℕ) → width_from w s ≡ w + display_width s
unfolding display_width
width_from_shift [] w = omega arith
width_from_shift (c ∷ s) w =
    omega (arith, width_from_shift s (w + char_width c), width_from_shift s (0 + char_width c))

pub display_width-append : (s t : Text) → display_width (s ++ t) ≡ display_width s + display_width t
display_width-append s t =
    unfold display_width in (width_from-append s t 0 ∙ width_from_shift t (width_from 0 s))

display_width-cons : (c : ℕ) (s : Text) → display_width (c ∷ s) ≡ char_width c + display_width s
display_width-cons c s =
    unfold display_width in (width_from_shift s (0 + char_width c) ∙ omega arith)

fit-le :
    (most reserved w : ℕ) (s : Text)
    → w + reserved ≤ most
    → w + display_width (fit most reserved w s) + reserved ≤ most
unfolding fit
fit-le most reserved w [] h = unfold display_width in omega arith
fit-le most reserved w (c ∷ s) h = elim (Bool-cases (ltb most (w + char_width c + reserved))) [
  | inl over ↦ rw over (unfold display_width in omega arith)
  | inr fits ↦ rw fits (
      rw display_width-cons
        (omega (arith, fit-le most reserved (w + char_width c) s (ground arith))))
]

-- A truncated text is never wider than the limit, if the suffix alone is not.
pub truncate_text-le :
    (text : Text) (most : ℕ) (suffix : Text)
    → display_width suffix ≤ most
    → display_width (truncate_text text most suffix) ≤ most
unfolding truncate_text
truncate_text-le text most suffix h = elim (Bool-cases (leb (display_width text) most)) [
  | inl short ↦ rw short (ground arith)
  | inr long ↦
      rw (long, display_width-append)
        (omega (arith, fit-le most (display_width suffix) 0 text (omega arith)))
]

-- The kept part of a text: it leaves room for what is reserved or is empty, and the text goes on with
-- nothing, or with a character that no longer fits.
pub record IsLongest (most reserved width : ℕ) (text kept : Text) : Type 0 where
  pub rest : Text
  pub splits : text ≡ kept ++ rest
  pub fits : (kept ≡ []) ⊎ (width + display_width kept + reserved ≤ most)
  pub stops :
      (c : ℕ) (more : Text)
      → rest ≡ c ∷ more
      → most < width + display_width kept + char_width c + reserved

fit-IsLongest :
    (most reserved w : ℕ) (s : Text) → IsLongest most reserved w s (fit most reserved w s)
unfolding fit
fit-IsLongest most reserved w [] = record {
  rest = [];
  splits = refl;
  fits = inl refl;
  stops = λ c more e. cc;
}
fit-IsLongest most reserved w (c ∷ s) = elim (Bool-cases (ltb most (w + char_width c + reserved))) [
  | inl over ↦ rw over (record {
    rest = c ∷ s;
    splits = refl;
    fits = inl refl;
    stops = λ d more e. unfold display_width in ground arith;
  })
  | inr fits ↦
      let f = fit-IsLongest most reserved (w + char_width c) s in
      rw fits (record {
        rest = f.rest;
        splits = ap (◌∷◌ c) f.splits;
        fits = inr (
            rw display_width-cons
              (omega (arith, fit-le most reserved (w + char_width c) s (ground arith))));
        stops = λ d more e. rw display_width-cons (omega (arith, f.stops d more e));
      })
]

-- A text that is wider than the limit becomes one of its beginnings, followed by the suffix. The
-- beginning leaves room for the suffix, or is empty, and its next character would leave none.
pub truncate_text-IsLongest :
    (text : Text) (most : ℕ) (suffix : Text)
    → most < display_width text
    → (kept : Text) × (truncate_text text most suffix ≡ kept ++ suffix)
      × IsLongest most (display_width suffix) 0 text kept
unfolding truncate_text
truncate_text-IsLongest text most suffix h = (
  fit most (display_width suffix) 0 text,
  ground arith,
  fit-IsLongest most (display_width suffix) 0 text,
)
