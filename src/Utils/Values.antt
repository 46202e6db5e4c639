-- ===== src/Utils/Values.antt =====
-- Theorems on `convertBigIntToNumber`.
use nowhere_dash.Base.{ℕ, Bool, true, false, ◌||◌, ◌≡◌, refl, ap, arith}
use mathlib.Core.Path.{ap₂}
use nowhere_dash.Utils.{
  Value, null_value, undefined_value, bigint, number, numeral, other, array, object, Items,
  no_items, item, Fields, no_fields, field, convert, convert_items, convert_fields,
}

unfoldable mutual
  pub has_bigint : Value → Bool
  has_bigint null_value = false
  has_bigint undefined_value = false
  has_bigint (bigint negative n) = true
  has_bigint (number negative n) = false
  has_bigint (numeral n) = false
  has_bigint (other t) = false
  has_bigint (array xs) = items_have_bigint xs
  has_bigint (object fs) = fields_have_bigint fs

  pub items_have_bigint : Items → Bool
  items_have_bigint no_items = false
  items_have_bigint (item v xs) = has_bigint v || items_have_bigint xs

  pub fields_have_bigint : Fields → Bool
  fields_have_bigint no_fields = false
  fields_have_bigint (field key v fs) = has_bigint v || fields_have_bigint fs

module _ (to_double : ℕ → ℕ) where
  mutual
    unfolding convert has_bigint

    convert-has_bigint : (v : Value) → has_bigint (convert to_double v) ≡ false
    convert-has_bigint null_value = refl
    convert-has_bigint undefined_value = refl
    convert-has_bigint (bigint negative n) = ground arith
    convert-has_bigint (number negative n) = refl
    convert-has_bigint (numeral n) = refl
    convert-has_bigint (other t) = refl
    convert-has_bigint (array xs) = items-has_bigint xs
    convert-has_bigint (object fs) = fields-has_bigint fs

    items-has_bigint : (xs : Items) → items_have_bigint (convert_items to_double xs) ≡ false
    items-has_bigint no_items = refl
    items-has_bigint (item v xs) = rw (convert-has_bigint v, items-has_bigint xs) refl

    fields-has_bigint : (fs : Fields) → fields_have_bigint (convert_fields to_double fs) ≡ false
    fields-has_bigint no_fields = refl
    fields-has_bigint (field key v fs) = rw (convert-has_bigint v, fields-has_bigint fs) refl

  mutual
    unfolding convert has_bigint

    convert_fixed : (v : Value) → has_bigint v ≡ false → convert to_double v ≡ v
    convert_fixed null_value h = refl
    convert_fixed undefined_value h = refl
    convert_fixed (bigint negative n) h = cc
    convert_fixed (number negative n) h = refl
    convert_fixed (numeral n) h = refl
    convert_fixed (other t) h = refl
    convert_fixed (array xs) h = ap array (items_fixed xs h)
    convert_fixed (object fs) h = ap object (fields_fixed fs h)

    items_fixed : (xs : Items) → items_have_bigint xs ≡ false → convert_items to_double xs ≡ xs
    items_fixed no_items h = refl
    items_fixed (item v xs) h =
        ap₂ item (convert_fixed v (ground arith)) (items_fixed xs (ground arith))

    fields_fixed : (fs : Fields) → fields_have_bigint fs ≡ false → convert_fields to_double fs ≡ fs
    fields_fixed no_fields h = refl
    fields_fixed (field key v fs) h =
        ap₂ (field key) (convert_fixed v (ground arith)) (fields_fixed fs (ground arith))

  -- However deep a value is, nothing of it is a `bigint` after the conversion, and a second
  -- conversion changes nothing.
  pub convert-convert :
      (v : Value)
      → (has_bigint (convert to_double v) ≡ false)
        × (convert to_double (convert to_double v) ≡ convert to_double v)
  convert-convert v =
      (convert-has_bigint v, convert_fixed (convert to_double v) (convert-has_bigint v))
