-- ===== src/Utils.antt =====
-- `convertBigIntToNumber`, `formatRelativeTime` and `formatTime12` of web/src/lib/utils.ts.
pub mod Values
pub mod Times
mod Tests
use nowhere_dash.Base.{
  ℕ, ◌-◌, ◌*◌, ◌/◌, ◌%◌, Bool, true, false, ◌&&◌, ◌||◌, List, [], ◌∷◌, ltb, leb, ◌==◌,
  if◌then◌else◌, Text, codes,
}

-- The values that the conversion meets: plain data. A `bigint` and a `number` have a sign and a
-- magnitude; `numeral n` is the string of the decimal digits of `n`, and `other` any value that is
-- none of the rest, such as a string or a fraction.
mutual
  pub data Value : Type 0 where
    null_value undefined_value : Value
    bigint number : (negative : Bool) → ℕ → Value
    numeral : ℕ → Value
    other : Text → Value
    array : Items → Value
    object : Fields → Value

  pub data Items : Type 0 where
    no_items : Items
    item : Value → Items → Items

  pub data Fields : Type 0 where
    no_fields : Fields
    field : Text → Value → Fields → Fields

-- `Number.MAX_SAFE_INTEGER`.
abbrev pub max_safe_integer : ℕ
max_safe_integer = 9007199254740991

-- `convertBigIntToNumber`; `to_double` rounds a magnitude to a double, as `Number` does.
module _ (to_double : ℕ → ℕ) where
  abbrev pub convert_bigint : Bool → ℕ → Value
  convert_bigint true n = number true (to_double n)
  convert_bigint false n = if ltb max_safe_integer n then numeral n else number false (to_double n)

  unfoldable mutual
    pub convert : Value → Value
    convert null_value = null_value
    convert undefined_value = undefined_value
    convert (bigint negative n) = convert_bigint negative n
    convert (number negative n) = number negative n
    convert (numeral n) = numeral n
    convert (other t) = other t
    convert (array xs) = array (convert_items xs)
    convert (object fs) = object (convert_fields fs)

    pub convert_items : Items → Items
    convert_items no_items = no_items
    convert_items (item v xs) = item (convert v) (convert_items xs)

    pub convert_fields : Fields → Fields
    convert_fields no_fields = no_fields
    convert_fields (field key v fs) = field key (convert v) (convert_fields fs)

-- The text of `formatRelativeTime`: a number and its unit.
pub data Elapsed : Type 0 where
  in_days in_hours in_minutes in_seconds : ℕ → Elapsed

-- On the two times in milliseconds. Before `timestamp` the number of seconds is negative, or a
-- negative zero, and the text is `0s`.
unfoldable pub relative_time : (now timestamp : ℕ) → Elapsed
relative_time now timestamp =
    let diff = now - timestamp in
    let hours = diff / (1000 * 60 * 60) in
    let minutes = diff % (1000 * 60 * 60) / (1000 * 60) in
    if ltb 24 hours
    then in_days (hours / 24)
    else if ltb 0 hours
    then in_hours hours
    else if ltb 0 minutes
    then in_minutes minutes
    else in_seconds (diff % (1000 * 60) / 1000)

-- `formatTime12`: the hour on the clock, the minutes, and whether it is `PM`.
pub record Time12 : Type 0 where
  pub hour : ℕ
  pub minute : ℕ
  pub is_pm : Bool

unfoldable pub time12 : (hours minutes : ℕ) → Time12
time12 hours minutes = record {
  hour = (if hours % 12 == 0 then 12 else hours % 12);
  minute = minutes;
  is_pm = leb 12 hours;
}
