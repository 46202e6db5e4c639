-- ===== src/Utils/Tests.antt =====
-- Runs of utils.ts on concrete values, and its theorems at them.
use nowhere_dash.Base.{◌+◌, ◌-◌, ◌*◌, ◌≤◌, ◌<◌, false, codes, ◌≡◌, refl}
use nowhere_dash.Utils.{
  Value, bigint, number, numeral, array, object, item, no_items, field, no_fields, convert,
  relative_time, in_hours, in_days,
}
use nowhere_dash.Utils.Times.{unit_ms, amount, relative_time_bounds}

abbrev counters : Value
counters = object (
    field (codes "rx") (bigint false 5)
      (field (codes "all") (array (item (bigint false 9007199254740993) no_items)) no_fields))

counters_run :
    convert (λ n. n) counters
    ≡ object (
        field
          (codes "rx")
          (number false 5)
          (field (codes "all") (array (item (numeral 9007199254740993) no_items)) no_fields))
unfolding convert
counters_run = refl

-- A day is shown in hours, and two days in days.
day_run : (relative_time 86400000 0 ≡ in_hours 24) × (relative_time 172800000 0 ≡ in_days 2)
unfolding relative_time
day_run = (refl, refl)

relative_time_bounds_example :
    (amount (relative_time 172800000 5) * unit_ms (relative_time 172800000 5) ≤ 172800000 - 5)
    × (172800000 - 5
        < (amount (relative_time 172800000 5) + 1) * unit_ms (relative_time 172800000 5))
relative_time_bounds_example = relative_time_bounds 172800000 5
