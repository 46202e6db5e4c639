-- ===== src/Utils/Times.antt =====
-- The number and the unit of a relative time.
use nowhere_dash.Base.{ℕ, ◌+◌, ◌-◌, ◌*◌, ◌≤◌, ◌<◌, if◌then◌else◌, ◌≡◌, ◌==◌, arith}
use nowhere_dash.Utils.{Elapsed, in_days, in_hours, in_minutes, in_seconds, relative_time, time12}

-- The milliseconds of a unit, and the number in front of it.
abbrev pub unit_ms : Elapsed → ℕ
unit_ms (in_days n) = 1000 * 60 * 60 * 24
unit_ms (in_hours n) = 1000 * 60 * 60
unit_ms (in_minutes n) = 1000 * 60
unit_ms (in_seconds n) = 1000

abbrev pub amount : Elapsed → ℕ
amount (in_days n) = n
amount (in_hours n) = n
amount (in_minutes n) = n
amount (in_seconds n) = n

-- Whatever unit is chosen, the time elapsed is at least the number of units shown and less than one
-- unit more.
pub relative_time_bounds :
    (now timestamp : ℕ)
    → (amount (relative_time now timestamp) * unit_ms (relative_time now timestamp)
        ≤ now - timestamp)
      × (now - timestamp
          < (amount (relative_time now timestamp) + 1) * unit_ms (relative_time now timestamp))
unfolding relative_time
relative_time_bounds now timestamp = ground arith

-- The hour on a clock of twelve hours is from 1 to 12, and with its half of the day it gives back the
-- hour of the day.
pub time12_hours :
    (hours minutes : ℕ)
    → hours < 24
    → (1 ≤ (time12 hours minutes).hour)
      × ((time12 hours minutes).hour ≤ 12)
      × ((if (time12 hours minutes).is_pm then 12 else 0) + (time12 hours minutes).hour
          ≡ hours + (if (time12 hours minutes).hour == 12 then 12 else 0))
unfolding time12
time12_hours hours minutes h = ground arith
