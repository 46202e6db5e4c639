-- ===== src/Version.antt =====
-- web/src/lib/utils/version-check.ts.
pub mod Order
mod Tests
use Prim.Native.Nat.{max}
use nowhere_dash.Base.{
  ℕ, zero, suc, ◌+◌, ◌-◌, ◌/◌, ◌*◌, Bool, true, false, ◌||◌, List, [], ◌∷◌, Option, none, some, ltb,
  leb, ◌==◌, if◌then◌else◌, map, Text, codes, split, length,
}

-- `v.replace(/^v/, '')`.
unfoldable pub drop_v : Text → Text
drop_v [] = []
drop_v (c ∷ s) = if c == b'v' then s else c ∷ s

-- `s.split(/[-+]/)[0]`.
unfoldable pub before_suffix : Text → Text
before_suffix [] = []
before_suffix (c ∷ s) = if c == b'-' || c == b'+' then [] else c ∷ before_suffix s

unfoldable pub clean_version : Text → Text
clean_version v = before_suffix (drop_v v)

-- `parts[i] || 0`.
abbrev pub part : List ℕ → ℕ → ℕ
part [] i = 0
part (n ∷ ns) zero = n
part (n ∷ ns) (suc i) = part ns i

-- The loop over `i`, with the rounds left.
unfoldable pub compare_loop : ℕ → ℕ → List ℕ → List ℕ → Bool
compare_loop zero i a b = false
compare_loop (suc rounds) i a b =
    let rest = compare_loop rounds (i + 1) a b in
    if ltb (part a i) (part b i) then true else if ltb (part b i) (part a i) then false else rest

unfoldable pub compare_parts : List ℕ → List ℕ → Bool
compare_parts a b = compare_loop (max (length a) (length b)) 0 a b

pub record VersionInfo : Type 0 where
  pub version : Text
  pub release_url : Text
  pub release_name : Text
  pub published_at : Text

-- How the request of `checkForUpdates` ends: an exception, a status that is not ok, a release.
pub data Fetched : Type 0 where
  threw not_ok : Fetched
  release : VersionInfo → Fetched

-- `number` is `Number(s) || 0` on a text with no dot and no sign: a natural number, as long as it
-- is finite.
module _ (number : Text → ℕ) where
  unfoldable pub version_parts : Text → List ℕ
  version_parts v = map number (split b'.' (clean_version v))

  unfoldable pub compare_versions : Text → Text → Bool
  compare_versions version1 version2 =
      compare_parts (version_parts version1) (version_parts version2)

  unfoldable pub check_for_updates : Text → Fetched → Option VersionInfo
  check_for_updates current threw = none
  check_for_updates current not_ok = none
  check_for_updates current (release latest) =
      if compare_versions current latest.version then some latest else none

-- `formatReleaseTime`: the number in each text; `days_ahead n` is the text `-n 天前`.
pub data Age : Type 0 where
  today yesterday on_date : Age
  days_ago days_ahead weeks_ago months_ago : ℕ → Age

abbrev pub day_ms : ℕ
day_ms = 1000 * 60 * 60 * 24

-- On the two times in milliseconds. `Math.floor` of a negative quotient rounds away from zero.
unfoldable pub release_age : ℕ → ℕ → Age
release_age now date =
    let days = (now - date) / day_ms in
    if ltb now date
    then days_ahead ((date - now + day_ms - 1) / day_ms)
    else if days == 0
    then today
    else if days == 1
    then yesterday
    else if ltb days 7
    then days_ago days
    else if ltb days 30
    then weeks_ago (days / 7)
    else if ltb days 365
    then months_ago (days / 30)
    else on_date
