-- ===== src/Version/Tests.antt =====
-- Runs of version-check.ts on concrete versions, and its theorems at them.
use nowhere_dash.Base.{
  ℕ, true, Text, codes, is_digits, digits_value, ◌≡◌, ◌↔◌, refl, split, if◌then◌else◌,
}
use nowhere_dash.Version.{
  compare_versions, version_parts, release_age, weeks_ago, days_ahead, day_ms,
}
use nowhere_dash.Version.Order.{FirstLess, compare_versions_iff}

-- `Number(s) || 0` on decimal digits.
abbrev decimal : Text → ℕ
unfolding digits_value
decimal s = if is_digits s then digits_value 0 s else 0

older : compare_versions decimal (codes "v1.9.3") (codes "1.10.0-beta") ≡ true
unfolding compare_versions version_parts digits_value split nowhere_dash.Version.compare_parts
    nowhere_dash.Version.compare_loop nowhere_dash.Version.clean_version
    nowhere_dash.Version.before_suffix nowhere_dash.Version.drop_v
older = refl

newer : compare_versions decimal (codes "1.10.0-beta") (codes "v2") ≡ true
unfolding compare_versions version_parts digits_value split nowhere_dash.Version.compare_parts
    nowhere_dash.Version.compare_loop nowhere_dash.Version.clean_version
    nowhere_dash.Version.before_suffix nowhere_dash.Version.drop_v
newer = refl

compare_versions_iff_example :
    (compare_versions decimal (codes "v1.9.3") (codes "v2") ≡ true)
    ↔ FirstLess 0 (version_parts decimal (codes "v1.9.3")) (version_parts decimal (codes "v2"))
compare_versions_iff_example = compare_versions_iff decimal (codes "v1.9.3") (codes "v2")
