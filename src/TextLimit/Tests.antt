-- ===== src/TextLimit/Tests.antt =====
-- Runs of text-limits.ts on concrete texts, and its theorems at them.
use nowhere_dash.Base.{◌<◌, ◌++◌, Text, codes, ◌≡◌, refl, arith}
use nowhere_dash.TextLimit.{display_width, fit, truncate_text}
use nowhere_dash.TextLimit.Truncate.{IsLongest, truncate_text-IsLongest}

cut_run : truncate_text (codes "隧道name") 6 (codes "…") ≡ codes "隧道n…"
unfolding truncate_text display_width fit
cut_run = refl

too_wide : 6 < display_width (codes "隧道name")
unfolding display_width
too_wide = omega arith

truncate_text-IsLongest_example :
    (kept : Text) × (truncate_text (codes "隧道name") 6 (codes "…") ≡ kept ++ codes "…")
    × IsLongest 6 (display_width (codes "…")) 0 (codes "隧道name") kept
truncate_text-IsLongest_example = truncate_text-IsLongest (codes "隧道name") 6 (codes "…") too_wide
