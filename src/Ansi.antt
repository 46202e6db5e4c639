-- ===== src/Ansi.antt =====
-- Log lines with colours: web/src/lib/utils/ansi.ts.
pub mod Plain
mod Tests
use nowhere_dash.Base.{
  ℕ, zero, suc, ◌+◌, ◌-◌, Bool, true, false, ◌&&◌, List, [], ◌∷◌, ◌++◌, ◌==◌, ltb, if◌then◌else◌,
  Text, codes, starts_with, is_digit, is_space, length, drop, replicate,
}

-- `/\.\d{3}\s/` at the beginning.
unfoldable pub is_stamp : Text → Bool
is_stamp (a ∷ b ∷ c ∷ d ∷ e ∷ s) =
    (a == b'.') && is_digit b && is_digit c && is_digit d && is_space e
is_stamp _ = false

-- The first match is replaced by a space.
unfoldable pub drop_stamp : Text → Text
unfolding is_stamp
drop_stamp [] = []
drop_stamp (c ∷ s) = if is_stamp (c ∷ s) then 32 ∷ drop 4 s else c ∷ drop_stamp s

-- `replace` of each match of a fixed text; `skip` is what is left of the last match.
unfoldable pub replace_each : Text → Text → ℕ → Text → Text
unfolding starts_with
replace_each pattern replacement skip [] = []
replace_each pattern replacement (suc skip) (c ∷ s) = replace_each pattern replacement skip s
replace_each pattern replacement zero (c ∷ s) = elim (starts_with (c ∷ s) pattern) [
  | true ↦ replacement ++ replace_each pattern replacement (length pattern - 1) s
  | false ↦ c ∷ replace_each pattern replacement zero s
]

-- The codes of the colours with their tags, in their order.
abbrev pub color_map : List (Text × Text)
color_map =
    (27 ∷ codes "[32m", codes "<span class=\"text-green-400\">")
    ∷ (27 ∷ codes "[31m", codes "<span class=\"text-red-400\">")
    ∷ (27 ∷ codes "[33m", codes "<span class=\"text-yellow-400\">")
    ∷ (27 ∷ codes "[34m", codes "<span class=\"text-blue-400\">")
    ∷ (27 ∷ codes "[35m", codes "<span class=\"text-purple-400\">")
    ∷ (27 ∷ codes "[36m", codes "<span class=\"text-cyan-400\">")
    ∷ (27 ∷ codes "[37m", codes "<span class=\"text-gray-400\">")
    ∷ (27 ∷ codes "[0m", codes "</span>")
    ∷ []

unfoldable pub replace_colors : List (Text × Text) → Text → Text
unfolding replace_each
replace_colors [] text = text
replace_colors ((pattern, replacement) ∷ rest) text =
    replace_colors rest (replace_each pattern replacement 0 text)

-- The number of matches of a text that cannot overlap itself.
unfoldable pub count : Text → Text → ℕ
unfolding starts_with
count needle [] = 0
count needle (c ∷ s) = (if starts_with (c ∷ s) needle then 1 else 0) + count needle s

unfoldable pub repeat : ℕ → Text → Text
repeat zero s = []
repeat (suc n) s = s ++ repeat n s

-- The closing tags that are missing.
unfoldable pub close_tags : Text → Text
unfolding count repeat
close_tags text =
    let open_tags = count (codes "<span") text in
    let close_tags = count (codes "</span>") text in
    if ltb close_tags open_tags
    then text ++ repeat (open_tags - close_tags) (codes "</span>")
    else text

unfoldable pub process_ansi_colors : Text → Text
unfolding drop_stamp replace_colors close_tags
process_ansi_colors text = close_tags (replace_colors color_map (drop_stamp text))
