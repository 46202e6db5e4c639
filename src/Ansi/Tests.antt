-- ===== src/Ansi/Tests.antt =====
-- Log lines, with and without colours.
use nowhere_dash.Base.{◌∷◌, ◌++◌, Text, codes, starts_with, ◌≡◌, refl, arith}
use nowhere_dash.Ansi.{count, process_ansi_colors}
use nowhere_dash.Ansi.Plain.{process_ansi_colors-plain}

abbrev markup : Text
markup = codes "<img src=x onerror=run()>"

process_ansi_colors-plain_example : process_ansi_colors markup ≡ markup
process_ansi_colors-plain_example =
    process_ansi_colors-plain markup (ground arith) (ground arith) (unfold count in omega arith)

-- A colour that is not closed gets its closing tag, and the fraction of a second goes.
colored :
    process_ansi_colors (codes "10:00.123 " ++ 27 ∷ codes "[31mbad")
    ≡ codes "10:00 <span class=\"text-red-400\">bad</span>"
unfolding process_ansi_colors starts_with
colored = refl
