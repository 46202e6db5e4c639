-- ===== src/Ansi/Plain.antt =====
-- Theorems on what web/src/lib/utils/ansi.ts makes of a log line without colours.
use nowhere_dash.Base.{
  ℕ, ◌≤◌, ◌≢◌, false, List, [], ◌∷◌, ltb, Text, codes, Lacks, ◌≡◌, refl, ap, ◌∙◌, arith,
}
use nowhere_dash.Ansi.{
  is_stamp, drop_stamp, replace_each, color_map, replace_colors, count, close_tags,
  process_ansi_colors,
}

no_stamp : (c : ℕ) (s : Text) → c ≢ b'.' → is_stamp (c ∷ s) ≡ false
unfolding is_stamp
no_stamp c [] n = refl
no_stamp c (d ∷ []) n = refl
no_stamp c (d ∷ e ∷ []) n = refl
no_stamp c (d ∷ e ∷ f ∷ []) n = refl
no_stamp c (d ∷ e ∷ f ∷ g ∷ s) n = ground arith

drop_stamp-Lacks : (s : Text) → Lacks b'.' s → drop_stamp s ≡ s
unfolding drop_stamp
drop_stamp-Lacks [] h = refl
drop_stamp-Lacks (c ∷ s) (n, h) = rw (no_stamp c s n, drop_stamp-Lacks s h) refl

replace_each-Lacks :
    (p : ℕ) (pattern replacement s : Text)
    → Lacks p s
    → replace_each (p ∷ pattern) replacement 0 s ≡ s
unfolding replace_each
replace_each-Lacks p pattern replacement [] h = refl
replace_each-Lacks p pattern replacement (c ∷ s) (n, h) =
    let ih = replace_each-Lacks p pattern replacement s h in ground arith

-- Patterns that begin with an escape find nothing.
replace_colors-Lacks :
    (rest : List (Text × Text)) (pattern replacement s : Text)
    → Lacks 27 s
    → replace_colors ((27 ∷ pattern, replacement) ∷ rest) s ≡ replace_colors rest s
unfolding replace_colors
replace_colors-Lacks rest pattern replacement s h =
    ap (replace_colors rest) (replace_each-Lacks 27 pattern replacement s h)

color_map-Lacks : (s : Text) → Lacks 27 s → replace_colors color_map s ≡ s
color_map-Lacks s h =
    replace_colors-Lacks _ _ _ s h
    ∙ replace_colors-Lacks _ _ _ s h
    ∙ replace_colors-Lacks _ _ _ s h
    ∙ replace_colors-Lacks _ _ _ s h
    ∙ replace_colors-Lacks _ _ _ s h
    ∙ replace_colors-Lacks _ _ _ s h
    ∙ replace_colors-Lacks _ _ _ s h
    ∙ replace_colors-Lacks _ _ _ s h
    ∙ unfold replace_colors in refl

close_tags-closed :
    (s : Text) → count (codes "<span") s ≤ count (codes "</span>") s → close_tags s ≡ s
unfolding close_tags
close_tags-closed s c = rw (fewer _ _ c) refl
  where
    fewer : (a b : ℕ) → a ≤ b → ltb b a ≡ false
    fewer a b c = ground arith

-- A log line without an escape, without a dot and with no more opening span tags than closing ones
-- is put into the page as it stands, its other markup included.
pub process_ansi_colors-plain :
    (s : Text)
    → Lacks 27 s
    → Lacks b'.' s
    → count (codes "<span") s ≤ count (codes "</span>") s
    → process_ansi_colors s ≡ s
unfolding process_ansi_colors
process_ansi_colors-plain s e d c =
    ap (λ t. close_tags (replace_colors color_map t)) (drop_stamp-Lacks s d)
    ∙ ap close_tags (color_map-Lacks s e)
    ∙ close_tags-closed s c
