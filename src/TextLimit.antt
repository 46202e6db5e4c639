-- ===== src/TextLimit.antt =====
-- web/src/lib/utils/text-limits.ts: display widths and truncation.
pub mod Truncate
mod Tests
use nowhere_dash.Base.{
  ℕ, ◌+◌, Bool, true, false, ◌&&◌, List, [], ◌∷◌, ◌++◌, ltb, leb, if◌then◌else◌, Text, codes,
}
use nowhere_dash.Portal.Uri.{byte_length}

-- `/[\u4e00-\u9fff]/` on one character.
abbrev pub is_cjk : ℕ → Bool
is_cjk c = leb 19968 c && leb c 40959

unfoldable pub char_width : ℕ → ℕ
char_width c = if is_cjk c then 2 else 1

-- The fold of `getDisplayWidth`.
unfoldable pub width_from : ℕ → Text → ℕ
width_from width [] = width
width_from width (c ∷ s) = width_from (width + char_width c) s

unfoldable pub display_width : Text → ℕ
unfolding width_from char_width
display_width s = width_from 0 s

unfoldable pub get_byte_length : Text → ℕ
get_byte_length s = byte_length s

-- `useTextLimit`; the description is the two numbers of its text.
pub record Limit : Type 0 where
  pub current_width : ℕ
  pub max_width : ℕ
  pub is_valid : Bool
  pub is_over_limit : Bool

unfoldable pub text_limit : Text → ℕ → Limit
text_limit text max_display_width = record {
  current_width = display_width text;
  max_width = max_display_width;
  is_valid = leb (display_width text) max_display_width;
  is_over_limit = ltb max_display_width (display_width text);
}

unfoldable pub is_text_over_limit : Text → ℕ → Bool
is_text_over_limit text max_display_width = ltb max_display_width (display_width text)

-- The loop of `truncateText`. The source compares with `maxDisplayWidth - suffixWidth`, which can
-- be negative; here the width of the suffix stands on the other side.
unfoldable pub fit : (max_display_width suffix_width width : ℕ) → Text → Text
fit most reserved width [] = []
fit most reserved width (c ∷ s) =
    if ltb most (width + char_width c + reserved)
    then []
    else c ∷ fit most reserved (width + char_width c) s

unfoldable pub truncate_text : Text → ℕ → Text → Text
truncate_text text most suffix =
    if leb (display_width text) most then text else fit most (display_width suffix) 0 text ++ suffix
