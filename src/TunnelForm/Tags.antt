-- ===== src/TunnelForm/Tags.antt =====
-- The metadata tags as text: `tagsToText` and `textToTags` of
-- web/src/components/tunnels/simple-create-tunnel-modal.tsx. An object is the list of its entries,
-- in the order of insertion.
use nowhere_dash.Base.{
  before_char, after_char, List, [], ◌∷◌, ◌++◌, Option, none, some, if◌then◌else◌, Text, codes,
  text_eq, truthy, trim, split, join, map,
}

abbrev pub Tags : Type 0
Tags = List (Text × Text)

-- One line, `key=value`.
abbrev pub tag_line : Text × Text → Text
tag_line (key, value) = key ++ b'=' ∷ value

unfoldable pub tags_to_text : Option Tags → Text
tags_to_text none = []
tags_to_text (some tags) = join (codes "\n") (map tag_line tags)

-- `tags[key] = value`.
unfoldable pub set_tag : Text → Text → Tags → Tags
unfolding text_eq
set_tag key value [] = (key, value) ∷ []
set_tag key value ((k, v) ∷ tags) =
    if text_eq k key then (k, value) ∷ tags else (k, v) ∷ set_tag key value tags

-- The tags read so far, or the line that is none.
pub data Read : Type 0 where
  tags_read : Tags → Read
  invalid_tag : Text → Read

-- A trimmed line with what stands behind its first `=`.
unfoldable pub read_entry : Text → Option Text → Tags → Read
unfolding set_tag before_char
read_entry line none tags = invalid_tag line
read_entry line (some value) tags =
    if truthy (before_char b'=' line)
    then tags_read (set_tag (trim (before_char b'=' line)) (trim value) tags)
    else invalid_tag line

unfoldable pub read_line : Text → Tags → Read
unfolding read_entry after_char
read_line line tags =
    if truthy line then read_entry line (after_char b'=' line) tags else tags_read tags

-- The loop, which ends at the first error.
unfoldable pub read_lines : List Text → Read → Read
unfolding read_line
read_lines [] r = r
read_lines (line ∷ lines) (invalid_tag l) = invalid_tag l
read_lines (line ∷ lines) (tags_read tags) = read_lines lines (read_line (trim line) tags)

unfoldable pub text_to_tags : Text → Read
unfolding read_lines
text_to_tags value = read_lines (split b'\n' value) (tags_read [])
