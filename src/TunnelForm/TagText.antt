-- ===== src/TunnelForm/TagText.antt =====
-- Theorems on the tags of a tunnel as text.
use nowhere_dash.Base.{
  Bool, true, not, ◌&&◌, [], ◌∷◌, ◌++◌, Text, text_eq, truthy, trim, Lacks, ◌≡◌,
}
use nowhere_dash.TunnelForm.Tags.{Tags}

-- A tag that a line can hold.
pub record IsTag (tag : Text × Text) : Type 0 where
  pub keyed : truthy tag.0 ≡ true
  pub key_trimmed : trim tag.0 ≡ tag.0
  pub key_plain : Lacks b'=' tag.0
  pub key_line : Lacks 10 tag.0
  pub value_trimmed : trim tag.1 ≡ tag.1
  pub value_line : Lacks 10 tag.1

-- No key stands among those of the tags.
abbrev pub fresh : Text → Tags → Bool
fresh key [] = true
fresh key ((k, v) ∷ tags) = not (text_eq k key) && fresh key tags

-- The keys of an object are distinct.
abbrev pub distinct_keys : Tags → Tags → Bool
distinct_keys before [] = true
distinct_keys before ((k, v) ∷ tags) = fresh k before && distinct_keys (before ++ (k, v) ∷ []) tags
