-- ===== src/Subscription/Names.antt =====
-- Theorems on a node's text after `replaceNodeName`.
use mathlib.Core.List.{flat_map, reverse, reverse-cons, reverse-append}
use nowhere_dash.Base.{
  before_char, ℕ, true, false, not, ◌||◌, [], ◌∷◌, ◌++◌, ◌==◌, Text, codes, truthy, trim, is_space,
  Lacks, All, All-append, ◌≡◌, refl, ap, ◌∙◌, sym, arith, inl, inr, Bool-cases,
}
use nowhere_dash.Base.Trims.{
  starts_solid, starts_solid-append, trim-solid, trim-cases, ends_with-space,
}
use nowhere_dash.Portal.Uri.{
  is_scalar, is_mark, is_unreserved, encode_unit, encode_uri_component, utf8, percents, percent,
}
use nowhere_dash.Portal.Uri.Safe.{is_component_char, IsComponent, percents-IsComponent, utf8-bytes}
use nowhere_dash.Subscription.Uris.{replace_node_name}
use nowhere_dash.Subscription.Lines.{IsLine}

-- A text with no white space.
abbrev IsSolid : Text → Type 0
IsSolid = All (λ c. is_space c ≡ false)

component-solid : (c : ℕ) → is_component_char c ≡ true → is_space c ≡ false
component-solid c h = ground arith

IsComponent-IsSolid : (s : Text) → IsComponent s → IsSolid s
IsComponent-IsSolid [] h = tt
IsComponent-IsSolid (c ∷ s) (h, hs) = (component-solid c h, IsComponent-IsSolid s hs)

kept-solid : (c : ℕ) → (is_unreserved c || is_mark c) ≡ true → is_space c ≡ false
kept-solid c h = ground arith

encode_unit-IsSolid : (c : ℕ) → is_scalar c ≡ true → IsSolid (encode_unit c)
unfolding encode_unit
encode_unit-IsSolid c s = elim (Bool-cases (is_unreserved c || is_mark c)) [
  | inl k ↦ rw k (kept-solid c k, tt)
  | inr k ↦ rw k (IsComponent-IsSolid _ (percents-IsComponent (utf8 c) (utf8-bytes c s)))
]

encode-IsSolid : (s : Text) → All (λ c. is_scalar c ≡ true) s → IsSolid (encode_uri_component s)
unfolding encode_uri_component flat_map
encode-IsSolid [] h = tt
encode-IsSolid (c ∷ s) (h, hs) =
    All-append _ (encode_unit c) _ (encode_unit-IsSolid c h) (encode-IsSolid s hs)

IsSolid-Lacks : (s : Text) → IsSolid s → Lacks 10 s
IsSolid-Lacks [] h = tt
IsSolid-Lacks (c ∷ s) (h, hs) = (
  (λ (e : c ≡ 10). let k : is_space 10 ≡ false = sym (ap is_space e) ∙ h in cc),
  IsSolid-Lacks s hs,
)

reverse-starts_solid : (c : ℕ) (s : Text) → IsSolid (c ∷ s) → starts_solid (reverse (c ∷ s)) ≡ true
reverse-starts_solid c [] (h, _) = ap not h
reverse-starts_solid c (d ∷ s) (h, hs) =
    rw (reverse-cons c (d ∷ s))
      (starts_solid-append (reverse (d ∷ s)) _ (reverse-starts_solid d s hs))

before_char-All {ℓ} : (P : ℕ → Type ℓ) (d : ℕ) (s : Text) → All P s → All P (before_char d s)
unfolding before_char
before_char-All P d [] h = tt
before_char-All P d (c ∷ s) (h, hs) = elim (Bool-cases (c == d)) [
  | inl e ↦ rw e tt
  | inr e ↦ rw e (h, before_char-All P d s hs)
]

-- What a text for a node begins with.
IsLine-starts_solid : (v : Text) → IsLine v → starts_solid v ≡ true
IsLine-starts_solid v l = elim (trim-cases v) [
  | inl e ↦ let k : truthy v ≡ false = ap truthy (sym l.trimmed ∙ e) in cc (sym k ∙ l.given)
  | inr (h, _) ↦ rw l.trimmed at h
]

-- The encoding of a name that is not empty.
encode_unit-truthy : (c : ℕ) → truthy (encode_unit c) ≡ true
unfolding encode_unit percents percent utf8
encode_unit-truthy c = ground arith

truthy-append : (s t : Text) → truthy s ≡ true → truthy (s ++ t) ≡ true
truthy-append [] t h = cc
truthy-append (c ∷ s) t h = refl

encode-truthy : (s : Text) → truthy s ≡ true → truthy (encode_uri_component s) ≡ true
unfolding encode_uri_component flat_map
encode-truthy [] h = cc
encode-truthy (c ∷ s) h =
    truthy-append (encode_unit c) (flat_map encode_unit s) (encode_unit-truthy c)

-- The part before the fragment and its sign.
head_part : Text → Text
head_part uri = before_char b'#' uri ++ codes "#"

head_part-starts : (uri : Text) → IsLine uri → starts_solid (head_part uri) ≡ true
unfolding head_part before_char
head_part-starts [] l = refl
head_part-starts (c ∷ s) l = elim (Bool-cases (c == b'#')) [
  | inl e ↦ rw e
  | inr e ↦ rw e (IsLine-starts_solid (c ∷ s) l)
]

head_part-Lacks : (uri : Text) → IsLine uri → Lacks 10 (head_part uri)
unfolding head_part
head_part-Lacks uri l =
    All-append _ (before_char b'#' uri) _ (before_char-All _ b'#' uri l.one_line) (omega arith)

-- A visible tail leaves the text a line.
append-IsLine :
    (s t : Text)
    → starts_solid s ≡ true
    → Lacks 10 s
    → truthy t ≡ true
    → IsSolid t
    → IsLine (s ++ t)
append-IsLine s [] h k g v = cc
append-IsLine [] (c ∷ t) h k g v = cc
append-IsLine (d ∷ s) (c ∷ t) h k g v =
    let ends : starts_solid (reverse (d ∷ s ++ c ∷ t)) ≡ true =
      rw (reverse-append (d ∷ s) (c ∷ t))
        (starts_solid-append (reverse (c ∷ t)) _ (reverse-starts_solid c t v)) in
    record {
      given = refl;
      one_line = All-append _ (d ∷ s) (c ∷ t) k (IsSolid-Lacks (c ∷ t) v);
      trimmed = trim-solid (d ∷ s ++ c ∷ t) h ends;
      no_return = ends_with-space 13 (d ∷ s ++ c ∷ t) refl ends;
    }

-- A new name that is well formed and not blank gives a text that stands for a node.
pub replace_node_name-IsLine :
    (uri name : Text)
    → IsLine uri
    → truthy (trim name) ≡ true
    → All (λ c. is_scalar c ≡ true) (trim name)
    → IsLine (replace_node_name uri name)
unfolding replace_node_name head_part
replace_node_name-IsLine uri name l g h =
    append-IsLine (head_part uri) (encode_uri_component (trim name)) (head_part-starts uri l)
      (head_part-Lacks uri l) (encode-truthy (trim name) g) (encode-IsSolid (trim name) h)
