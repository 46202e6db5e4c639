-- ===== src/Subscription/Uris.antt =====
-- The texts of external nodes: `inspectExternalUris`, `decodeNodeName` and `replaceNodeName` of
-- web/src/components/subscriptions/subscription-form-modal.tsx.
use nowhere_dash.Base.{
  ℕ, ◌+◌, Bool, false, not, ◌&&◌, ◌||◌, List, [], ◌∷◌, ◌++◌, Option, none, some, ltb, leb, ◌==◌,
  if◌then◌else◌, Text, codes, text_eq, truthy, text_or, is_digit, has_char, is_member, trim, all,
  length, nat_text, before_char, after_char,
}
use nowhere_dash.Portal.Uri.{byte_length, encode_uri_component, decode_uri_component}

pub data IssueKind : Type 0 where
  duplicate format unsupported too_long : IssueKind

-- `ExternalUriIssue`; a missing value is empty.
pub record Issue : Type 0 where
  pub line : ℕ
  pub kind : IssueKind
  pub value : Text

pub record Inspection : Type 0 where
  pub values : List Text
  pub issues : List Issue
  pub schemes : List (Text × ℕ)

abbrev pub supported_schemes : List Text
supported_schemes =
    codes "nowhere"
    ∷ codes "vless"
    ∷ codes "hysteria2"
    ∷ codes "hy2"
    ∷ codes "trojan"
    ∷ codes "anytls"
    ∷ codes "ss"
    ∷ codes "socks5"
    ∷ codes "socks"
    ∷ codes "sudoku"
    ∷ []

-- Puts a character in front of the first line.
abbrev pub onto_first : ℕ → List Text → List Text
onto_first c [] = (c ∷ []) ∷ []
onto_first c (line ∷ lines) = (c ∷ line) ∷ lines

abbrev pub starts_line : Text → Bool
starts_line [] = false
starts_line (c ∷ s) = c == 10

-- `input.split(/\r?\n/)`.
unfoldable pub split_lines : Text → List Text
split_lines [] = [] ∷ []
split_lines (c ∷ s) =
    let rest = split_lines s in
    if c == 10 then [] ∷ rest else if c == 13 && starts_line s then rest else onto_first c rest

abbrev pub is_scheme_char : ℕ → Bool
is_scheme_char c = is_digit c || (leb b'a' c && leb c b'z')

-- What `.` of a regular expression does not match.
abbrev pub is_line_end : ℕ → Bool
is_line_end c = c == 10 || c == 13 || c == 8232 || c == 8233

-- The rest after `://`, which is not empty and of one line.
abbrev pub is_scheme_rest : Text → Bool
is_scheme_rest (a ∷ b ∷ c ∷ s) =
    a == b':' && b == b'/' && c == b'/' && truthy s && all (λ d. not (is_line_end d)) s
is_scheme_rest _ = false

-- The first group of `/^([a-z0-9]+):\/\/(.+)$/`, with the characters read of it so far.
unfoldable pub match_scheme : Text → Text → Option Text
match_scheme seen [] = none
match_scheme seen (c ∷ s) =
    let rest = match_scheme (seen ++ c ∷ []) s in
    if is_scheme_char c
    then rest
    else if truthy seen && is_scheme_rest (c ∷ s)
    then some seen
    else none

-- `schemes.set(scheme, (schemes.get(scheme) ?? 0) + 1)`.
unfoldable pub count_scheme : Text → List (Text × ℕ) → List (Text × ℕ)
count_scheme scheme [] = (scheme, 1) ∷ []
count_scheme scheme ((name, n) ∷ rest) =
    if text_eq name scheme then (name, n + 1) ∷ rest else (name, n) ∷ count_scheme scheme rest

-- The variables of the loop.
pub record Scan : Type 0 where
  pub found : Inspection
  pub seen : List Text

abbrev pub add_issue : ℕ → IssueKind → Text → Inspection → Inspection
add_issue line kind value i = record i {
  issues = i.issues ++ record { line = line; kind = kind; value = value } ∷ [];
}

-- The tests from the match on.
unfoldable pub inspect_scheme : ℕ → Option Text → Inspection → Inspection
inspect_scheme line none i = add_issue line format [] i
inspect_scheme line (some scheme) i =
    if not (is_member scheme supported_schemes)
    then add_issue line unsupported scheme i
    else record i { schemes = count_scheme scheme i.schemes }

-- One round of the loop, on a trimmed line.
unfoldable pub inspect_line : ℕ → Text → Scan → Scan
unfolding inspect_scheme
inspect_line line value w =
    if not (truthy value)
    then w
    else (let i = record w.found { values = w.found.values ++ value ∷ [] } in
        if ltb 8192 (byte_length value)
        then record w { found = add_issue line too_long [] i }
        else if is_member value w.seen
        then record w { found = add_issue line duplicate [] i }
        else record {
          found = inspect_scheme line (match_scheme [] value) i;
          seen = value ∷ w.seen;
        })

unfoldable pub inspect_lines : ℕ → List Text → Scan → Scan
unfolding inspect_line
inspect_lines line [] w = w
inspect_lines line (text ∷ texts) w =
    inspect_lines (line + 1) texts (inspect_line line (trim text) w)

abbrev pub empty_scan : Scan
empty_scan = record { found = record { values = []; issues = []; schemes = [] }; seen = [] }

unfoldable pub inspect_external_uris : Text → Inspection
unfolding inspect_lines
inspect_external_uris input =
    let found = (inspect_lines 1 (split_lines input) empty_scan).found in
    if ltb 500 (length found.values) then add_issue 501 too_long [] found else found

-- `uri.slice(0, Math.max(0, uri.indexOf(":")))`: empty if there is no colon.
unfoldable pub scheme_part : Text → Text
unfolding before_char
scheme_part uri = if has_char b':' uri then before_char b':' uri else []

-- `toLowerCase` and `toUpperCase`, by the tables of Unicode.
pub record Casing : Type 0 where
  pub to_lower : Text → Text
  pub to_upper : Text → Text

module _ (casing : Casing) where
  unfoldable pub external_uri_scheme : Text → Text
  unfolding scheme_part
  external_uri_scheme uri = casing.to_lower (scheme_part uri)

  unfoldable pub default_node_name : Text → ℕ → Text
  unfolding external_uri_scheme
  default_node_name uri index =
      text_or (casing.to_upper (external_uri_scheme uri)) (codes "URL")
      ++ codes " "
      ++ nat_text (index + 1)

  -- The name that a fragment gives, empty if it gives none.
  unfoldable pub fragment_name : Text → Text
  fragment_name fragment = elim (decode_uri_component fragment) [
    | some decoded ↦ trim decoded
    | none ↦ trim fragment
  ]

  unfoldable pub decode_node_name : Text → ℕ → Text
  unfolding fragment_name default_node_name
  decode_node_name uri index = elim (after_char b'#' uri) [
    | none ↦ default_node_name uri index
    | some fragment ↦ text_or (fragment_name fragment) (default_node_name uri index)
  ]

unfoldable pub replace_node_name : Text → Text → Text
unfolding before_char
replace_node_name uri name = before_char b'#' uri ++ codes "#" ++ encode_uri_component (trim name)
