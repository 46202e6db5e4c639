-- ===== src/Portal/Query.antt =====
-- `portalQuery` and `encodeNativeQuery` of web/src/lib/portal-url.ts. A `Map` and a
-- `URLSearchParams` built by `set` are lists of entries in insertion order.
pub mod Maps
pub mod Keys
use nowhere_dash.Base.{
  Bool, true, false, not, ◌&&◌, ◌||◌, List, [], ◌∷◌, ◌++◌, Option, none, some, ◌==◌, if◌then◌else◌,
  map, Text, codes, text_eq, split, is_member, drop,
}
use nowhere_dash.Portal.Platform.{malformed_uri, Result, ok, ◌>>=◌, or_throw}
use nowhere_dash.Portal.Uri.{decode_uri_component, encode_component}

abbrev pub Entries : Type 0
Entries = List (Text × Text)

-- `map.get(key)`.
unfoldable pub get : Text → Entries → Option Text
get key [] = none
get key ((k, v) ∷ m) = if text_eq k key then some v else get key m

-- `map.set(key, value)`: in place, or at the end.
unfoldable pub set : Text → Text → Entries → Entries
set key value [] = (key, value) ∷ []
set key value ((k, v) ∷ m) = if text_eq k key then (k, value) ∷ m else (k, v) ∷ set key value m

unfoldable pub delete : Text → Entries → Entries
delete key [] = []
delete key ((k, v) ∷ m) = if text_eq k key then delete key m else (k, v) ∷ delete key m

abbrev pub has : Text → Entries → Bool
has key m = elim (get key m) [ none ↦ false | some v ↦ true ]

-- `map.get(key) ?? fallback`.
abbrev pub get_or : Text → Entries → Text → Text
get_or key m fallback = elim (get key m) [ none ↦ fallback | some v ↦ v ]

-- `QUERY_DEFAULTS`.
abbrev pub query_defaults : Entries
query_defaults =
    (codes "tls", codes "1")
    ∷ (codes "morph", codes "0")
    ∷ (codes "rate", codes "0")
    ∷ (codes "etar", codes "0")
    ∷ (codes "dial", codes "auto")
    ∷ (codes "socks", codes "none")
    ∷ (codes "next", codes "none")
    ∷ []

-- `NEXT_KEYS`.
abbrev pub next_keys : List Text
next_keys = codes "up" ∷ codes "down" ∷ codes "mux" ∷ codes "sni" ∷ codes "pin" ∷ []

abbrev pub base_keys : List Text
base_keys = map (λ e. e.0) query_defaults ++ codes "crt" ∷ codes "key" ∷ codes "log" ∷ []

-- `pair.slice(0, separator)` and `pair.slice(separator + 1)` at the first `=`.
unfoldable pub before_equals : Text → Text
before_equals [] = []
before_equals (c ∷ s) = if c == b'=' then [] else c ∷ before_equals s

unfoldable pub after_equals : Text → Text
after_equals [] = []
after_equals (c ∷ s) = if c == b'=' then s else after_equals s

abbrev pub is_nested : Text → Bool
is_nested key = text_eq key (codes "next") || text_eq key (codes "socks")

-- One round of the loop of `read`, on an accepted key.
unfoldable pub read_value : Text → Text → Entries → Result Entries
read_value key raw_value values = do
  value ← or_throw malformed_uri (decode_uri_component raw_value)
  ok (
      set key (if is_nested key && not (text_eq value (codes "none")) then raw_value else value)
        values)

unfoldable pub read_pair : List Text → Text → Entries → Result Entries
read_pair allowed pair values = elim (decode_uri_component (before_equals pair)) [
  | none ↦ ok values
  | some key ↦
      if not (is_member key allowed) || has key values
      then ok values
      else read_value key (after_equals pair) values
]

unfoldable pub read_pairs : List Text → List Text → Entries → Result Entries
read_pairs allowed [] values = ok values
read_pairs allowed (pair ∷ pairs) values = do
  values' ← read_pair allowed pair values
  read_pairs allowed pairs values'

-- `values.has("next") && values.get("next") !== "none"`.
abbrev pub chains_next : Entries → Bool
chains_next values = elim (get (codes "next") values) [
  | none ↦ false
  | some v ↦ not (text_eq v (codes "none"))
]

unfoldable pub portal_query : Text → Result Entries
portal_query search =
    let pairs = split b'&' (drop 1 search) in
    do
      values ← read_pairs base_keys pairs []
      if chains_next values then read_pairs next_keys pairs values else ok values

unfoldable pub encode_entry : Text × Text → Text
encode_entry (key, value) =
    encode_component key ++ codes "=" ++ (if is_nested key then value else encode_component value)

-- `parts.join("&")`.
unfoldable pub encode_native_query : Entries → Text
encode_native_query [] = []
encode_native_query (e ∷ []) = encode_entry e
encode_native_query (e ∷ f ∷ es) = encode_entry e ++ codes "&" ++ encode_native_query (f ∷ es)
