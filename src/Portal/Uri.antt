-- ===== src/Portal/Uri.antt =====
-- `encodeComponent` of web/src/lib/portal-url.ts, over the language's `encodeURIComponent`, and the
-- language's `decodeURIComponent`, which the module calls on user names, keys and values.
pub mod Bytes
pub mod RoundTrip
pub mod Safe
use mathlib.Core.List.{flat_map}
use mathlib.Core.Option
use nowhere_dash.Base.{
  ℕ, ◌+◌, ◌-◌, ◌*◌, ◌/◌, ◌%◌, Bool, true, false, not, ◌&&◌, ◌||◌, List, [], ◌∷◌, ◌++◌, Option, none,
  some, ltb, leb, ◌==◌, if◌then◌else◌, Text, is_digit, is_member, has_char, codes, length,
}

abbrev pub is_letter : ℕ → Bool
is_letter c = (leb b'a' c && leb c b'z') || (leb b'A' c && leb c b'Z')

-- What both `encodeURIComponent` and `encodeComponent` leave as it is.
abbrev pub is_unreserved : ℕ → Bool
is_unreserved c = is_letter c || is_digit c || c == b'-' || c == b'_' || c == b'.' || c == b'~'

-- `/[!'()*]/`.
abbrev pub is_mark : ℕ → Bool
is_mark c = c == b'!' || (leb 39 c && leb c 42)

-- The UTF-8 bytes of a code point.
unfoldable pub utf8 : ℕ → List ℕ
utf8 c =
    if ltb c 128
    then c ∷ []
    else if ltb c 2048
    then (192 + c / 64) ∷ (128 + c % 64) ∷ []
    else if ltb c 65536
    then (224 + c / 4096) ∷ (128 + c / 64 % 64) ∷ (128 + c % 64) ∷ []
    else (240 + c / 262144) ∷ (128 + c / 4096 % 64) ∷ (128 + c / 64 % 64) ∷ (128 + c % 64) ∷ []

-- `new TextEncoder().encode(s).length`.
unfoldable pub byte_length : Text → ℕ
unfolding utf8
byte_length [] = 0
byte_length (c ∷ s) = length (utf8 c) + byte_length s

-- An upper-case hexadecimal digit.
abbrev pub hex_digit : ℕ → ℕ
hex_digit n = if ltb n 10 then 48 + n else 55 + n

unfoldable pub percent : ℕ → Text
percent b = b'%' ∷ hex_digit (b / 16) ∷ hex_digit (b % 16) ∷ []

unfoldable pub percents : List ℕ → Text
unfolding percent
percents [] = []
percents (b ∷ bs) = percent b ++ percents bs

unfoldable pub encode_unit : ℕ → Text
unfolding percents utf8
encode_unit c = if is_unreserved c || is_mark c then c ∷ [] else percents (utf8 c)

-- The language's `encodeURIComponent`.
unfoldable pub encode_uri_component : Text → Text
unfolding encode_unit flat_map
encode_uri_component = flat_map encode_unit

-- The replacement for one character of `/[!'()*]/g`.
unfoldable pub escape_mark : ℕ → Text
unfolding percent
escape_mark c = if is_mark c then percent c else c ∷ []

unfoldable pub encode_component : Text → Text
unfolding encode_uri_component escape_mark flat_map
encode_component value = flat_map escape_mark (encode_uri_component value)

pub data Hex : Type 0 where
  idle marked : Hex
  high : ℕ → Hex

pub data Utf : Type 0 where
  whole : Utf
  partial : (left acc min : ℕ) → Utf

pub data Taken : Type 0 where
  refused : Taken
  emitted : ℕ → Taken
  waiting : Utf → Taken

unfoldable pub hex_value : ℕ → Option ℕ
hex_value c =
    if is_digit c
    then some (c - 48)
    else if leb b'A' c && leb c b'F'
    then some (c - 55)
    else if leb b'a' c && leb c b'f'
    then some (c - 87)
    else none

-- A Unicode scalar value.
abbrev pub is_scalar : ℕ → Bool
is_scalar c = ltb c 55296 || (leb 57344 c && ltb c 1114112)

-- One byte of a percent-encoded sequence.
unfoldable pub take_byte : Utf → ℕ → Taken
take_byte whole b =
    if ltb b 128
    then emitted b
    else if leb 192 b && ltb b 224
    then waiting (partial 1 (b - 192) 128)
    else if leb 224 b && ltb b 240
    then waiting (partial 2 (b - 224) 2048)
    else if leb 240 b && ltb b 248
    then waiting (partial 3 (b - 240) 65536)
    else refused
take_byte (partial left acc min) b =
    let next = acc * 64 + (b - 128) in
    if not (leb 128 b && ltb b 192)
    then refused
    else if ltb 1 left
    then waiting (partial (left - 1) next min)
    else if leb min next && is_scalar next
    then emitted next
    else refused

-- The loop of `decodeURIComponent`; `none` is its `URIError`.
unfoldable pub decode_from : Hex → Utf → Text → Option Text
unfolding take_byte hex_value
decode_from idle whole [] = some []
decode_from _ _ [] = none
decode_from idle whole (c ∷ s) = elim (c == b'%') [
  | true ↦ decode_from marked whole s
  | false ↦ Option.map (◌∷◌ c) (decode_from idle whole s)
]
decode_from idle (partial left acc min) (c ∷ s) = elim (c == b'%') [
  | true ↦ decode_from marked (partial left acc min) s
  | false ↦ none
]
decode_from marked u (c ∷ s) = elim (hex_value c) [
  | none ↦ none
  | some h ↦ decode_from (high h) u s
]
decode_from (high h) u (c ∷ s) = elim (hex_value c) [
  | none ↦ none
  | some l ↦ elim (take_byte u (h * 16 + l)) [
    | refused ↦ none
    | emitted d ↦ Option.map (◌∷◌ d) (decode_from idle whole s)
    | waiting u' ↦ decode_from idle u' s
  ]
]

-- The language's `decodeURIComponent`.
unfoldable pub decode_uri_component : Text → Option Text
unfolding decode_from
decode_uri_component = decode_from idle whole
