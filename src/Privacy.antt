-- ===== src/Privacy.antt =====
-- web/src/lib/utils/privacy.ts: masking of addresses. `length` and `[0]` are on code points.
pub mod Hosts
pub mod Leaks
mod Tests
use mathlib.Core.List.{reverse}
use nowhere_dash.Base.{
  ℕ, zero, suc, ◌+◌, ◌-◌, Bool, true, false, not, ◌&&◌, ◌||◌, List, [], ◌∷◌, ◌++◌, Option, none,
  some, ltb, leb, ◌==◌, if◌then◌else◌, map, Text, codes, text_eq, truthy, has_char, starts_with,
  ends_with, is_member, is_digit, is_digits, split, join, all, length, take, drop, replicate, keep,
}
use nowhere_dash.Portal.Platform.{Url, Platform}
use nowhere_dash.Portal.Endpoint.{inner, in_brackets}
use nowhere_dash.Portal.Parse.{lower}

-- `MULTI_SEGMENT_SUFFIXES`.
abbrev pub multi_segment_suffixes : List Text
multi_segment_suffixes =
    codes "com.cn"
    ∷ codes "net.cn"
    ∷ codes "org.cn"
    ∷ codes "gov.cn"
    ∷ codes "edu.cn"
    ∷ codes "ac.cn"
    ∷ codes "com.hk"
    ∷ codes "com.tw"
    ∷ codes "com.mo"
    ∷ codes "co.uk"
    ∷ codes "co.jp"
    ∷ codes "co.kr"
    ∷ codes "co.in"
    ∷ codes "co.nz"
    ∷ codes "co.za"
    ∷ codes "com.au"
    ∷ codes "com.br"
    ∷ codes "com.sg"
    ∷ codes "com.mx"
    ∷ codes "com.tr"
    ∷ codes "github.io"
    ∷ codes "pages.dev"
    ∷ codes "vercel.app"
    ∷ []

-- `LOOPBACK_HOSTS`.
abbrev pub loopback_hosts : List Text
loopback_hosts = codes "127.0.0.1" ∷ codes "::1" ∷ codes "[::1]" ∷ codes "localhost" ∷ []

-- `\d{1,3}`.
abbrev pub is_octet : Text → Bool
is_octet s = is_digits s && leb (length s) 3

-- `IPV4_REGEX.test(host)`.
unfoldable pub is_ipv4 : Text → Bool
is_ipv4 host = let parts = split b'.' host in length parts == 4 && all is_octet parts

abbrev pub has_brackets : Text → Bool
has_brackets host = starts_with host (codes "[") && ends_with host b']'

abbrev pub stripped : Text → Text
stripped host = if has_brackets host then inner host else host

abbrev pub is_hex : ℕ → Bool
is_hex c = is_digit c || (leb b'a' c && leb c b'f') || (leb b'A' c && leb c b'F')

unfoldable pub is_ipv6 : Text → Bool
is_ipv6 host =
    let s = stripped host in
    if ltb (length (keep (λ c. c == b':') s)) 2
    then false
    else truthy s && all (λ c. is_hex c || c == b':') s

unfoldable pub mask_octets : Text → List Text → Text
mask_octets host (a ∷ b ∷ rest) = a ++ codes "." ++ b ++ codes ".***.***"
mask_octets host _ = host

unfoldable pub mask_ipv4 : Text → Text
mask_ipv4 host = if is_ipv4 host then mask_octets host (split b'.' host) else host

-- `[0-9a-fA-F]{1,4}` at the start: at most `n` hexadecimal digits, and what follows them.
unfoldable pub hex_run : ℕ → Text → Text
hex_run zero s = []
hex_run (suc n) [] = []
hex_run (suc n) (c ∷ s) = if is_hex c then c ∷ hex_run n s else []

abbrev pub after_run : Text → Text
after_run s = drop (length (hex_run 4 s)) s

-- `/^([0-9a-fA-F]{1,4}):([0-9a-fA-F]{1,4})/`, with its two groups.
unfoldable pub first_groups : Text → Option (Text × Text)
first_groups s =
    let rest = after_run s in
    let second = hex_run 4 (drop 1 rest) in
    if truthy (hex_run 4 s) && starts_with rest (codes ":") && truthy second
    then some (hex_run 4 s, second)
    else none

unfoldable pub mask_ipv6 : Text → Text
mask_ipv6 host = elim (first_groups (stripped host)) [
  | none ↦ host
  | some (a, b) ↦
      let masked = a ++ codes ":" ++ b ++ codes ":***:***:***:***:***:***" in
      if has_brackets host then in_brackets masked else masked
]

-- `parts.slice(-n)`.
abbrev pub last_parts : ℕ → List Text → List Text
last_parts n parts = drop (length parts - n) parts

abbrev pub dot_join : List Text → Text
dot_join = join (codes ".")

unfoldable pub suffix_length : List Text → ℕ
suffix_length parts =
    if is_member (map lower (dot_join (last_parts 2 parts))) multi_segment_suffixes then 2 else 1

unfoldable pub mask_sld : Text → Text
mask_sld [] = []
mask_sld (c ∷ s) =
    if leb (length (c ∷ s)) 2
    then replicate (length (c ∷ s)) b'*'
    else c ∷ replicate (length s) b'*'

-- The part in front of the suffix, `parts[parts.length - suffixLen - 1]`.
abbrev pub part_at : ℕ → List Text → Text
part_at i [] = []
part_at zero (p ∷ ps) = p
part_at (suc i) (p ∷ ps) = part_at i ps

unfoldable pub mask_parts : Text → List Text → Text
mask_parts host parts =
    let n = suffix_length parts in
    if leb (length parts) n
    then host
    else let core =
        mask_sld (part_at (length parts - n - 1) parts)
        ++ codes "."
        ++ dot_join (last_parts n parts) in
      if ltb 0 (length parts - n - 1) then codes "***." ++ core else core

unfoldable pub mask_host : Text → Text
mask_host host =
    if not (truthy host)
    then host
    else if text_eq host (codes "localhost") || not (has_char b'.' host)
    then host
    else mask_parts host (split b'.' host)

unfoldable pub mask_hostname : Text → Text
mask_hostname host =
    if not (truthy host)
    then host
    else if is_member host loopback_hosts
    then host
    else if is_ipv4 host
    then mask_ipv4 host
    else if is_ipv6 host
    then mask_ipv6 host
    else mask_host host

-- The text up to the last `c`, and behind it; `none` if there is none.
unfoldable pub cut_last : ℕ → Text → Option (Text × Text)
cut_last c [] = none
cut_last c (d ∷ s) = elim (cut_last c s) [
  | some (before, after) ↦ some (d ∷ before, after)
  | none ↦ if d == c then some ([], s) else none
]

-- The text up to the first `]`, and behind it.
unfoldable pub cut_bracket : Text → Option (Text × Text)
cut_bracket [] = none
cut_bracket (d ∷ s) = elim (cut_bracket s) [
  | none ↦ if d == b']' then some ([], s) else none
  | some (before, after) ↦ if d == b']' then some ([], s) else some (d ∷ before, after)
]

-- `(?::(\d+))?$`: the port, if there is one.
abbrev pub is_port_suffix : Text → Bool
is_port_suffix [] = true
is_port_suffix (c ∷ s) = c == b':' && is_digits s

-- `address.match(/^(\[[^\]]+\])(?::(\d+))?$/)`: the bracketed host and the port with its colon.
unfoldable pub bracket_match : Text → Option (Text × Text)
bracket_match [] = none
bracket_match (c ∷ s) = elim (cut_bracket s) [
  | none ↦ none
  | some (host, port) ↦
      if c == b'[' && truthy host && is_port_suffix port
      then some (in_brackets host, port)
      else none
]

unfoldable pub mask_address : Text → Bool → Text
mask_address address is_privacy_mode =
    if not (truthy address) || not is_privacy_mode then address else elim (bracket_match address) [
      | some (host, port) ↦ mask_ipv6 host ++ port
      | none ↦ if is_ipv6 address then mask_ipv6 address else elim (cut_last b':' address) [
        | none ↦ mask_hostname address
        | some (host, port) ↦
            if is_digits port
            then mask_hostname host ++ codes ":" ++ port
            else mask_hostname address
      ]
    ]

-- `urlObj.port ? :port : ""`.
abbrev pub port_suffix : Text → Text
port_suffix [] = []
port_suffix (c ∷ s) = b':' ∷ c ∷ s

unfoldable pub format_url_with_privacy : Platform → Text → Text → Bool → Text
format_url_with_privacy web url api_path is_privacy_mode =
    let full = url ++ api_path in
    if not is_privacy_mode then full else elim (web.new_url full) [
      | none ↦ mask_address full true
      | some u ↦
          u.protocol
          ++ codes "//"
          ++ mask_hostname u.hostname
          ++ port_suffix u.port
          ++ u.pathname
          ++ u.search
          ++ u.hash
    ]
