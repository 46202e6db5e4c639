-- ===== src/Portal/Credentials.antt =====
-- `parseNextEndpoint`, `validateSocksEndpoint` and `validatePortalSNI` of
-- web/src/lib/portal-url.ts.
use nowhere_dash.Base.{
  ℕ, Bool, false, not, ◌&&◌, ◌||◌, List, [], ◌∷◌, ◌++◌, ltb, ◌==◌, if◌then◌else◌, Text, codes,
  text_eq, truthy, has_char, starts_with, is_space, split, any, length, keep,
}
use nowhere_dash.Portal.Platform.{
  Platform, next_shape, invalid_next_key, malformed_uri, shared_key_size, reserved_socks,
  socks_credentials, socks_user_password, socks_encoding, socks_host_port, invalid_sni, Result, ok,
  err, ◌>>=◌, ◌>>◌, reject, or_throw,
}
use nowhere_dash.Portal.Uri.{byte_length, decode_uri_component}
use nowhere_dash.Portal.Endpoint.{ServiceEndpoint, is_dotted_quad}
use nowhere_dash.Portal.Parse.{first_part, parse_service_url}

-- `(value.match(/@/g) ?? []).length`.
abbrev pub count_char : ℕ → Text → ℕ
count_char c s = length (keep (λ d. d == c) s)

-- `/[:/?#[\]@!$&'()*+,;=\s]/`.
abbrev pub is_reserved_credential : ℕ → Bool
is_reserved_credential c = has_char c (codes ":/?#[]@!$&'()*+,;=") || is_space c

-- One round of the loop over the SOCKS credentials.
unfoldable pub validate_credential : Text → Result (Unit {0})
validate_credential credential = do
  plain ← or_throw malformed_uri (decode_uri_component credential)
  reject
      (ltb (byte_length plain) 1
        || ltb 255 (byte_length plain)
        || any is_reserved_credential credential)
      socks_encoding

unfoldable pub validate_credentials : List Text → Result (Unit {0})
validate_credentials (user ∷ password ∷ []) = do
  validate_credential user
  validate_credential password
validate_credentials _ = err socks_user_password

-- The tests of `value.split("@")`; the result is `parts.at(-1)`.
unfoldable pub socks_address : List Text → Result Text
socks_address (address ∷ []) = ok address
socks_address (credentials ∷ address ∷ []) = do
  validate_credentials (split b':' credentials)
  ok address
socks_address _ = err socks_credentials

unfoldable pub validate_portal_sni : Text → Result (Unit {0})
validate_portal_sni value =
    if not (truthy value) || text_eq value (codes "none")
    then ok tt
    else reject
        (ltb 253 (length value)
          || any (λ c. ltb c 32 || ltb 126 c || has_char c (codes ":[]")) value
          || is_dotted_quad value)
        invalid_sni

module _ (web : Platform) where
  unfoldable pub parse_next_endpoint : Text → Result ServiceEndpoint
  parse_next_endpoint value = do
    reject
        (not (count_char b'@' value == 1)
          || any (λ c. has_char c (codes "?#&") || is_space c) value)
        next_shape
    (url, e) ← parse_service_url web (codes "vector://" ++ value) false
    reject
        (not (truthy url.username)
          || truthy url.password
          || has_char b':' (first_part (split b'@' value)))
        invalid_next_key
    key ← or_throw malformed_uri (decode_uri_component url.username)
    reject (ltb 255 (byte_length key)) shared_key_size
    ok e

  unfoldable pub validate_socks_endpoint : Text → Bool → Result (Unit {0})
  validate_socks_endpoint value allow_empty_host =
      if not (truthy value) || text_eq value (codes "none") then ok tt else do
        reject (any (λ c. has_char c (codes "&?#") || is_space c) value) reserved_socks
        address ← socks_address (split b'@' value)
        endpoint ← or_throw malformed_uri (decode_uri_component address)
        let normalized =
            if allow_empty_host && starts_with endpoint (codes ":")
            then codes "127.0.0.1" ++ endpoint
            else endpoint
        (url, e) ← parse_service_url web (codes "socks://" ++ normalized) false
        reject
            (truthy url.username
              || truthy url.password
              || truthy url.pathname
              || truthy url.search
              || truthy url.hash)
            socks_host_port
