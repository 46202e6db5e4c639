-- ===== src/Portal/Service/Match.antt =====
-- Theorems on `portalUrlsMatch`.
use mathlib.Core.Path.{subst}
use nowhere_dash.Base.{
  Bool, true, false, [], ◌∷◌, ◌++◌, none, some, map, Text, codes, text_eq, text_eq_iff,
  text_eq_refl, All, ◌≡◌, refl, arith, inl, inr, Bool-cases, Option-cases, if◌then◌else◌,
}
use nowhere_dash.Portal.Platform.{Platform, Url, ok, Result-cases}
use nowhere_dash.Portal.Uri.{decode_uri_component}
use nowhere_dash.Portal.Endpoint.{ServiceEndpoint, format_service_endpoint}
use nowhere_dash.Portal.Parse.{parse_service_url, parse_portal_url}
use nowhere_dash.Portal.Credentials.{validate_socks_endpoint}
use nowhere_dash.Portal.Query.{Entries, get, get_or, portal_query, query_defaults}
use nowhere_dash.Portal.Query.Keys.{IsUnique, set-IsUnique, ok_inj}
use nowhere_dash.Portal.Tunnel.{
  without_credential, is_none, compare_socks, set_next_keys, compare_next, compare_numbers,
  comparable_portal_query, agrees, same_key,
}
use nowhere_dash.Portal.Service.{queries_agree, match_parsed, portal_urls_match}

-- Every entry of a list without double keys is found by its key, also behind another entry.
agrees-weaken :
    (k v : Text) (m n : Entries)
    → get k m ≡ none
    → All (λ e. get e.0 n ≡ some e.1) m
    → All (λ e. get e.0 ((k, v) ∷ n) ≡ some e.1) m
unfolding get
agrees-weaken k v [] n h _ = tt
agrees-weaken k v ((k', v') ∷ m) n h (g, gs) =
    (ground (arith, text_eq_iff k k', text_eq_iff k' k), agrees-weaken k v m n (ground arith) gs)

found : (m : Entries) → IsUnique m → All (λ e. get e.0 m ≡ some e.1) m
unfolding get
found [] _ = tt
found ((k, v) ∷ m) (h, hs) = (rw (text_eq_refl k) refl, agrees-weaken k v m m h (found m hs))

if_keeps : (P : Entries → Type 0) (b : Bool) (m n : Entries) → P m → P n → P (if b then m else n)
if_keeps P true m n p q = p
if_keeps P false m n p q = q

defaults-IsUnique : (f : Text × Text → Text) → IsUnique (map (λ e. (e.0, f e)) query_defaults)
unfolding get text_eq
defaults-IsUnique f = (refl, (refl, (refl, (refl, (refl, (refl, (refl, tt)))))))

module _ (web : Platform) where
  agrees-found : (m n : Entries) → All (λ e. get e.0 n ≡ some e.1) m → agrees web m n ≡ true
  agrees-found [] n _ = refl
  agrees-found ((k, v) ∷ m) n (h, hs) = rw (h, text_eq_refl v) (agrees-found m n hs)

  compare_socks-IsUnique : (m n : Entries) → IsUnique m → compare_socks web m ≡ ok n → IsUnique n
  unfolding compare_socks
  compare_socks-IsUnique m n u e =
      let socks = get_or (codes "socks") m [] in
      elim (Bool-cases (is_none socks)) [
        | inl off ↦ subst IsUnique (ok_inj (rw off at e)) u
        | inr on ↦ elim (Option-cases (decode_uri_component (without_credential socks))) [
          | inl bad ↦ absurd (ground arith)
          | inr (endpoint, given) ↦ elim (Result-cases (validate_socks_endpoint web socks false)) [
            | inl (x, bad) ↦ absurd (ground arith)
            | inr (y, valid) ↦
                elim (Result-cases (parse_service_url web (codes "socks://" ++ endpoint) false)) [
                  | inl (x, bad) ↦ absurd (ground arith)
                  | inr ((url, s), read) ↦
                      subst IsUnique (ok_inj (rw (on, given, valid, read) at e))
                        (set-IsUnique (codes "socks") (format_service_endpoint web s) m u)
                ]
          ]
        ]
      ]

  set_next_keys-IsUnique :
      (query : Entries) (carrier : Text) (m : Entries)
      → IsUnique m
      → IsUnique (set_next_keys web query carrier m)
  unfolding set_next_keys
  set_next_keys-IsUnique query carrier m u =
      set-IsUnique _ _ _
        (set-IsUnique _ _ _ (set-IsUnique _ _ _ (set-IsUnique _ _ _ (set-IsUnique _ _ _ u))))

  compare_next-IsUnique :
      (query m n : Entries) → IsUnique m → compare_next web query m ≡ ok n → IsUnique n
  unfolding compare_next
  compare_next-IsUnique query m n u e =
      let next = get_or (codes "next") m [] in
      elim (Bool-cases (is_none next)) [
        | inl off ↦ subst IsUnique (ok_inj (rw off at e)) u
        | inr on ↦
            elim (Result-cases
              (parse_service_url web (codes "vector://" ++ without_credential next) false)) [
                | inl (x, bad) ↦ absurd (ground arith)
                | inr ((url, s), read) ↦ subst IsUnique (ok_inj (rw (on, read) at e)) (
                    if_keeps IsUnique _ _ _
                      (set-IsUnique _ _ _ (set_next_keys-IsUnique query _ _ (set-IsUnique _ _ m u)))
                      (set_next_keys-IsUnique query _ _ (set-IsUnique _ _ m u)))
              ]
      ]

  compare_numbers-IsUnique : (m : Entries) → IsUnique m → IsUnique (compare_numbers web m)
  unfolding compare_numbers
  compare_numbers-IsUnique m u =
      let etared = set-IsUnique _ _ _ (set-IsUnique _ _ m u) in
      if_keeps IsUnique _ _ _ (set-IsUnique _ _ _ etared) etared

  comparable_portal_query-IsUnique :
      (url : Url) (m : Entries) → comparable_portal_query web url ≡ ok m → IsUnique m
  unfolding comparable_portal_query
  comparable_portal_query-IsUnique url m e = elim (Result-cases (portal_query url.search)) [
    | inl (x, bad) ↦ absurd (ground arith)
    | inr (query, read) ↦
        let values : Entries = map (λ e. (e.0, get_or e.0 query e.1)) query_defaults in
        elim (Result-cases (compare_socks web values)) [
          | inl (x, bad) ↦ absurd (ground arith)
          | inr (socksed, by_socks) ↦ elim (Result-cases (compare_next web query socksed)) [
            | inl (x, bad) ↦ absurd (ground arith)
            | inr (nexted, by_next) ↦ subst IsUnique (ok_inj (rw (read, by_socks, by_next) at e)) (
                compare_numbers-IsUnique nexted (
                  compare_next-IsUnique query socksed nexted
                    (compare_socks-IsUnique values socksed
                      (defaults-IsUnique (λ d. get_or d.0 query d.1)) by_socks)
                    by_next))
          ]
        ]
  ]

  same_key_refl :
      (u : Url) (s : ServiceEndpoint) (raw : Text)
      → parse_portal_url web raw ≡ some (u, s)
      → same_key web u.username u.username ≡ true
  unfolding parse_portal_url
  same_key_refl u s raw e = elim (Result-cases (parse_service_url web raw true)) [
    | inl (x, bad) ↦ absurd (ground arith)
    | inr ((url, t), parsed) ↦ elim (Option-cases (decode_uri_component url.username)) [
      | inl bad ↦ absurd (ground arith)
      | inr (key, read) ↦
          let same : url ≡ u = ground arith in
          subst (λ v. same_key web v.username v.username ≡ true) same
            (ground (arith, text_eq_refl key))
    ]
  ]

  -- A portal URL whose query can be read and compared matches itself.
  pub portal_urls_match_refl :
      (raw : Text) (u : Url) (s : ServiceEndpoint) (m : Entries)
      → parse_portal_url web raw ≡ some (u, s)
      → comparable_portal_query web u ≡ ok m
      → portal_urls_match web raw raw ≡ true
  unfolding portal_urls_match match_parsed queries_agree
  portal_urls_match_refl raw u s m parsed read =
      let unique = found m (comparable_portal_query-IsUnique u m read) in
      ground (
        arith,
        text_eq_refl (format_service_endpoint web s),
        same_key_refl u s raw parsed,
        agrees-found m m unique,
      )
