-- ===== src/Portal/Build/Options.antt =====
-- What `buildPortalUrl` puts out: the endpoint and the options of a new portal URL.
use mathlib.Core.Path.{subst}
use nowhere_dash.Base.{
  true, false, [], some, Text, codes, ◌≡◌, ◌≢◌, ◌⊎◌, arith, inl, inr, Bool-cases, Option-cases,
}
use nowhere_dash.Portal.Platform.{Platform, ok, Result-cases}
use nowhere_dash.Portal.Endpoint.{
  ServiceEndpoint, format_service_endpoint, validate_service_endpoint,
}
use nowhere_dash.Portal.Endpoint.Valid.{IsValid, validate_service_endpoint_iff}
use nowhere_dash.Portal.Credentials.{parse_next_endpoint, validate_socks_endpoint}
use nowhere_dash.Portal.Query.{Entries, set}
use nowhere_dash.Portal.Build.Chain.{
  HasNoNextKey, delete_all-HasNoNextKey, finish-SameNext, SameNext-IsChained, IsChained,
  set_carriers-IsChained, SameNext-HasNoNextKey, some_inj,
}
use nowhere_dash.Portal.Tunnel.{Tunnel, nullish, falsy, is_none}
use nowhere_dash.Portal.Service.{url_of_either, portal_service_endpoint}
use nowhere_dash.Portal.Build.{
  given_query, next_of, set_certificate, assemble, next_query, finish_portal_url, new_portal_url,
  build_portal_url,
}

module _ (web : Platform) (t : Tunnel) where
  -- What a new portal URL says: a valid endpoint, an acceptable SOCKS address, and either no `next`
  -- and none of the keys that belong to it, or a `next` that could be read with its carriers.
  pub record IsBuilt (raw : Text) : Type 0 where
    pub endpoint_valid : IsValid web true (portal_service_endpoint web t)
    pub socks_valid : validate_socks_endpoint web (falsy t.socks (codes "none")) false ≡ ok tt
    pub query : Entries
    pub chain :
        ((is_none (next_of t) ≡ true) × HasNoNextKey query)
        ⊎ ((e : ServiceEndpoint) × (parse_next_endpoint web (next_of t) ≡ ok e)
            × IsChained t e query)
    pub raw_is :
        raw
        ≡ assemble
            (codes "portal")
            (nullish t.shared_key [])
            (format_service_endpoint web (portal_service_endpoint web t))
            query

  chain_of :
      (m n : Entries)
      → next_query web t m ≡ some n
      → ((is_none (next_of t) ≡ true) × HasNoNextKey n)
        ⊎ ((e : ServiceEndpoint) × (parse_next_endpoint web (next_of t) ≡ ok e) × IsChained t e n)
  unfolding next_query
  chain_of m n e =
      let named = set (codes "next") (next_of t) m in
      elim (Bool-cases (is_none (next_of t))) [
        | inl off ↦
            inl (off, subst HasNoNextKey (some_inj (rw off at e)) (delete_all-HasNoNextKey named))
        | inr on ↦ elim (Result-cases (parse_next_endpoint web (next_of t))) [
          | inl (x, bad) ↦ absurd (ground arith)
          | inr (s, read) ↦ inr (
            s,
            read,
            subst (IsChained t s) (some_inj (rw (on, read) at e))
                (set_carriers-IsChained t s named),
          )
        ]
      ]

  -- With no URL in the command, whatever `buildPortalUrl` returns other than the empty text is such a
  -- URL: without a `next` no key that belongs to one is left, and with one, both carriers and `mux`
  -- are given, and `mux` is 0 when both carriers are UDP.
  pub build_portal_url-IsBuilt :
      url_of_either t.command_url t.command_line ≡ []
      → build_portal_url web t ≢ []
      → IsBuilt (build_portal_url web t)
  unfolding build_portal_url new_portal_url finish_portal_url
  build_portal_url-IsBuilt none_given made =
      let e = portal_service_endpoint web t in
      elim (Result-cases (validate_service_endpoint web e true)) [
        | inl (x, bad) ↦ absurd (ground arith)
        | inr (y, valid) ↦ elim (Option-cases (next_query web t (given_query t))) [
          | inl bad ↦ absurd (ground arith)
          | inr (m, chained) ↦
              elim (Result-cases
                (validate_socks_endpoint web (falsy t.socks (codes "none")) false)) [
                  | inl (x, bad) ↦ absurd (ground arith)
                  | inr (z, socks) ↦
                      let level = falsy t.log_level (codes "info") in
                      let same = finish-SameNext t level m in
                      record {
                        endpoint_valid = (validate_service_endpoint_iff web e true).0 valid;
                        socks_valid = socks;
                        query = set (codes "log") level (set_certificate t m);
                        chain = elim (chain_of (given_query t) m chained) [
                          | inl (off, clean) ↦ inl (off, SameNext-HasNoNextKey _ m same clean)
                          | inr (s, read, c) ↦ inr (s, read, SameNext-IsChained t s _ m same c)
                        ];
                        raw_is = ground arith;
                      }
                ]
        ]
      ]
