-- ===== src/Session/Guard.antt =====
-- What the API client and the interceptor do together with the token.
use nowhere_dash.Base.{ℕ, ◌+◌, true, false, none, Text, ◌≡◌, arith, if◌then◌else◌}
use nowhere_dash.Session.{
  Page, Request, Options, bearer, is_api_request, is_public_endpoint, or_header, clear_session,
  api_response, build_api_url, intercept, intercept_response, api_request, api_sent, api_fetch,
}

module _ (origin path : Text) (o : Options) (p : Page) where
  -- The authorization of a protected request is the bearer token or the caller's header: without
  -- `skipAuth` the token wins over the caller's header, with it the caller's header wins over the
  -- token.
  pub api_sent-authorization :
      is_api_request (build_api_url origin path) ≡ true
      → is_public_endpoint (build_api_url origin path) ≡ false
      → ((api_sent p origin path (record o { skip_auth = false })).authorization
          ≡ or_header (bearer p.storage.token) o.authorization)
        × ((api_sent p origin path (record o { skip_auth = true })).authorization
            ≡ or_header o.authorization (bearer p.storage.token))
  unfolding api_sent intercept api_request bearer
  api_sent-authorization api protected = ground arith

  -- `skipAuth` does not keep the token from a protected request with no header of its own: the
  -- interceptor adds it.
  pub skip_auth_sends_token :
      is_api_request (build_api_url origin path) ≡ true
      → is_public_endpoint (build_api_url origin path) ≡ false
      → o.authorization ≡ none
      → (api_sent p origin path (record o { skip_auth = true })).authorization
        ≡ (api_sent p origin path (record o { skip_auth = false })).authorization
  unfolding api_sent intercept api_request bearer
  skip_auth_sends_token api protected bare = ground arith

  -- When the server answers a protected request with 401, with `skipAuth` or without, the token
  -- and the user are removed and one redirect is scheduled, and the next request to whatever path
  -- carries no authorization but the caller's own.
  pub api_fetch_signs_out :
      (server : Request → ℕ) (path' : Text) (o' : Options)
      → is_public_endpoint (build_api_url origin path) ≡ false
      → server (api_sent p origin path o) ≡ 401
      → ((api_fetch server origin path o p).storage.token ≡ none)
        × ((api_fetch server origin path o p).storage.user ≡ none)
        × ((api_fetch server origin path o p).pending ≡ p.pending + 1)
        × ((api_sent (api_fetch server origin path o p) origin path' o').authorization
            ≡ o'.authorization)
  unfolding api_fetch api_sent intercept intercept_response api_request api_response bearer
      clear_session
  api_fetch_signs_out server path' o' protected refused = ground arith

  -- A public endpoint's request is sent as the client wrote it. A 401 from it schedules no
  -- redirect; it removes the token when the client is called without `skipAuth`, and keeps it
  -- otherwise.
  pub api_fetch_public :
      (server : Request → ℕ)
      → is_public_endpoint (build_api_url origin path) ≡ true
      → server (api_sent p origin path o) ≡ 401
      → (api_sent p origin path o ≡ api_request p.storage origin path o)
        × ((api_fetch server origin path o p).pending ≡ p.pending)
        × ((api_fetch server origin path o p).storage.token
            ≡ (if o.skip_auth then p.storage.token else none))
  unfolding api_fetch api_sent intercept intercept_response api_request api_response bearer
      clear_session
  api_fetch_public server unguarded refused = ground arith
