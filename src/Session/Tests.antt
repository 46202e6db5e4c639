-- ===== src/Session/Tests.antt =====
-- Runs of the API client behind the interceptor, and its theorems at them.
use nowhere_dash.Base.{ℕ, ◌+◌, true, false, some, none, Text, codes, ◌≡◌, refl, includes}
use nowhere_dash.Session.{
  Page, Request, Options, is_api_request, is_public_endpoint, build_api_url, api_sent, api_fetch,
}
use nowhere_dash.Session.Guard.{api_fetch_signs_out}

abbrev signed_in : Page
signed_in = record {
  storage = record { token = some (codes "t"); token_expires_at = none; user = some (codes "u") };
  pathname = codes "/tunnels";
  pending = 0;
}

abbrev plain_get : Options
plain_get = record {
  skip_auth = false;
  method = codes "GET";
  authorization = none;
  content_type = none;
  body = none;
}

abbrev origin_text : Text
origin_text = codes "https://d"

abbrev tunnels_path : Text
tunnels_path = codes "/api/tunnels"

abbrev login_path : Text
login_path = codes "/api/auth/login"

-- A server that refuses every request.
abbrev refusing : Request → ℕ
refusing r = 401

paths_seen :
    (is_api_request (build_api_url origin_text tunnels_path) ≡ true)
    × (is_public_endpoint (build_api_url origin_text tunnels_path) ≡ false)
    × (is_public_endpoint (build_api_url origin_text login_path) ≡ true)
unfolding build_api_url includes
paths_seen = (refl, refl, refl)

api_fetch_signs_out_example :
    ((api_fetch refusing origin_text tunnels_path plain_get signed_in).storage.token ≡ none)
    × ((api_fetch refusing origin_text tunnels_path plain_get signed_in).storage.user ≡ none)
    × ((api_fetch refusing origin_text tunnels_path plain_get signed_in).pending ≡ 0 + 1)
    × ((api_sent
          (api_fetch refusing origin_text tunnels_path plain_get signed_in)
          origin_text
          tunnels_path
          plain_get).authorization
        ≡ none)
api_fetch_signs_out_example =
    api_fetch_signs_out origin_text tunnels_path plain_get signed_in refusing tunnels_path plain_get
      paths_seen.1 refl
