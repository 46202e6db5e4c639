-- ===== src/Session.antt =====
-- The signed-in session: web/src/lib/api-client.ts, web/src/lib/fetch-interceptor.ts and
-- `buildApiUrl` of web/src/lib/utils.ts. `localStorage` is a record of the three keys that the code
-- removes; a response is its status.
pub mod Guard
mod Tests
use nowhere_dash.Base.{
  ℕ, ◌+◌, Bool, true, false, not, ◌&&◌, ◌||◌, List, [], ◌∷◌, ◌++◌, Option, none, some, ◌==◌,
  if◌then◌else◌, Text, codes, truthy, includes, any,
}

-- `nowhere.token`, `nowhere.tokenExpiresAt` and `nowhere.user`.
pub record Storage : Type 0 where
  pub token : Option Text
  pub token_expires_at : Option Text
  pub user : Option Text

-- The page: its storage, the path of its location and the redirects to `/login` still to run.
pub record Page : Type 0 where
  pub storage : Storage
  pub pathname : Text
  pub pending : ℕ

-- What `fetch` is called with; a header that is not set is `none`.
pub record Request : Type 0 where
  pub url : Text
  pub method : Text
  pub authorization : Option Text
  pub content_type : Option Text
  pub body : Option Text

-- The options that a caller gives; a body that is falsy is `none`, another its JSON text.
pub record Options : Type 0 where
  pub skip_auth : Bool
  pub method : Text
  pub authorization : Option Text
  pub content_type : Option Text
  pub body : Option Text

unfoldable pub clear_session : Page → Page
clear_session p = record p {
  storage = record { token = none; token_expires_at = none; user = none };
}

-- `Bearer ${token}`, if the token is truthy.
unfoldable pub bearer : Option Text → Option Text
bearer (some (c ∷ s)) = some (codes "Bearer " ++ c ∷ s)
bearer _ = none

abbrev pub or_header : Option Text → Option Text → Option Text
or_header none b = b
or_header (some a) b = some a

-- `isApiRequest` and `isPublicEndpoint`.
abbrev pub is_api_request : Text → Bool
is_api_request url = includes url (codes "/api/")

abbrev pub public_endpoints : List Text
public_endpoints =
    codes "/api/auth/login"
    ∷ codes "/api/auth/init"
    ∷ codes "/api/auth/check-default-credentials"
    ∷ codes "/api/auth/oauth2"
    ∷ codes "/api/oauth2/callback"
    ∷ codes "/api/oauth2/login"
    ∷ []

abbrev pub is_public_endpoint : Text → Bool
is_public_endpoint url = any (λ endpoint. includes url endpoint) public_endpoints

-- What the interceptor hands to the original `fetch`.
unfoldable pub intercept : Storage → Request → Request
intercept s r =
    if is_api_request r.url && not (is_public_endpoint r.url)
    then record r { authorization = or_header r.authorization (bearer s.token) }
    else r

-- What the interceptor does with a response.
unfoldable pub intercept_response : ℕ → Text → Page → Page
intercept_response status url p =
    if status == 401 && not (is_public_endpoint url)
    then record (clear_session p) { pending = p.pending + 1 }
    else p

-- The callback of `setTimeout`.
unfoldable pub run_redirect : Page → Page
run_redirect p =
    if includes p.pathname (codes "/login") then p else record p { pathname = codes "/login" }

-- `buildApiUrl`: the origin in production, nothing in development.
unfoldable pub build_api_url : Text → Text → Text
build_api_url origin path = origin ++ path

-- The request of `apiFetch`.
unfoldable pub api_request : Storage → Text → Text → Options → Request
api_request s origin path o = record {
  url = build_api_url origin path;
  method = o.method;
  authorization =
      (if o.skip_auth then o.authorization else or_header (bearer s.token) o.authorization);
  content_type = o.content_type;
  body = o.body;
}

unfoldable pub api_response : ℕ → Bool → Page → Page
api_response status skip p = if status == 401 && not skip then clear_session p else p

-- The request that reaches the network, through the interceptor.
unfoldable pub api_sent : Page → Text → Text → Options → Request
api_sent p origin path o = intercept p.storage (api_request p.storage origin path o)

-- `apiFetch` with a server that answers each request with a status.
unfoldable pub api_fetch : (Request → ℕ) → Text → Text → Options → Page → Page
api_fetch server origin path o p =
    let sent = api_sent p origin path o in
    api_response (server sent) o.skip_auth (intercept_response (server sent) sent.url p)

-- `apiGet` and `apiDelete`; `apiPost`, `apiPut` and `apiPatch`, where a header of the caller's
-- comes after the one for JSON.
unfoldable pub plain_options : Text → Options → Options
plain_options method o = record o { method = method }

unfoldable pub json_options : Text → Option Text → Options → Options
json_options method body o = record o {
  method = method;
  content_type = or_header o.content_type (some (codes "application/json"));
  body = body;
}
