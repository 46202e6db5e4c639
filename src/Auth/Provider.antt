-- ===== src/Auth/Provider.antt =====
-- `AuthProvider` of web/src/components/auth/auth-provider.tsx. `localStorage` is the record of
-- Session, a user what `JSON.parse` makes of a stored text.
use nowhere_dash.Base.{
  ℕ, ◌+◌, ◌-◌, Bool, true, false, not, ◌&&◌, Option, none, some, if◌then◌else◌, Text, codes, truthy,
}
use nowhere_dash.Session.{Storage, bearer}

-- `JSON.parse` of a stored user, whose exceptions are `none` and whose falsy values are `some none`,
-- and the test that a date has passed, which fails for a text that is no date.
pub record Clock : Type 0 where
  pub parse_user : Text → Option (Option Text)
  pub has_passed : Text → Bool
  pub now : ℕ

-- The state of the provider, the location and the callbacks of `logout` still to run. A user is its
-- name.
pub record Auth : Type 0 where
  pub user : Option Text
  pub loading : Bool
  pub last_check_time : ℕ
  pub storage : Storage
  pub pathname : Text
  pub leaving : ℕ

-- A falsy item is like a missing one.
abbrev pub has_item : Option Text → Bool
has_item none = false
has_item (some s) = truthy s

unfoldable pub set_token : Text → Option Text → Auth → Auth
set_token token expires a = record a {
  storage = record a.storage {
    token = some token;
    token_expires_at = (if has_item expires then expires else a.storage.token_expires_at);
  };
}

unfoldable pub clear_token : Auth → Auth
clear_token a = record a { storage = record a.storage { token = none; token_expires_at = none } }

-- `setUser(null); clearToken(); localStorage.removeItem("nowhere.user");`.
unfoldable pub forget : Auth → Auth
unfolding clear_token
forget a = record a {
  user = none;
  storage = record { token = none; token_expires_at = none; user = none };
}

-- The stored user is taken over, or removed if it cannot be read.
unfoldable pub restore_text : Clock → Option Text → Auth → Auth
restore_text c none a = a
restore_text c (some stored) a = if not (truthy stored) then a else elim (c.parse_user stored) [
  | some user ↦ record a { user = user }
  | none ↦ record a { storage = record a.storage { user = none } }
]

-- The first effect.
unfoldable pub restore : Clock → Auth → Auth
unfolding restore_text
restore c a = restore_text c a.storage.user a

-- The token's date is given and has passed.
unfoldable pub is_expired : Clock → Option Text → Bool
is_expired c none = false
is_expired c (some date) = truthy date && c.has_passed date

abbrev pub has_user : Option Text → Bool
has_user none = false
has_user (some user) = true

-- The `try` block of `checkAuth`; `seen` is the user that the closure holds.
unfoldable pub check_token : Clock → Option Text → Auth → Auth
unfolding forget is_expired restore
check_token c seen a =
    if not (has_item a.storage.token)
    then forget a
    else if is_expired c a.storage.token_expires_at
    then forget a
    else record (if has_user seen then a else restore c a) { last_check_time = c.now }

-- `checkAuth(forceCheck)` as a closure that holds a user and the flag `loading`.
unfoldable pub check_auth : Clock → Bool → Option Text → Bool → Auth → Auth
unfolding check_token
check_auth c force seen loading a =
    if loading && not force
    then a
    else record (check_token c seen (record a { loading = true })) { loading = false }

-- `logout` up to the answer, whose outcome does not matter, and after it.
unfoldable pub begin_logout : Auth → Auth
begin_logout a = record a { loading = true }

unfoldable pub end_logout : Auth → Auth
unfolding forget
end_logout a = record (forget a) { leaving = a.leaving + 1 }

-- The authorization of the request that `logout` makes.
unfoldable pub logout_authorization : Auth → Option Text
logout_authorization a = bearer a.storage.token

-- The callback of `setTimeout` in `logout`.
unfoldable pub leave : Auth → Auth
leave a = record a { loading = false; pathname = codes "/login"; leaving = a.leaving - 1 }

unfoldable pub set_user_directly : Option Text → Auth → Auth
set_user_directly user a = record a { user = user }
