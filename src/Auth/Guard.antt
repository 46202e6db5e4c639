-- ===== src/Auth/Guard.antt =====
-- `RouteGuard` of web/src/components/auth/route-guard.tsx.
use mathlib.Core.List.{reverse}
use nowhere_dash.Base.{
  Bool, not, ◌&&◌, ◌||◌, List, [], ◌∷◌, Option, none, some, ◌==◌, if◌then◌else◌, Text, codes,
  text_eq, is_member, map,
}
use nowhere_dash.Auth.Provider.{Auth, has_user}

unfoldable pub drop_slashes : Text → Text
drop_slashes [] = []
drop_slashes (c ∷ s) = if c == b'/' then drop_slashes s else c ∷ s

-- `path.replace(/\/+$/, "")`, but for `/`.
unfoldable pub normalize_path : Text → Text
unfolding drop_slashes text_eq
normalize_path path =
    if text_eq path (codes "/") then path else reverse (drop_slashes (reverse path))

abbrev pub raw_public_routes : List Text
raw_public_routes =
    codes "/login"
    ∷ codes "/oauth-error"
    ∷ codes "/oauth-success"
    ∷ codes "/setup-guide"
    ∷ codes "/setup"
    ∷ []

unfoldable pub is_public_route : Text → Bool
unfolding normalize_path is_member
is_public_route path = is_member (normalize_path path) (map normalize_path raw_public_routes)

unfoldable pub is_setup_guide : Text → Bool
unfolding normalize_path text_eq
is_setup_guide path = text_eq (normalize_path path) (codes "/setup-guide")

-- Where the callback of the timer goes, by what the effect's closure holds.
unfoldable pub destination : Option Text → Text → Option Text
destination user path =
    if not (has_user user) && not (is_public_route path)
    then some (codes "/login")
    else if has_user user && is_public_route path && not (is_setup_guide path)
    then some (codes "/dashboard")
    else none

-- The timer of the guard, if one is set: where it goes.
pub data Timer : Type 0 where
  unset : Timer
  set : Option Text → Timer

pub record Guarded : Type 0 where
  pub auth : Auth
  pub timer : Timer

-- The effect, which clears the timer of the run before.
unfoldable pub guard_effect : Guarded → Guarded
unfolding destination
guard_effect g = record g {
  timer = (if g.auth.loading then unset else set (destination g.auth.user g.auth.pathname));
}

unfoldable pub unmount : Guarded → Guarded
unmount g = record g { timer = unset }

abbrev pub go_to : Option Text → Auth → Auth
go_to none a = a
go_to (some path) a = record a { pathname = path }

abbrev pub fire_timer : Timer → Auth → Auth
fire_timer unset a = a
fire_timer (set path) a = go_to path a

-- The callback of the timer.
unfoldable pub fire : Guarded → Guarded
fire g = record { auth = fire_timer g.timer g.auth; timer = unset }

pub data View : Type 0 where
  verifying redirecting content : View

unfoldable pub view : Auth → View
view a =
    let public = is_public_route a.pathname in
    if a.loading
    then verifying
    else if (has_user a.user && not public)
        || (not (has_user a.user) && public)
        || (has_user a.user && is_setup_guide a.pathname)
    then content
    else redirecting
