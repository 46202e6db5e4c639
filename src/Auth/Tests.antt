-- ===== src/Auth/Tests.antt =====
-- Signing in at a concrete storage.
use nowhere_dash.Base.{◌≡◌, refl, true, false, [], some, none, Text, codes, text_eq}
use nowhere_dash.Session.{Storage}
use nowhere_dash.Auth.Provider.{Clock, Auth, check_auth}
use nowhere_dash.Auth.Guard.{
  Guarded, unset, fire, guard_effect, view, content, is_public_route, is_setup_guide,
}
use nowhere_dash.Auth.Gate.{Gate, checking}
use nowhere_dash.Auth.Access.{IsAdmitted, start, guard_settles, start_shows}

abbrev clock : Clock
clock = record {
  parse_user = λ s. some (some s);
  has_passed = λ s. text_eq s (codes "2020");
  now = 7;
}

abbrev opened : Storage → Text → Auth
opened s path = record {
  user = none;
  loading = true;
  last_check_time = 0;
  storage = s;
  pathname = path;
  leaving = 0;
}

abbrev signed_in : Storage
signed_in = record {
  token = some (codes "t");
  token_expires_at = some (codes "2030");
  user = some (codes "ann");
}

abbrev out_of_date : Storage
out_of_date = record signed_in { token_expires_at = some (codes "2020") }

abbrev at_login : Guarded
at_login = record {
  auth = record (opened signed_in (codes "/login/")) { user = some (codes "ann"); loading = false };
  timer = unset;
}

guard_settles_example :
    (view (fire (guard_effect at_login)).auth ≡ content)
    × ((fire (guard_effect (fire (guard_effect at_login)))).auth
        ≡ (fire (guard_effect at_login)).auth)
guard_settles_example = guard_settles at_login refl

start_shows_example :
    (view (start clock (opened signed_in (codes "/login/"))) ≡ content)
    × IsAdmitted clock (start clock (opened signed_in (codes "/login/")))
start_shows_example = start_shows clock (opened signed_in (codes "/login/"))

-- A user who is signed in is led from the login to the dashboard, and one whose token is out of
-- date the other way.
start_led :
    ((start clock (opened signed_in (codes "/login/"))).pathname ≡ codes "/dashboard")
    × ((start clock (opened out_of_date (codes "/tunnels"))).pathname ≡ codes "/login")
unfolding start fire guard_effect check_auth text_eq is_public_route is_setup_guide
start_led = (refl, refl)

abbrev asked : Gate
asked = record { phase = checking; message = []; pathname = codes "/setup" }
