-- ===== src/Auth/Access.antt =====
-- Who is let in: the check of the session and the guard's redirections, by the provider and the
-- guard of web/src/components/auth.
use nowhere_dash.Base.{
  ◌≡◌, refl, Bool, true, false, ◌⊎◌, inl, inr, Option, none, some, Text, truthy, Bool-cases,
  Option-cases,
}
use nowhere_dash.Session.{Storage}
use nowhere_dash.Auth.Provider.{
  Clock, Auth, has_item, is_expired, check_token, check_auth, has_user, restore, restore_text,
  forget,
}
use nowhere_dash.Auth.Guard.{
  Guarded, Timer, guard_effect, fire, fire_timer, view, content, is_public_route, is_setup_guide,
  destination, set, unset,
}

-- Once no check is running, the guard's timer leads to a page that it shows, and its next run stays
-- there.
pub guard_settles :
    (g : Guarded)
    → g.auth.loading ≡ false
    → (view (fire (guard_effect g)).auth ≡ content)
      × ((fire (guard_effect (fire (guard_effect g)))).auth ≡ (fire (guard_effect g)).auth)
unfolding fire guard_effect destination view is_public_route
guard_settles g h = elim (Option-cases g.auth.user) [
  | inl u ↦ elim (Bool-cases (is_public_route g.auth.pathname)) [
    | inl p ↦ simp (h, u, p) (refl, refl)
    | inr p ↦ simp (h, u, p) (refl, refl)
  ]
  | inr (name, u) ↦ elim (Bool-cases (is_public_route g.auth.pathname)) [
    | inl p ↦ elim (Bool-cases (is_setup_guide g.auth.pathname)) [
      | inl q ↦ simp (h, u, p, q) (refl, refl)
      | inr q ↦ simp (h, u, p, q) (refl, refl)
    ]
    | inr p ↦ simp (h, u, p) (refl, refl)
  ]
]

-- A user is there only with a token that is given and that has not expired.
unfoldable pub IsAdmitted : Clock → Auth → Type 0
IsAdmitted c a =
    (a.user ≡ none)
    ⊎ ((has_item a.storage.token ≡ true) × (is_expired c a.storage.token_expires_at ≡ false))

abbrev OfStorage : Clock → Storage → Type 0
OfStorage c s = (has_item s.token ≡ true) × (is_expired c s.token_expires_at ≡ false)

-- Taking over the stored user leaves the token.
restore-token :
    (c : Clock) (s : Option Text) (a : Auth)
    → OfStorage c a.storage
    → OfStorage c (restore_text c s a).storage
unfolding restore_text
restore-token c none a h = h
restore-token c (some s) a h = elim (Bool-cases (truthy s)) [
  | inl t ↦ elim (Option-cases (c.parse_user s)) [
    | inl e ↦ rw (t, e) h
    | inr (user, e) ↦ rw (t, e) h
  ]
  | inr t ↦ rw t h
]

check_token-IsAdmitted :
    (c : Clock) (seen : Option Text) (a : Auth) → IsAdmitted c (check_token c seen a)
unfolding check_token forget restore IsAdmitted
check_token-IsAdmitted c seen a = elim (Bool-cases (has_item a.storage.token)) [
  | inl t ↦ elim (Bool-cases (is_expired c a.storage.token_expires_at)) [
    | inl e ↦ rw (t, e) (inl refl)
    | inr e ↦ elim (Bool-cases (has_user seen)) [
      | inl u ↦ rw (t, e, u) (inr (t, e))
      | inr u ↦ rw (t, e, u) (inr (restore-token c a.storage.user a (t, e)))
    ]
  ]
  | inr t ↦ rw t (inl refl)
]

-- What a forced check leaves, whatever the closure saw: no check is running, and a user is there
-- only with a token that is given and that has not expired.
check_auth-IsAdmitted :
    (c : Clock) (seen : Option Text) (loading : Bool) (a : Auth)
    → ((check_auth c true seen loading a).loading ≡ false)
      × IsAdmitted c (check_auth c true seen loading a)
unfolding check_auth IsAdmitted
check_auth-IsAdmitted c seen true a =
    (refl, check_token-IsAdmitted c seen (record a { loading = true }))
check_auth-IsAdmitted c seen false a =
    (refl, check_token-IsAdmitted c seen (record a { loading = true }))

-- The provider and the guard from the first effect of both: the stored user is taken over, the
-- forced check runs, and the guard runs and its timer fires.
unfoldable pub start : Clock → Auth → Auth
start c a =
    (fire (
      guard_effect
        (record { auth = check_auth c true none true (restore c a); timer = unset }))).auth

fire_timer-IsAdmitted :
    (c : Clock) (t : Timer) (a : Auth) → IsAdmitted c a → IsAdmitted c (fire_timer t a)
unfolding IsAdmitted
fire_timer-IsAdmitted c unset a h = h
fire_timer-IsAdmitted c (set none) a h = h
fire_timer-IsAdmitted c (set (some path)) a h = h

-- From every storage and path, the first check and the guard end with the content of a page, and a
-- user is there only with a token that is given and has not expired.
pub start_shows : (c : Clock) (a : Auth) → (view (start c a) ≡ content) × IsAdmitted c (start c a)
unfolding start fire guard_effect
start_shows c a =
    let a' = check_auth c true none true (restore c a) in
    let (l, h) = check_auth-IsAdmitted c none true (restore c a) in
    let (shown, stays) = guard_settles (record { auth = a'; timer = unset }) l in
    (shown, fire_timer-IsAdmitted c _ a' h)
