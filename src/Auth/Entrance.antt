-- ===== src/Auth/Entrance.antt =====
-- Where the gate of the setup and a logout lead (web/src/components/setup/setup-gate.tsx and
-- `logout` of web/src/components/auth/auth-provider.tsx).
use mathlib.Core.Bool.{true≢false}
use nowhere_dash.Base.{
  ◌≡◌, ◌≢◌, refl, sym, ◌∙◌, true, false, inl, inr, none, Text, codes, Bool-cases, text_eq,
  text_eq_iff,
}
use nowhere_dash.Auth.Provider.{Auth, begin_logout, end_logout, leave, forget}
use nowhere_dash.Auth.Guard.{view, content, is_public_route, destination}
use nowhere_dash.Auth.Gate.{
  Phase, checking, ready, needs_setup, failed, Gate, Status, setup_mode, broken, checked,
}

-- The path that suits a phase: the page of the setup where the server needs it, another where it is
-- set up.
unfoldable pub Suits : Phase → Text → Type 0
Suits checking path = Unit {0}
Suits ready path = path ≢ codes "/setup"
Suits needs_setup path = path ≡ codes "/setup"
Suits failed path = Unit {0}

login-ne : codes "/login" ≢ codes "/setup"
unfolding text_eq
login-ne q = true≢false (sym ((text_eq_iff (codes "/login") (codes "/setup")).1 q))

-- Unless the user has gone elsewhere in the meantime, the gate's answer leads to the page of the
-- setup if the server needs it and away from it if not.
pub checked-Suits :
    (path : Text) (status : Status) (g : Gate)
    → g.pathname ≡ path
    → Suits (checked path status g).phase (checked path status g).pathname
unfolding checked Suits
checked-Suits path (broken message) g h = tt
checked-Suits path (setup_mode true) g h = elim (Bool-cases (text_eq path (codes "/setup"))) [
  | inl e ↦ rw e (h ∙ (text_eq_iff path (codes "/setup")).0 e)
  | inr e ↦ rw e refl
]
checked-Suits path (setup_mode false) g h = elim (Bool-cases (text_eq path (codes "/setup"))) [
  | inl e ↦ rw e login-ne
  | inr e ↦ rw e (λ q. true≢false (sym ((text_eq_iff path (codes "/setup")).1 (sym h ∙ q)) ∙ e))
]

-- After a logout, whatever its request's outcome: the user and the storage are gone, the page is
-- that of `/login` with its content shown, and the guard goes nowhere from it.
logout_leaves :
    (a : Auth)
    → ((leave (end_logout (begin_logout a))).user ≡ none)
      × (((leave (end_logout (begin_logout a))).storage
            ≡ record { token = none; token_expires_at = none; user = none })
          × ((view (leave (end_logout (begin_logout a))) ≡ content)
              × (destination
                    (leave (end_logout (begin_logout a))).user
                    (leave (end_logout (begin_logout a))).pathname
                  ≡ none)))
unfolding leave end_logout view destination is_public_route forget
logout_leaves a = (refl, (refl, (refl, refl)))
