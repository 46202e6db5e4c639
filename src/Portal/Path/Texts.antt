-- ===== src/Portal/Path/Texts.antt =====
-- The text functions of `parseServiceUrl` on the pieces of a URL.
use nowhere_dash.Base.{
  ℕ, false, ◌||◌, [], ◌∷◌, ◌++◌, ◌==◌, Text, codes, starts_with, Lacks, All, ◌≡◌, ◌≢◌, refl, arith,
}
use nowhere_dash.Portal.Parse.{before_query, before_scheme_end}

-- A text with no `?` and no `#`.
abbrev pub NoQuery : Text → Type 0
NoQuery = All (λ c. (c == b'?' || c == b'#') ≡ false)

pub before_query-append : (s q : Text) → NoQuery s → before_query (s ++ b'?' ∷ q) ≡ s
unfolding before_query
before_query-append [] q h = refl
before_query-append (c ∷ s) q (h, hs) = rw (h, before_query-append s q hs)

-- Behind a text with no slash, a slash that is followed by something else ends no scheme.
no_scheme_end :
    (c : ℕ) (a : Text) (d : ℕ) (t : Text)
    → c ≢ b'/'
    → Lacks b'/' a
    → d ≢ b'/'
    → starts_with (c ∷ a ++ b'/' ∷ d ∷ t) (codes "://") ≡ false
unfolding starts_with
no_scheme_end c [] d t hc ha hd = ground arith
no_scheme_end c (e ∷ a) d t hc ha hd = ground arith

pub before_scheme_end-append :
    (a : Text) (d : ℕ) (t : Text)
    → Lacks b'/' a
    → d ≢ b'/'
    → before_scheme_end (a ++ b'/' ∷ d ∷ t) ≡ a ++ b'/' ∷ before_scheme_end (d ∷ t)
unfolding before_scheme_end
before_scheme_end-append [] d t h hd = unfold starts_with in refl
before_scheme_end-append (c ∷ a) d t (h, hs) hd =
    rw (no_scheme_end c a d t h hs hd, before_scheme_end-append a d t hs hd)

no_scheme_end_last : (c : ℕ) (a : Text) → Lacks b'/' a → starts_with (c ∷ a) (codes "://") ≡ false
unfolding starts_with
no_scheme_end_last c [] h = ground arith
no_scheme_end_last c (d ∷ a) h = ground arith

pub before_scheme_end_of_Lacks : (a : Text) → Lacks b'/' a → before_scheme_end a ≡ a
unfolding before_scheme_end
before_scheme_end_of_Lacks [] h = refl
before_scheme_end_of_Lacks (c ∷ a) (h, hs) =
    rw (no_scheme_end_last c a hs, before_scheme_end_of_Lacks a hs)
