-- ===== src/Subscription/Distinct.antt =====
-- Lists of node texts with no text twice, and what the editor's list operations do to them.
use mathlib.Core.Path.{subst}
use mathlib.Core.Option.{some-injective}
use nowhere_dash.Base.{
  is_member-append, ℕ, zero, suc, Bool, true, false, not, ◌&&◌, List, [], ◌∷◌, ◌++◌, none, some,
  if◌then◌else◌, Text, text_eq, text_eq_refl, is_member, get_elem?, keep, map, any, ◌≡◌, refl, ap,
  arith, All,
}
use nowhere_dash.Subscription.Form.{remove_at, set_at}

abbrev pub distinct : List Text → Bool
distinct [] = true
distinct (v ∷ vs) = not (is_member v vs) && distinct vs

text_eq_comm : (a b : Text) → text_eq a b ≡ text_eq b a
unfolding text_eq
text_eq_comm [] [] = refl
text_eq_comm [] (y ∷ b) = refl
text_eq_comm (x ∷ a) [] = refl
text_eq_comm (x ∷ a) (y ∷ b) = let ih = text_eq_comm a b in ground arith

-- None of the texts is the first or one of the others.
any-cons :
    (v : Text) (vs ys : List Text)
    → any (λ y. is_member y (v ∷ vs)) ys ≡ false
    → (is_member v ys ≡ false) × (any (λ y. is_member y vs) ys ≡ false)
unfolding is_member
any-cons v vs [] h = (refl, refl)
any-cons v vs (y ∷ ys) h = let c = text_eq_comm v y in ground (arith, any-cons v vs ys)

pub distinct-append :
    (xs ys : List Text)
    → distinct xs ≡ true
    → distinct ys ≡ true
    → any (λ y. is_member y xs) ys ≡ false
    → distinct (xs ++ ys) ≡ true
distinct-append [] ys h k n = k
distinct-append (v ∷ vs) ys h k n =
    let parts = any-cons v vs ys n in
    let joined = is_member-append v vs ys in let ih = distinct-append vs ys in ground (arith, ih)

-- A text that is not in the list is not what an index holds.
get_elem?-ne :
    (v : Text) (vs : List Text) (i : ℕ) (r : Text)
    → is_member v vs ≡ false
    → get_elem? vs i ≡ some r
    → text_eq v r ≡ false
unfolding is_member
get_elem?-ne v [] i r h e = cc
get_elem?-ne v (w ∷ vs) zero r h e = ground arith
get_elem?-ne v (w ∷ vs) (suc i) r h e = get_elem?-ne v vs i r (ground arith) e

keep-absent :
    (r : Text) (vs : List Text) → is_member r vs ≡ false → keep (λ v. not (text_eq v r)) vs ≡ vs
unfolding is_member
keep-absent r [] h = refl
keep-absent r (v ∷ vs) h = let c = text_eq_comm r v in ground (arith, keep-absent r vs)

map-absent :
    (r n : Text) (vs : List Text)
    → is_member r vs ≡ false
    → map (λ v. if text_eq v r then n else v) vs ≡ vs
unfolding is_member
map-absent r n [] h = refl
map-absent r n (v ∷ vs) h = let c = text_eq_comm r v in ground (arith, map-absent r n vs)

-- Leaving out the text at an index leaves out every copy of it.
pub keep-remove_at :
    (vs : List Text) (i : ℕ) (r : Text)
    → distinct vs ≡ true
    → get_elem? vs i ≡ some r
    → keep (λ v. not (text_eq v r)) vs ≡ remove_at vs i
unfolding remove_at
keep-remove_at [] i r d e = cc
keep-remove_at (v ∷ vs) zero r d e = let same = text_eq_refl v in ground (arith, keep-absent v vs)
keep-remove_at (v ∷ vs) (suc i) r d e = ground (arith, get_elem?-ne v vs i r, keep-remove_at vs i r)

pub remove_at-none : (vs : List Text) (i : ℕ) → get_elem? vs i ≡ none → remove_at vs i ≡ vs
unfolding remove_at
remove_at-none [] i e = refl
remove_at-none (v ∷ vs) zero e = cc
remove_at-none (v ∷ vs) (suc i) e = ap (λ t. v ∷ t) (remove_at-none vs i e)

is_member-remove_at :
    (u : Text) (vs : List Text) (i : ℕ)
    → is_member u vs ≡ false
    → is_member u (remove_at vs i) ≡ false
unfolding is_member remove_at
is_member-remove_at u [] i h = refl
is_member-remove_at u (v ∷ vs) zero h = ground arith
is_member-remove_at u (v ∷ vs) (suc i) h = ground (arith, is_member-remove_at u vs i)

pub distinct-remove_at :
    (vs : List Text) (i : ℕ) → distinct vs ≡ true → distinct (remove_at vs i) ≡ true
unfolding remove_at
distinct-remove_at [] i h = refl
distinct-remove_at (v ∷ vs) zero h = ground arith
distinct-remove_at (v ∷ vs) (suc i) h =
    ground (arith, is_member-remove_at v vs i, distinct-remove_at vs i)

-- Writing a text at an index renames the text that stands there.
pub map-set_at :
    (vs : List Text) (i : ℕ) (r n : Text)
    → distinct vs ≡ true
    → get_elem? vs i ≡ some r
    → map (λ v. if text_eq v r then n else v) vs ≡ set_at vs i n
unfolding set_at
map-set_at [] i r n d e = cc
map-set_at (v ∷ vs) zero r n d e = let same = text_eq_refl v in ground (arith, map-absent v n vs)
map-set_at (v ∷ vs) (suc i) r n d e = ground (arith, get_elem?-ne v vs i r, map-set_at vs i r n)

is_member-set_at :
    (u n : Text) (vs : List Text) (i : ℕ)
    → is_member u vs ≡ false
    → text_eq u n ≡ false
    → is_member u (set_at vs i n) ≡ false
unfolding is_member set_at
is_member-set_at u n [] i h k = refl
is_member-set_at u n (v ∷ vs) zero h k = ground arith
is_member-set_at u n (v ∷ vs) (suc i) h k = ground (arith, is_member-set_at u n vs i)

pub distinct-set_at :
    (vs : List Text) (i : ℕ) (n : Text)
    → distinct vs ≡ true
    → is_member n (remove_at vs i) ≡ false
    → distinct (set_at vs i n) ≡ true
unfolding set_at remove_at is_member
distinct-set_at [] i n d h = refl
distinct-set_at (v ∷ vs) zero n d h = ground arith
distinct-set_at (v ∷ vs) (suc i) n d h =
    let c = text_eq_comm n v in ground (arith, is_member-set_at v n vs i, distinct-set_at vs i n)

module _ {ℓ} (P : Text → Type ℓ) where
  pub All-remove_at : (vs : List Text) (i : ℕ) → All P vs → All P (remove_at vs i)
  unfolding remove_at
  All-remove_at [] i h = tt
  All-remove_at (v ∷ vs) zero (h, hs) = hs
  All-remove_at (v ∷ vs) (suc i) (h, hs) = (h, All-remove_at vs i hs)

  pub All-set_at : (vs : List Text) (i : ℕ) (n : Text) → P n → All P vs → All P (set_at vs i n)
  unfolding set_at
  All-set_at [] i n p h = tt
  All-set_at (v ∷ vs) zero n p (h, hs) = (p, hs)
  All-set_at (v ∷ vs) (suc i) n p (h, hs) = (h, All-set_at vs i n p hs)

  pub All-get_elem? : (vs : List Text) (i : ℕ) (r : Text) → All P vs → get_elem? vs i ≡ some r → P r
  All-get_elem? [] i r h e = cc
  All-get_elem? (v ∷ vs) zero r (h, hs) e = subst P (some-injective v r e) h
  All-get_elem? (v ∷ vs) (suc i) r (h, hs) e = All-get_elem? vs i r hs e
