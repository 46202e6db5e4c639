-- ===== src/Subscription/Nodes.antt =====
-- The tunnels and the external nodes in an order of nodes, under the editor's list operations.
use mathlib.Core.List.{filter_map, Perm}
use mathlib.Core.List.Perm
use nowhere_dash.Base.{
  ◌+◌, ℕ, Bool, not, List, [], ◌∷◌, ◌++◌, Option, none, some, ◌==◌, if◌then◌else◌, Text, text_eq,
  keep, map, length, ◌≡◌, refl, ap, arith, inl, inr, Bool-cases, Option-cases, ◌<◌,
}
use nowhere_dash.Subscription.Form.{Node, portal, url, portal_of, url_of, find_key, same_key}
use nowhere_dash.Subscription.Edit.{is_other_portal, is_other_url}
use nowhere_dash.Subscription.Rename.{rename_node}

-- The tunnels and the external nodes of an order, each in that order.
abbrev pub tunnels_in : List Node → List ℕ
tunnels_in = filter_map portal_of

abbrev pub urls_in : List Node → List Text
urls_in = filter_map url_of

-- What the tests of `keep` let through, as `filter_map` does.
pub keep-filter_map {ℓ} :
    {A : Type ℓ} (p : A → Bool) (xs : List A)
    → keep p xs ≡ filter_map (λ x. if p x then some x else none) xs
unfolding filter_map
keep-filter_map p [] = refl
keep-filter_map p (x ∷ xs) = elim (Bool-cases (p x)) [
  | inl e ↦ rw e (ap (λ t. x ∷ t) (keep-filter_map p xs))
  | inr e ↦ rw e (keep-filter_map p xs)
]

pub Perm-keep {ℓ} :
    {A : Type ℓ} (p : A → Bool) {xs ys : List A} → Perm xs ys → Perm (keep p xs) (keep p ys)
Perm-keep p {xs} {ys} h = rw (keep-filter_map p xs, keep-filter_map p ys) (Perm.filter_map _ h)

module _ {ℓ κ} {A : Type ℓ} {B : Type κ} (f : A → Option B) where
  pub filter_map-append :
      (xs ys : List A) → filter_map f (xs ++ ys) ≡ filter_map f xs ++ filter_map f ys
  unfolding filter_map
  filter_map-append [] ys = refl
  filter_map-append (x ∷ xs) ys = elim (Option-cases (f x)) [
    | inl e ↦ rw e (filter_map-append xs ys)
    | inr (b, e) ↦ rw e (ap (λ t. b ∷ t) (filter_map-append xs ys))
  ]

pub tunnels_in-portals : (ids : List ℕ) → tunnels_in (map portal ids) ≡ ids
unfolding filter_map
tunnels_in-portals [] = refl
tunnels_in-portals (id ∷ ids) = ap (λ t. id ∷ t) (tunnels_in-portals ids)

pub urls_in-portals : (ids : List ℕ) → urls_in (map portal ids) ≡ []
unfolding filter_map
urls_in-portals [] = refl
urls_in-portals (id ∷ ids) = urls_in-portals ids

pub tunnels_in-urls : (us : List Text) → tunnels_in (map url us) ≡ []
unfolding filter_map
tunnels_in-urls [] = refl
tunnels_in-urls (u ∷ us) = tunnels_in-urls us

pub urls_in-urls : (us : List Text) → urls_in (map url us) ≡ us
unfolding filter_map
urls_in-urls [] = refl
urls_in-urls (u ∷ us) = ap (λ t. u ∷ t) (urls_in-urls us)

pub tunnels_in-keep_portal :
    (id : ℕ) (order : List Node)
    → tunnels_in (keep (is_other_portal id) order) ≡ keep (λ k. not (k == id)) (tunnels_in order)
unfolding filter_map
tunnels_in-keep_portal id [] = refl
tunnels_in-keep_portal id (portal k ∷ order) = elim (Bool-cases (not (k == id))) [
  | inl e ↦ rw e (ap (λ t. k ∷ t) (tunnels_in-keep_portal id order))
  | inr e ↦ rw e (tunnels_in-keep_portal id order)
]
tunnels_in-keep_portal id (url u ∷ order) = tunnels_in-keep_portal id order

pub urls_in-keep_portal :
    (id : ℕ) (order : List Node) → urls_in (keep (is_other_portal id) order) ≡ urls_in order
unfolding filter_map
urls_in-keep_portal id [] = refl
urls_in-keep_portal id (portal k ∷ order) = elim (Bool-cases (not (k == id))) [
  | inl e ↦ rw e (urls_in-keep_portal id order)
  | inr e ↦ rw e (urls_in-keep_portal id order)
]
urls_in-keep_portal id (url u ∷ order) = ap (λ t. u ∷ t) (urls_in-keep_portal id order)

pub tunnels_in-keep_url :
    (u : Text) (order : List Node)
    → tunnels_in (keep (is_other_url (some u)) order) ≡ tunnels_in order
unfolding filter_map
tunnels_in-keep_url u [] = refl
tunnels_in-keep_url u (portal k ∷ order) = ap (λ t. k ∷ t) (tunnels_in-keep_url u order)
tunnels_in-keep_url u (url v ∷ order) = elim (Bool-cases (not (text_eq v u))) [
  | inl e ↦ rw e (tunnels_in-keep_url u order)
  | inr e ↦ rw e (tunnels_in-keep_url u order)
]

pub urls_in-keep_url :
    (u : Text) (order : List Node)
    → urls_in (keep (is_other_url (some u)) order) ≡ keep (λ v. not (text_eq v u)) (urls_in order)
unfolding filter_map
urls_in-keep_url u [] = refl
urls_in-keep_url u (portal k ∷ order) = urls_in-keep_url u order
urls_in-keep_url u (url v ∷ order) = elim (Bool-cases (not (text_eq v u))) [
  | inl e ↦ rw e (ap (λ t. v ∷ t) (urls_in-keep_url u order))
  | inr e ↦ rw e (urls_in-keep_url u order)
]

pub keep_every : (order : List Node) → keep (is_other_url none) order ≡ order
keep_every [] = refl
keep_every (portal k ∷ order) = ap (λ t. portal k ∷ t) (keep_every order)
keep_every (url v ∷ order) = ap (λ t. url v ∷ t) (keep_every order)

pub find_key-lt :
    (k : Node) (order : List Node) (i : ℕ) → find_key k order ≡ some i → i < length order
unfolding find_key
find_key-lt k [] i e = cc
find_key-lt k (n ∷ order) i e = elim (Bool-cases (same_key n k)) [
  | inl h ↦ let first : some 0 ≡ some i = rw h at e in ground arith
  | inr h ↦ elim (Option-cases (find_key k order)) [
    | inl q ↦ let bad : none ≡ some i = rw (h, q) at e in cc
    | inr (j, q) ↦
        let found : some (j + 1) ≡ some i = rw (h, q) at e in
        let below = find_key-lt k order j q in ground arith
  ]
]

pub tunnels_in-rename :
    (p n : Text) (order : List Node) → tunnels_in (map (rename_node p n) order) ≡ tunnels_in order
unfolding filter_map
tunnels_in-rename p n [] = refl
tunnels_in-rename p n (portal k ∷ order) = ap (λ t. k ∷ t) (tunnels_in-rename p n order)
tunnels_in-rename p n (url u ∷ order) = elim (Bool-cases (text_eq u p)) [
  | inl e ↦ rw e (tunnels_in-rename p n order)
  | inr e ↦ rw e (tunnels_in-rename p n order)
]

pub urls_in-rename :
    (p n : Text) (order : List Node)
    → urls_in (map (rename_node p n) order)
      ≡ map (λ u. if text_eq u p then n else u) (urls_in order)
unfolding filter_map
urls_in-rename p n [] = refl
urls_in-rename p n (portal k ∷ order) = urls_in-rename p n order
urls_in-rename p n (url u ∷ order) = elim (Bool-cases (text_eq u p)) [
  | inl e ↦ rw e (ap (λ t. n ∷ t) (urls_in-rename p n order))
  | inr e ↦ rw e (ap (λ t. u ∷ t) (urls_in-rename p n order))
]
