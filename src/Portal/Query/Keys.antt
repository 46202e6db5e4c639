-- ===== src/Portal/Query/Keys.antt =====
-- The keys of a query that was read.
use nowhere_dash.Base.{
  Bool, true, false, not, ◌&&◌, ◌||◌, List, [], ◌∷◌, Option, none, some, Text, codes, text_eq,
  text_eq_iff, is_member, All, ◌≡◌, ◌⊎◌, ◌∙◌, if◌then◌else◌, sym, ap, split, drop, refl, arith, inl,
  inr, Bool-cases, Option-cases,
}
use mathlib.Core.Path.{subst}
use nowhere_dash.Portal.Platform.{ok, Result-cases}
use nowhere_dash.Portal.Uri.{decode_uri_component}
use nowhere_dash.Portal.Query.Maps.{get-set_other}
use nowhere_dash.Portal.Query.{
  is_nested, Entries, get, set, has, base_keys, next_keys, before_equals, after_equals, read_value,
  read_pair, read_pairs, chains_next, portal_query,
}

-- No key stands twice.
abbrev pub IsUnique : Entries → Type 0
IsUnique [] = Unit
IsUnique ((k, v) ∷ m) = (get k m ≡ none) × IsUnique m

pub set-IsUnique : (k v : Text) (m : Entries) → IsUnique m → IsUnique (set k v m)
unfolding set get
set-IsUnique k v [] _ = (refl, tt)
set-IsUnique k v ((k', v') ∷ m) (h, hs) = elim (Bool-cases (text_eq k' k)) [
  | inl same ↦ rw same (h, hs)
  | inr other ↦ rw other (
    ground (arith, get-set_other k' k v m, text_eq_iff k' k, text_eq_iff k k'),
    set-IsUnique k v m hs,
  )
]

pub set-All :
    (P : Text → Bool) (k v : Text) (m : Entries)
    → P k ≡ true
    → All (λ e. P e.0 ≡ true) m
    → All (λ e. P e.0 ≡ true) (set k v m)
unfolding set
set-All P k v [] p _ = (p, tt)
set-All P k v ((k', v') ∷ m) p (h, hs) = elim (Bool-cases (text_eq k' k)) [
  | inl same ↦ rw same (h, hs)
  | inr other ↦ rw other (h, set-All P k v m p hs)
]

-- One pair leaves the entries alone or sets one accepted key.
read_pair-cases :
    (allowed : List Text) (pair : Text) (m n : Entries)
    → read_pair allowed pair m ≡ ok n
    → (n ≡ m) ⊎ ((k : Text) × (v : Text) × (is_member k allowed ≡ true) × (n ≡ set k v m))
unfolding read_pair read_value
read_pair-cases allowed pair m n e =
    elim (Option-cases (decode_uri_component (before_equals pair))) [
      | inl bad ↦ inl (ground arith)
      | inr (k, given) ↦ elim (Bool-cases (not (is_member k allowed) || has k m)) [
        | inl out ↦ inl (ground arith)
        | inr taken ↦ elim (Option-cases (decode_uri_component (after_equals pair))) [
          | inl bad ↦ absurd (ground arith)
          | inr (v, read) ↦ inr (
            k,
            (if is_nested k && not (text_eq v (codes "none")) then after_equals pair else v),
            ground arith,
            ground arith,
          )
        ]
      ]
    ]

pub ok_inj : {m n : Entries} → ok m ≡ ok n → m ≡ n
ok_inj e = cc

-- What every setting of an accepted key keeps, reading keeps.
module _ {ℓ} (P : Entries → Type ℓ) (allowed : List Text)
    (keeps : (k v : Text) (m : Entries) → is_member k allowed ≡ true → P m → P (set k v m)) where
  read_pair_keeps : (pair : Text) (m n : Entries) → read_pair allowed pair m ≡ ok n → P m → P n
  read_pair_keeps pair m n e p = elim (read_pair-cases allowed pair m n e) [
    | inl same ↦ subst P (sym same) p
    | inr (k, v, member, n_is) ↦ subst P (sym n_is) (keeps k v m member p)
  ]

  read_pairs_keeps :
      (pairs : List Text) (m n : Entries) → read_pairs allowed pairs m ≡ ok n → P m → P n
  unfolding read_pairs
  read_pairs_keeps [] m n e p = subst P (ok_inj e) p
  read_pairs_keeps (pair ∷ pairs) m n e p = elim (Result-cases (read_pair allowed pair m)) [
    | inl (x, bad) ↦ absurd (ground arith)
    | inr (o, good) ↦ read_pairs_keeps pairs o n (rw good at e) (read_pair_keeps pair m o good p)
  ]

abbrev pub is_known : Bool → Text → Bool
is_known chained k = is_member k base_keys || (chained && is_member k next_keys)

abbrev IsKnown : Bool → Entries → Type 0
IsKnown chained m = IsUnique m × All (λ e. is_known chained e.0 ≡ true) m

base_keeps :
    (k v : Text) (m : Entries)
    → is_member k base_keys ≡ true
    → IsKnown false m
    → IsKnown false (set k v m)
base_keeps k v m member (u, known) =
    (set-IsUnique k v m u, set-All (is_known false) k v m (rw member refl) known)

-- What the second pass keeps: the decision to make it.
abbrev Chained : Option Text → Entries → Type 0
Chained next m = IsKnown true m × (get (codes "next") m ≡ next)

next_known : (k : Text) → is_member k next_keys ≡ true → is_known true k ≡ true
next_known k member = ground arith

next_other : (k : Text) → is_member k next_keys ≡ true → text_eq k (codes "next") ≡ false
unfolding is_member
next_other k member = ground (
  arith,
  text_eq_iff k (codes "next"),
  text_eq_iff k (codes "up"),
  text_eq_iff k (codes "down"),
  text_eq_iff k (codes "mux"),
  text_eq_iff k (codes "sni"),
  text_eq_iff k (codes "pin"),
)

next_keeps :
    (next : Option Text) (k v : Text) (m : Entries)
    → is_member k next_keys ≡ true
    → Chained next m
    → Chained next (set k v m)
next_keeps next k v m member ((u, known), same) = (
  (set-IsUnique k v m u, set-All (is_known true) k v m (next_known k member) known),
  get-set_other (codes "next") k v m (next_other k member) ∙ same,
)

more_known :
    (m : Entries) → All (λ e. is_known false e.0 ≡ true) m → All (λ e. is_known true e.0 ≡ true) m
more_known [] _ = tt
more_known ((k, v) ∷ m) (h, hs) = (ground arith, more_known m hs)

chained_by :
    (m v : Entries) → get (codes "next") m ≡ get (codes "next") v → chains_next m ≡ chains_next v
chained_by m v e = ap (λ o. elim o [ none ↦ false | some t ↦ not (text_eq t (codes "none")) ]) e

-- Every query that could be read has no key twice and no unknown key, and the keys that belong to
-- `next` stand in it only if it has a `next` other than `none`.
pub portal_query-keys :
    (search : Text) (m : Entries)
    → portal_query search ≡ ok m
    → IsUnique m × All (λ e. is_known (chains_next m) e.0 ≡ true) m
unfolding portal_query
portal_query-keys search m e =
    let pairs = split b'&' (drop 1 search) in
    elim (Result-cases (read_pairs base_keys pairs [])) [
      | inl (x, bad) ↦ absurd (ground arith)
      | inr (v, read) ↦
          let base =
            read_pairs_keeps (IsKnown false) base_keys base_keeps pairs [] v read (tt, tt) in
          elim (Bool-cases (chains_next v)) [
            | inl on ↦
                let ((u, known), same) =
                  read_pairs_keeps (Chained (get (codes "next") v)) next_keys
                    (next_keeps (get (codes "next") v)) pairs v m (rw (read, on) at e)
                    ((base.0, more_known v base.1), refl) in
                (u, rw (chained_by m v same ∙ on) known)
            | inr off ↦
                subst (λ n. IsUnique n × All (λ e. is_known (chains_next n) e.0 ≡ true) n)
                  (ok_inj (rw (read, off) at e)) (base.0, rw off base.1)
          ]
    ]
