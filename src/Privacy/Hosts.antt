-- ===== src/Privacy/Hosts.antt =====
-- Theorems on `maskHost`.
use native.Mathlib.Numerals.{add-one}
use mathlib.Core.List.{append_assoc}
use nowhere_dash.Base.{
  ℕ, zero, suc, ◌+◌, ◌-◌, ◌≤◌, ◌<◌, List, [], ◌∷◌, ◌++◌, ltb, leb, true, false, if◌then◌else◌, map,
  Text, codes, text_eq, truthy, has_char, is_member, join, All, Lacks, length, drop, replicate, ◌≡◌,
  refl, ◌∙◌, ap, arith, length-replicate, length-append, Bool-cases, inl, inr, text_eq_iff,
}
use nowhere_dash.Base.Splits.{split-join}
use nowhere_dash.Portal.Parse.{lower}
use nowhere_dash.Privacy.{
  mask_sld, mask_parts, mask_host, part_at, last_parts, suffix_length, dot_join,
  multi_segment_suffixes,
}

-- The masked name depends on the first letter and the length of the registered name only, and has
-- that length.
pub mask_sld_hides :
    (c : ℕ) (s t : Text)
    → length s ≡ length t
    → (mask_sld (c ∷ s) ≡ mask_sld (c ∷ t)) × (length (mask_sld (c ∷ s)) ≡ length (c ∷ s))
unfolding mask_sld
mask_sld_hides c s t e = ground (
  arith,
  length-replicate {A = ℕ} (length s) b'*',
  length-replicate {A = ℕ} (suc (length s)) b'*',
)

part_at-append :
    (ps : List Text) (p : Text) (qs : List Text) → part_at (length ps) (ps ++ p ∷ qs) ≡ p
part_at-append [] p qs = refl
part_at-append (q ∷ ps) p qs = part_at-append ps p qs

drop_past : (ps : List Text) (p : Text) (qs : List Text) → drop (length ps + 1) (ps ++ p ∷ qs) ≡ qs
drop_past [] p qs = refl
drop_past (q ∷ ps) p qs =
    rw (add-one (suc (length ps))) (rw (add-one (length ps)) at (drop_past ps p qs))

-- The mark of a subdomain.
abbrev pub subdomain_mark : List Text → Text
subdomain_mark [] = []
subdomain_mark (p ∷ ps) = codes "***."

marked :
    (subs : List Text) (n : ℕ) (host core : Text)
    → (if leb (length subs + suc n) n
        then host
        else if ltb 0 (length subs)
        then codes "***." ++ core
        else core)
      ≡ subdomain_mark subs ++ core
marked [] n host core = ground arith
marked (p ∷ ps) n host core = ground arith

-- A host of subdomain labels, a registered name and the suffix that `suffixLen` counts.
mask_parts_split :
    (host : Text) (subs : List Text) (sld : Text) (suffix : List Text)
    → suffix_length (subs ++ sld ∷ suffix) ≡ length suffix
    → mask_parts host (subs ++ sld ∷ suffix)
      ≡ subdomain_mark subs ++ (mask_sld sld ++ codes "." ++ dot_join suffix)
unfolding mask_parts
mask_parts_split host subs sld suffix e =
    let total : length (subs ++ sld ∷ suffix) ≡ length subs + suc (length suffix) =
      length-append subs (sld ∷ suffix) in
    let before : length subs + suc (length suffix) - length suffix - 1 ≡ length subs =
      omega arith in
    let behind : length subs + suc (length suffix) - length suffix ≡ length subs + 1 =
      omega arith in
    rw (e, total, before, behind, part_at-append subs sld suffix, drop_past subs sld suffix)
      (marked subs (length suffix) host _)

last_two : (ps : List Text) (a b : Text) → last_parts 2 (ps ++ a ∷ b ∷ []) ≡ a ∷ b ∷ []
last_two ps a b =
    let total : length (ps ++ a ∷ b ∷ []) ≡ length ps + 2 = length-append ps (a ∷ b ∷ []) in
    let front : length ps + 2 - 2 ≡ length ps = omega arith in rw (total, front) (drop_front ps)
  where
    drop_front : (qs : List Text) → drop (length qs) (qs ++ a ∷ b ∷ []) ≡ a ∷ b ∷ []
    drop_front [] = refl
    drop_front (q ∷ qs) = drop_front qs

-- The public suffix behind a name: two labels of the table, or one label that does not make such a
-- pair with the name.
unfoldable pub IsSuffix : Text → List Text → Type 0
IsSuffix sld [] = ⊥
IsSuffix sld (a ∷ []) = is_member (map lower (sld ++ codes "." ++ a)) multi_segment_suffixes ≡ false
IsSuffix sld (a ∷ b ∷ []) =
    is_member (map lower (a ++ codes "." ++ b)) multi_segment_suffixes ≡ true
IsSuffix sld (a ∷ b ∷ c ∷ more) = ⊥

IsSuffix-length :
    (subs : List Text) (sld : Text) (suffix : List Text)
    → IsSuffix sld suffix
    → suffix_length (subs ++ sld ∷ suffix) ≡ length suffix
unfolding IsSuffix suffix_length join
IsSuffix-length subs sld [] h = absurd h
IsSuffix-length subs sld (a ∷ []) h = rw (last_two subs sld a, h) refl
IsSuffix-length subs sld (a ∷ b ∷ []) h =
    rw (← append_assoc subs (sld ∷ []) (a ∷ b ∷ []), last_two (subs ++ sld ∷ []) a b, h) refl
IsSuffix-length subs sld (a ∷ b ∷ c ∷ more) h = absurd h

-- A masked name has the length of the name. Up to two letters become stars; of a longer name all but
-- the first letter do.
pub record IsMasked (name masked : Text) : Type 0 where
  pub same_length : length masked ≡ length name
  pub short : length name ≤ 2 → All {A = ℕ} (λ d. d ≡ b'*') masked
  pub long :
      (c : ℕ) (rest : Text)
      → name ≡ c ∷ rest
      → 2 < length name
      → (stars : Text) × ((masked ≡ c ∷ stars) × All {A = ℕ} (λ d. d ≡ b'*') stars)

all_stars : (n : ℕ) → All {A = ℕ} (λ d. d ≡ b'*') (replicate n b'*')
all_stars zero = tt
all_stars (suc n) = (refl, all_stars n)

mask_sld-IsMasked : (sld : Text) → IsMasked sld (mask_sld sld)
unfolding mask_sld
mask_sld-IsMasked [] = record {
  same_length = refl;
  short = λ h. tt;
  long = λ c rest e h. absurd (omega arith);
}
mask_sld-IsMasked (c ∷ s) = elim (Bool-cases (leb (length (c ∷ s)) 2)) [
  | inl few ↦ rw few (record {
    same_length = length-replicate {A = ℕ} (length (c ∷ s)) b'*';
    short = λ h. all_stars (length (c ∷ s));
    long = λ d rest e h. ground arith;
  })
  | inr many ↦ rw many (record {
    same_length = ap suc (length-replicate {A = ℕ} (length s) b'*');
    short = λ h. ground arith;
    long = λ d rest e h. (
      replicate (length s) b'*',
      (ap (λ x. x ∷ replicate (length s) b'*') (ap (head_or c) e), all_stars (length s)),
    );
  })
]
  where
    head_or : ℕ → Text → ℕ
    head_or d [] = d
    head_or d (x ∷ xs) = x

has_dot : (v w : Text) (vs : List Text) → has_char b'.' (dot_join (v ∷ w ∷ vs)) ≡ true
unfolding join has_char
has_dot v w vs = rw (append_assoc v (codes ".") (dot_join (w ∷ vs))) (dotted v)
  where
    dotted : (u : Text) → has_char b'.' (u ++ b'.' ∷ dot_join (w ∷ vs)) ≡ true
    dotted [] = refl
    dotted (c ∷ u) = let r = dotted u in ground arith

-- Splitting at the dots leads to the parts.
mask_host-parts :
    (v w : Text) (vs : List Text)
    → All (Lacks b'.') (v ∷ w ∷ vs)
    → mask_host (dot_join (v ∷ w ∷ vs)) ≡ mask_parts (dot_join (v ∷ w ∷ vs)) (v ∷ w ∷ vs)
unfolding mask_host has_char
mask_host-parts v w vs lacks =
    let dot = has_dot v w vs in
    rw (full _ dot, other _ dot, dot, split-join b'.' v (w ∷ vs) lacks) refl
  where
    full : (t : Text) → has_char b'.' t ≡ true → truthy t ≡ true
    full [] h = cc
    full (c ∷ t) h = refl

    other : (t : Text) → has_char b'.' t ≡ true → text_eq t (codes "localhost") ≡ false
    other t h = elim (Bool-cases (text_eq t (codes "localhost"))) [
      | inr e ↦ e
      | inl e ↦ let bad : false ≡ true = rw ((text_eq_iff t (codes "localhost")).0 e) at h in cc
    ]

mask_host-labels :
    (subs : List Text) (sld a : Text) (more : List Text)
    → All (Lacks b'.') (subs ++ sld ∷ a ∷ more)
    → mask_host (dot_join (subs ++ sld ∷ a ∷ more))
      ≡ mask_parts (dot_join (subs ++ sld ∷ a ∷ more)) (subs ++ sld ∷ a ∷ more)
mask_host-labels [] sld a more lacks = mask_host-parts sld a more lacks
mask_host-labels (p ∷ []) sld a more lacks = mask_host-parts p sld (a ∷ more) lacks
mask_host-labels (p ∷ q ∷ ps) sld a more lacks = mask_host-parts p q (ps ++ sld ∷ a ∷ more) lacks

-- `maskHost` of a host whose labels have no dot, that is of subdomain labels, a registered name and
-- a public suffix, is the mark `***.` if there are subdomains, whatever they are, a masked name and
-- the suffix. The suffix is two labels of `MULTI_SEGMENT_SUFFIXES` in any case, or one label that is
-- not such a pair with the name. The masked name is as long as the name, and all stars, but for the
-- first letter of a name of three letters or more.
pub mask_host-IsMasked :
    (subs : List Text) (sld : Text) (suffix : List Text)
    → All (Lacks b'.') (subs ++ sld ∷ suffix)
    → IsSuffix sld suffix
    → (masked : Text) × (mask_host (dot_join (subs ++ sld ∷ suffix))
        ≡ subdomain_mark subs ++ (masked ++ codes "." ++ dot_join suffix))
      × IsMasked sld masked
unfolding IsSuffix
mask_host-IsMasked subs sld [] lacks h = absurd h
mask_host-IsMasked subs sld (a ∷ more) lacks h =
    let parts = subs ++ sld ∷ a ∷ more in
    (
      mask_sld sld,
      mask_host-labels subs sld a more lacks
          ∙ mask_parts_split (dot_join parts) subs sld (a ∷ more)
              (IsSuffix-length subs sld (a ∷ more) h),
      mask_sld-IsMasked sld,
    )
