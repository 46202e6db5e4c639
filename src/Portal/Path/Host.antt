-- ===== src/Portal/Path/Host.antt =====
-- The host as `formatHost` writes it.
use mathlib.Core.List.{reverse, reverse-cons}
use nowhere_dash.Base.{
  ℕ, Bool, true, false, ◌&&◌, [], ◌∷◌, Text, codes, text_or, is_space, starts_with, ends_with,
  has_char, trim, trim_start, Lacks, All, All-append, if◌then◌else◌, ◌≡◌, refl, arith, inl, inr,
  Bool-cases, and_parts,
}
use nowhere_dash.Base.Trims.{starts_solid, starts_solid-append, trim-solid}
use nowhere_dash.Portal.Platform.{Platform}
use nowhere_dash.Portal.Endpoint.{
  is_bad_host_char, is_control, normalize_host, format_host, in_brackets,
}
use nowhere_dash.Portal.Endpoint.Valid.{IsHost}
use nowhere_dash.Portal.Path.Texts.{NoQuery}

reverse-solid_of_ends_with :
    (c : ℕ) (s : Text) → is_space c ≡ false → ends_with s c ≡ true → starts_solid (reverse s) ≡ true
unfolding ends_with
reverse-solid_of_ends_with c [] n h = cc
reverse-solid_of_ends_with c (d ∷ []) n h = ground arith
reverse-solid_of_ends_with c (d ∷ e ∷ s) n h =
    rw (reverse-cons d (e ∷ s))
      (starts_solid-append (reverse (e ∷ s)) _ (reverse-solid_of_ends_with c (e ∷ s) n h))

-- The characters of a valid host.
abbrev pub IsClean : Text → Type 0
IsClean = All (λ c. (is_bad_host_char c ≡ false) × (is_control c ≡ false))

reverse-solid_of_IsClean :
    (c : ℕ) (s : Text) → IsClean (c ∷ s) → starts_solid (reverse (c ∷ s)) ≡ true
reverse-solid_of_IsClean c [] (h, _) = ground arith
reverse-solid_of_IsClean c (d ∷ s) (h, hs) =
    rw (reverse-cons c (d ∷ s))
      (starts_solid-append (reverse (d ∷ s)) _ (reverse-solid_of_IsClean d s hs))

trim_of_IsClean : (s : Text) → IsClean s → trim s ≡ s
trim_of_IsClean [] h = unfold trim trim_start in refl
trim_of_IsClean (c ∷ s) (h, hs) =
    trim-solid (c ∷ s) (ground arith) (reverse-solid_of_IsClean c s (h, hs))

IsClean-Lacks : (s : Text) → IsClean s → Lacks b'/' s
unfolding has_char
IsClean-Lacks [] _ = tt
IsClean-Lacks (c ∷ s) (h, hs) = (ground arith, IsClean-Lacks s hs)

IsClean-NoQuery : (s : Text) → IsClean s → NoQuery s
unfolding has_char
IsClean-NoQuery [] _ = tt
IsClean-NoQuery (c ∷ s) (h, hs) = (ground arith, IsClean-NoQuery s hs)

starts_with-solid : (s : Text) → starts_with s (codes "[") ≡ true → starts_solid s ≡ true
unfolding starts_with
starts_with-solid [] h = cc
starts_with-solid (c ∷ s) h = ground arith

pub All-in_brackets :
    (P : ℕ → Type 0) (b : Bool) (s : Text)
    → P b'['
    → P b']'
    → All P s
    → All P (if b then in_brackets s else s)
All-in_brackets P false s p q h = h
All-in_brackets P true s p q h = (p, All-append P s (codes "]") h (q, tt))

module _ (web : Platform) (host : Text) where
  -- A host that is valid once normalized is not changed by trimming.
  pub trim_of_valid : IsClean (normalize_host web host) → trim host ≡ host
  unfolding normalize_host
  trim_of_valid clean = elim (Bool-cases (starts_with host (codes "[") && ends_with host b']')) [
    | inl both ↦
        let (starts, ends) = and_parts _ _ both in
        trim-solid host (starts_with-solid host starts)
          (reverse-solid_of_ends_with b']' host refl ends)
    | inr no_brackets ↦ trim_of_IsClean host (rw no_brackets at clean)
  ]

  format_host-Lacks : IsClean (normalize_host web host) → Lacks b'/' (format_host web host)
  unfolding format_host
  format_host-Lacks clean =
      rw (trim_of_valid clean)
        (All-in_brackets _ _ _ (omega arith) (omega arith) (IsClean-Lacks _ clean))

  format_host-NoQuery : IsClean (normalize_host web host) → NoQuery (format_host web host)
  unfolding format_host
  format_host-NoQuery clean =
      rw (trim_of_valid clean) (All-in_brackets _ _ _ refl refl (IsClean-NoQuery _ clean))

module _ (web : Platform) (allow : Bool) where
  pub given_host :
      (host : Text) → IsHost web allow (normalize_host web host) → text_or host (codes "*") ≡ host
  unfolding normalize_host starts_with
  given_host [] v = absurd (v.given refl)
  given_host (c ∷ s) v = refl

  -- The host of a valid endpoint, as it is written into a URL, has no slash, no `?` and no `#`.
  pub shown-Lacks :
      (host : Text)
      → IsHost web allow (normalize_host web host)
      → Lacks b'/' (format_host web (text_or host (codes "*")))
  shown-Lacks host v = rw (given_host host v) (format_host-Lacks web host v.clean)

  pub shown-NoQuery :
      (host : Text)
      → IsHost web allow (normalize_host web host)
      → NoQuery (format_host web (text_or host (codes "*")))
  shown-NoQuery host v = rw (given_host host v) (format_host-NoQuery web host v.clean)
