-- ===== src/Base/Trims.antt =====
-- Theorems on the texts that `trim` leaves.
use mathlib.Core.Path.{◌≡◌, refl, ap, ◌∙◌, sym}
use mathlib.Core.Logic.{inl, inr, ◌⊎◌}
use mathlib.Core.Bool.{Bool, true, false, not}
use mathlib.Core.List.{[], ◌∷◌, ◌++◌, reverse, reverse-cons, reverse-reverse, reverse-append}
use native.Mathlib.Omega.{arith}
use Prim.Native.Nat.{ℕ}
use nowhere_dash.Base.Tests.{◌==◌, ==_iff, Bool-cases}
use nowhere_dash.Base.Lists.{All, All-append}
use nowhere_dash.Base.Strings.{Text, is_space, trim_start, trim, ends_with}

-- The text has a first character, and that is no white space.
abbrev pub starts_solid : Text → Bool
starts_solid [] = false
starts_solid (c ∷ s) = not (is_space c)

pub starts_solid-append : (s t : Text) → starts_solid s ≡ true → starts_solid (s ++ t) ≡ true
starts_solid-append [] t h = cc
starts_solid-append (c ∷ s) t h = h

pub trim_start-solid : (s : Text) → starts_solid s ≡ true → trim_start s ≡ s
unfolding trim_start
trim_start-solid [] h = refl
trim_start-solid (c ∷ s) h = ground arith

pub trim-solid : (s : Text) → starts_solid s ≡ true → starts_solid (reverse s) ≡ true → trim s ≡ s
unfolding trim
trim-solid s h k = rw (trim_start-solid s h, trim_start-solid (reverse s) k) (reverse-reverse s)

-- Nothing is left, or the rest begins with no white space.
trim_start-cases : (s : Text) → (trim_start s ≡ []) ⊎ (starts_solid (trim_start s) ≡ true)
unfolding trim_start
trim_start-cases [] = inl refl
trim_start-cases (c ∷ s) = elim (Bool-cases (is_space c)) [
  | inl h ↦ rw h (trim_start-cases s)
  | inr h ↦ rw h (inr (ap not h))
]

-- Trimming at the start does not reach a last character that is no white space.
trim_start-append :
    (s : Text) (c : ℕ) → is_space c ≡ false → trim_start (s ++ c ∷ []) ≡ trim_start s ++ c ∷ []
unfolding trim_start
trim_start-append [] c h = rw h
trim_start-append (d ∷ s) c h = elim (Bool-cases (is_space d)) [
  | inl e ↦ rw e (trim_start-append s c h)
  | inr e ↦ rw e
]

-- Trimming at the end keeps a solid first character.
trim_end-cons :
    (c : ℕ) (s : Text)
    → is_space c ≡ false
    → reverse (trim_start (reverse (c ∷ s))) ≡ c ∷ reverse (trim_start (reverse s))
trim_end-cons c s h = rw (reverse-cons c s, trim_start-append (reverse s) c h, reverse-append)

trim_end-solid :
    (s : Text) → starts_solid s ≡ true → starts_solid (reverse (trim_start (reverse s))) ≡ true
trim_end-solid [] h = cc
trim_end-solid (c ∷ s) h = let e = trim_end-cons c s (ground arith) in rw e h

-- Empty, or solid at both ends.
pub trim-cases :
    (s : Text)
    → (trim s ≡ []) ⊎ ((starts_solid (trim s) ≡ true) × (starts_solid (reverse (trim s)) ≡ true))
unfolding trim
trim-cases s = elim (trim_start-cases s) [
  | inl e ↦ inl (rw e (unfold trim_start in refl))
  | inr solid ↦ elim (trim_start-cases (reverse (trim_start s))) [
    | inl e ↦ inl (rw e refl)
    | inr ends ↦ inr (trim_end-solid (trim_start s) solid, rw reverse-reverse ends)
  ]
]

-- Trimming again changes nothing.
pub trim-trim : (s : Text) → trim (trim s) ≡ trim s
trim-trim s = elim (trim-cases s) [
  | inl e ↦ rw e (unfold trim trim_start in refl)
  | inr (h, k) ↦ trim-solid (trim s) h k
]

starts_solid-first :
    (s t : Text) (c : ℕ) → starts_solid ((s ++ c ∷ []) ++ t) ≡ starts_solid (s ++ c ∷ [])
starts_solid-first [] t c = refl
starts_solid-first (d ∷ s) t c = refl

reverse-solid_step :
    (d e : ℕ) (s : Text) → starts_solid (reverse (d ∷ e ∷ s)) ≡ starts_solid (reverse (e ∷ s))
reverse-solid_step d e s =
    rw (reverse-cons d (e ∷ s), reverse-cons e s) (starts_solid-first (reverse s) (d ∷ []) e)

true≢false : ¬ (true ≡ false)
true≢false h = cc

not-true : (b : Bool) → not b ≡ true → b ≡ false
not-true b h = ground arith

solid-ne-space : (c d : ℕ) → is_space c ≡ true → not (is_space d) ≡ true → (d == c) ≡ false
solid-ne-space c d n h = elim (Bool-cases (d == c)) [
  | inl e ↦
      absurd (true≢false (sym n ∙ ap is_space (sym ((==_iff d c).0 e)) ∙ not-true (is_space d) h))
  | inr e ↦ e
]

-- A character of white space is not the last of a text that ends solid.
pub ends_with-space :
    (c : ℕ) (s : Text) → is_space c ≡ true → starts_solid (reverse s) ≡ true → ends_with s c ≡ false
unfolding ends_with
ends_with-space c [] n h = refl
ends_with-space c (d ∷ []) n h = solid-ne-space c d n h
ends_with-space c (d ∷ e ∷ s) n h = ends_with-space c (e ∷ s) n (sym (reverse-solid_step d e s) ∙ h)

All-trim_start {ℓ} : (P : ℕ → Type ℓ) (s : Text) → All P s → All P (trim_start s)
unfolding trim_start
All-trim_start P [] h = tt
All-trim_start P (c ∷ s) (h, hs) = elim (Bool-cases (is_space c)) [
  | inl e ↦ rw e (All-trim_start P s hs)
  | inr e ↦ rw e (h, hs)
]

All-reverse {ℓ} : (P : ℕ → Type ℓ) (s : Text) → All P s → All P (reverse s)
All-reverse P [] h = tt
All-reverse P (c ∷ s) (h, hs) =
    rw (reverse-cons c s) (All-append P (reverse s) (c ∷ []) (All-reverse P s hs) (h, tt))

pub All-trim {ℓ} : (P : ℕ → Type ℓ) (s : Text) → All P s → All P (trim s)
unfolding trim
All-trim P s h = All-reverse P _ (All-trim_start P _ (All-reverse P _ (All-trim_start P s h)))
