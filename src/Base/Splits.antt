-- ===== src/Base/Splits.antt =====
-- What `split` does to a text put together from parts without the separator, and what it leaves.
use mathlib.Core.Path.{◌≡◌, refl, ap, ◌∙◌}
use mathlib.Core.List.{List, [], ◌∷◌, ◌++◌, append_assoc}
use mathlib.Core.Option.{some}
use native.Mathlib.Omega.{arith}
use Prim.Native.Nat.{ℕ}
use nowhere_dash.Base.Lists.{All}
use nowhere_dash.Base.Strings.{Text, Lacks, split, join, before_char, after_char}

module _ (sep : ℕ) where
  pub split_of_Lacks : (a : Text) → Lacks sep a → split sep a ≡ a ∷ []
  unfolding split
  split_of_Lacks [] h = refl
  split_of_Lacks (c ∷ a) (h, hs) = ground (arith, split_of_Lacks a hs)

  pub split-append : (a t : Text) → Lacks sep a → split sep (a ++ sep ∷ t) ≡ a ∷ split sep t
  unfolding split
  split-append [] t h = ground arith
  split-append (c ∷ a) t (h, hs) = ground (arith, split-append a t hs)

  -- Parts without the separator are read back from their text.
  pub split-join :
      (v : Text) (vs : List Text)
      → All (Lacks sep) (v ∷ vs)
      → split sep (join (sep ∷ []) (v ∷ vs)) ≡ v ∷ vs
  unfolding join
  split-join v [] (h, _) = split_of_Lacks v h
  split-join v (w ∷ vs) (h, hs) =
      ap (split sep) (append_assoc v (sep ∷ []) (join (sep ∷ []) (w ∷ vs)))
      ∙ split-append v (join (sep ∷ []) (w ∷ vs)) h
      ∙ ap (λ t. v ∷ t) (split-join w vs hs)

  -- The first part and the rest behind the separator.
  pub before_char-append : (a t : Text) → Lacks sep a → before_char sep (a ++ sep ∷ t) ≡ a
  unfolding before_char
  before_char-append [] t h = ground arith
  before_char-append (c ∷ a) t (h, hs) = ground (arith, before_char-append a t hs)

  pub after_char-append : (a t : Text) → Lacks sep a → after_char sep (a ++ sep ∷ t) ≡ some t
  unfolding after_char
  after_char-append [] t h = ground arith
  after_char-append (c ∷ a) t (h, hs) = ground (arith, after_char-append a t hs)
