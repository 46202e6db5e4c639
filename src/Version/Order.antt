-- ===== src/Version/Order.antt =====
-- Theorems on `compareVersions`.
use Prim.Native.Nat.{max}
use mathlib.Core.Path.{subst}
use native.Mathlib.Numerals.{add-one}
use nowhere_dash.Base.{
  ==_iff, and_parts, ◌&&◌, sym, ltb→lt, leb, leb→le, ◌*◌, ◌∙◌, ◌==◌, ℕ, zero, suc, ◌+◌, ◌≤◌, ◌<◌,
  Bool, true, false, List, [], ◌∷◌, ◌≡◌, ◌≢◌, refl, arith, ltb, Text, ◌↔◌, inl, inr, Bool-cases,
  length,
}
use nowhere_dash.Version.{
  part, compare_loop, compare_parts, compare_versions, version_parts, release_age, Age, today,
  yesterday, on_date, day_ms, days_ago, weeks_ago, months_ago, days_ahead,
}

-- At the first index where the two differ, the first is smaller.
pub record FirstLess (from : ℕ) (a b : List ℕ) : Type 0 where
  pub index : ℕ
  pub starts : from ≤ index
  pub same_before : (j : ℕ) → from ≤ j → j < index → part a j ≡ part b j
  pub less : part a index < part b index

part_beyond : (a : List ℕ) (i : ℕ) → length a ≤ i → part a i ≡ 0
part_beyond [] i h = refl
part_beyond (n ∷ ns) zero h = elim h [ ]
part_beyond (n ∷ ns) (suc i) h = part_beyond ns i (omega arith)

earlier : (i : ℕ) {a b : List ℕ} → part a i ≡ part b i → FirstLess (suc i) a b → FirstLess i a b
earlier i {a} {b} here f = record {
  index = f.index;
  starts = omega (arith, f.starts);
  same_before = λ j p q. elim (Bool-cases (i == j)) [
    | inl e ↦ subst (λ k. part a k ≡ part b k) ((==_iff i j).0 e) here
    | inr ne ↦ f.same_before j (ground arith) q
  ];
  less = f.less;
}

later : (i : ℕ) {a b : List ℕ} (f : FirstLess i a b) → i ≢ f.index → FirstLess (suc i) a b
later i f ne = record {
  index = f.index;
  starts = omega (arith, f.starts);
  same_before = λ j p q. f.same_before j (omega arith) q;
  less = f.less;
}

compare_loop_sound :
    (rounds i : ℕ) (a b : List ℕ) → compare_loop rounds i a b ≡ true → FirstLess i a b
unfolding compare_loop
compare_loop_sound zero i a b h = cc
compare_loop_sound (suc rounds) i a b h = elim (Bool-cases (ltb (part a i) (part b i))) [
  | inl lt ↦ record {
    index = i;
    starts = omega arith;
    same_before = λ j p q. absurd (omega arith);
    less = ground arith;
  }
  | inr ge ↦
      earlier i (ground arith)
        (rw add-one at (compare_loop_sound rounds (i + 1) a b (ground arith)))
]

compare_loop_complete :
    (rounds i : ℕ) (a b : List ℕ) (f : FirstLess i a b)
    → f.index < i + rounds
    → compare_loop rounds i a b ≡ true
unfolding compare_loop later
compare_loop_complete zero i a b f h = absurd (omega (arith, f.starts))
compare_loop_complete (suc rounds) i a b f h = elim (Bool-cases (i == f.index)) [
  | inl e ↦
      let at : part a i < part b i =
        subst (λ k. part a k < part b k) (sym ((==_iff i f.index).0 e)) f.less in
      ground arith
  | inr ne ↦
      let same = f.same_before i (omega arith) (ground (arith, f.starts)) in
      let rest =
        compare_loop_complete rounds (suc i) a b (later i f (ground arith)) (omega arith) in
      ground (arith, add-one i)
]

index_bound : {a b : List ℕ} (f : FirstLess 0 a b) → f.index < max (length a) (length b)
index_bound {a} {b} f = elim (Bool-cases (ltb f.index (length b))) [
  | inl lt ↦ omega (arith, ltb→lt _ _ lt)
  | inr ge ↦ absurd (omega (arith, f.less, part_beyond b f.index (ground arith)))
]

-- `compareVersions` answers true exactly when, at the first position where the numeric parts differ
-- (a missing part counts as 0), that of the first version is smaller.
pub compare_versions_iff :
    (number : Text → ℕ) (v w : Text)
    → (compare_versions number v w ≡ true)
      ↔ FirstLess 0 (version_parts number v) (version_parts number w)
unfolding compare_versions compare_parts
compare_versions_iff number v w = (
  compare_loop_sound _ 0 _ _,
  λ f. compare_loop_complete _ 0 _ _ f (omega (arith, index_bound f)),
)

false_of_not : (b : Bool) → ¬ (b ≡ true) → b ≡ false
false_of_not true h = absurd (h refl)
false_of_not false h = refl

FirstLess_irrefl : {a : List ℕ} → ¬ FirstLess 0 a a
FirstLess_irrefl f = omega (arith, f.less)

-- At or before the deciding index the first is at most the second.
le_until : {a b : List ℕ} (f : FirstLess 0 a b) (k : ℕ) → k ≤ f.index → part a k ≤ part b k
le_until {a} {b} f k h = elim (Bool-cases (k == f.index)) [
  | inl e ↦
      let less : part a k < part b k =
        subst (λ n. part a n < part b n) (sym ((==_iff k f.index).0 e)) f.less in
      omega arith
  | inr ne ↦ omega (arith, f.same_before k (omega arith) (ground arith))
]

FirstLess_asymm : {a b : List ℕ} → FirstLess 0 a b → ¬ FirstLess 0 b a
FirstLess_asymm f g = elim (Bool-cases (leb f.index g.index)) [
  | inl le ↦ omega (arith, f.less, le_until g f.index (leb→le _ _ le))
  | inr gt ↦ omega (arith, g.less, le_until f g.index (ground arith))
]

FirstLess_trans : {a b c : List ℕ} → FirstLess 0 a b → FirstLess 0 b c → FirstLess 0 a c
FirstLess_trans {a} {b} {c} f g = elim (Bool-cases (leb f.index g.index)) [
  | inl le ↦ record {
    index = f.index;
    starts = omega arith;
    same_before = λ j p q. f.same_before j p q ∙ g.same_before j p (omega (arith, leb→le _ _ le));
    less = omega (arith, f.less, le_until g f.index (leb→le _ _ le));
  }
  | inr gt ↦ record {
    index = g.index;
    starts = omega arith;
    same_before = λ j p q. f.same_before j p (ground arith) ∙ g.same_before j p q;
    less = omega (arith, g.less, le_until f g.index (ground arith));
  }
]

-- The order is strict: a version is not newer than itself, and of two versions at most one is newer
-- than the other.
pub compare_versions_strict :
    (number : Text → ℕ) (v w : Text)
    → (compare_versions number v v ≡ false)
      × ((compare_versions number v w && compare_versions number w v) ≡ false)
compare_versions_strict number v w = (
  false_of_not _ (λ e. FirstLess_irrefl ((compare_versions_iff number v v).0 e)),
  false_of_not _ (λ e.
      let (p, q) = and_parts _ _ e in
      FirstLess_asymm ((compare_versions_iff number v w).0 p)
        ((compare_versions_iff number w v).0 q)),
)

-- The order is transitive.
pub compare_versions_trans :
    (number : Text → ℕ) (u v w : Text)
    → compare_versions number u v ≡ true
    → compare_versions number v w ≡ true
    → compare_versions number u w ≡ true
compare_versions_trans number u v w p q = (compare_versions_iff number u w).1 (
    FirstLess_trans ((compare_versions_iff number u v).0 p) ((compare_versions_iff number v w).0 q))

-- The range of the number in each text of `formatReleaseTime`.
abbrev pub InRange : ℕ → ℕ → Age → Type 0
InRange now date today = date ≤ now
InRange now date yesterday = date ≤ now
InRange now date on_date = date + 365 * day_ms ≤ now
InRange now date (days_ago n) = (2 ≤ n) × (n ≤ 6)
InRange now date (weeks_ago n) = (1 ≤ n) × (n ≤ 4)
InRange now date (months_ago n) = (1 ≤ n) × (n ≤ 12)
InRange now date (days_ahead n) = (1 ≤ n) × (now < date)

-- The number in every text of `formatReleaseTime` is in its range: 2 to 6 days, 1 to 4 weeks, 1 to
-- 12 months, and only a date in the future gives a negative number of days.
pub release_age-InRange : (now date : ℕ) → InRange now date (release_age now date)
unfolding release_age
release_age-InRange now date = ground arith
