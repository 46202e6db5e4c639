-- ===== src/Subscription/Unique.antt =====
-- Theorems on the texts in which `inspectExternalUris` finds no issue.
use mathlib.Core.Bool.{false≢true}
use nowhere_dash.Base.{
  is_member-append, ℕ, ◌+◌, Bool, true, false, ◌||◌, List, [], ◌∷◌, ◌++◌, Option, none, some, ltb,
  if◌then◌else◌, Text, text_eq, length, truthy, trim, is_member, ◌≡◌, refl, ap, ◌∙◌, sym, arith,
  inl, inr, Bool-cases,
}
use nowhere_dash.Portal.Uri.{byte_length}
use nowhere_dash.Subscription.Uris.{
  Issue, IssueKind, duplicate, supported_schemes, Inspection, Scan, inspect_line, inspect_lines,
  inspect_scheme, inspect_external_uris, add_issue, empty_scan, split_lines, match_scheme, too_long,
}
use nowhere_dash.Subscription.Distinct.{distinct, distinct-append}

abbrev pub no_issues : List Issue → Bool
no_issues [] = true
no_issues (x ∷ xs) = false

pub no_issues-append : (xs : List Issue) (y : Issue) → no_issues (xs ++ y ∷ []) ≡ false
no_issues-append [] y = refl
no_issues-append (x ∷ xs) y = refl

-- While there is no issue, the texts seen are those found, each once.
record IsUnique (w : Scan) : Type 0 where
  seen_all :
      no_issues w.found.issues ≡ true → (u : Text) → is_member u w.seen ≡ is_member u w.found.values
  once : no_issues w.found.issues ≡ true → distinct w.found.values ≡ true

pub inspect_scheme-issues :
    (line : ℕ) (m : Option Text) (i : Inspection)
    → no_issues (inspect_scheme line m i).issues ≡ true
    → no_issues i.issues ≡ true
unfolding inspect_scheme
inspect_scheme-issues line none i h = cc (no_issues-append i.issues _)
inspect_scheme-issues line (some scheme) i h =
    elim (Bool-cases (is_member scheme supported_schemes)) [
      | inl k ↦ rw k at h
      | inr k ↦ absurd (false≢true (sym (no_issues-append i.issues _) ∙ rw k at h))
    ]

pub inspect_scheme-values :
    (line : ℕ) (m : Option Text) (i : Inspection) → (inspect_scheme line m i).values ≡ i.values
unfolding inspect_scheme
inspect_scheme-values line none i = refl
inspect_scheme-values line (some scheme) i = ground arith

or_swap : (a b : Bool) → (a || b) ≡ (b || (a || false))
or_swap a b = ground arith

add-IsUnique :
    (w : Scan) (v : Text) (i : Inspection)
    → is_member v w.seen ≡ false
    → (no_issues i.issues ≡ true → no_issues w.found.issues ≡ true)
    → i.values ≡ w.found.values ++ v ∷ []
    → IsUnique w
    → IsUnique (record { found = i; seen = v ∷ w.seen })
unfolding is_member
add-IsUnique w v i new clean e u = record {
  seen_all = λ c t.
      ap (λ b. text_eq t v || b) (u.seen_all (clean c) t)
      ∙ or_swap (text_eq t v) (is_member t w.found.values)
      ∙ sym (ap (is_member t) e ∙ is_member-append t w.found.values (v ∷ []));
  once = λ c.
      ap distinct e
      ∙ distinct-append w.found.values (v ∷ []) (u.once (clean c)) refl
          (ap (λ b. b || false) (sym (u.seen_all (clean c) v) ∙ new));
}

abbrev pub grow : Text → Inspection → Inspection
grow v i = record i { values = i.values ++ v ∷ [] }

-- An issue that is found ends the claim.
issue-IsUnique :
    (w : Scan) (line : ℕ) (kind : IssueKind) (value : Text)
    → IsUnique (record w { found = add_issue line kind value w.found })
issue-IsUnique w line kind value = record {
  seen_all = λ c. absurd (false≢true (sym (no_issues-append w.found.issues _) ∙ c));
  once = λ c. absurd (false≢true (sym (no_issues-append w.found.issues _) ∙ c));
}

inspect_line-IsUnique :
    (line : ℕ) (v : Text) (w : Scan) → IsUnique w → IsUnique (inspect_line line v w)
unfolding inspect_line
inspect_line-IsUnique line v w u = elim (Bool-cases (truthy v)) [
  | inr blank ↦ rw blank u
  | inl given ↦ elim (Bool-cases (ltb 8192 (byte_length v))) [
    | inl long ↦
        rw (given, long) (issue-IsUnique (record w { found = grow v w.found }) line too_long [])
    | inr short ↦ elim (Bool-cases (is_member v w.seen)) [
      | inl old ↦
          rw (given, short, old)
            (issue-IsUnique (record w { found = grow v w.found }) line duplicate [])
      | inr new ↦
          rw (given, short, new)
            (add-IsUnique w v (inspect_scheme line (match_scheme [] v) (grow v w.found)) new
              (inspect_scheme-issues line (match_scheme [] v) (grow v w.found))
              (inspect_scheme-values line (match_scheme [] v) (grow v w.found)) u)
    ]
  ]
]

inspect_lines-IsUnique :
    (line : ℕ) (texts : List Text) (w : Scan) → IsUnique w → IsUnique (inspect_lines line texts w)
unfolding inspect_lines
inspect_lines-IsUnique line [] w u = u
inspect_lines-IsUnique line (v ∷ vs) w u =
    inspect_lines-IsUnique (line + 1) vs (inspect_line line (trim v) w)
      (inspect_line-IsUnique line (trim v) w u)

empty_scan-IsUnique : IsUnique empty_scan
empty_scan-IsUnique = record { seen_all = λ c t. refl; once = λ c. refl }

ltb-no_issues : (xs : List Issue) → ltb 0 (length xs) ≡ false → no_issues xs ≡ true
ltb-no_issues [] h = refl
ltb-no_issues (x ∷ xs) h = ground arith

capped-distinct :
    (b : Bool) (i : Inspection)
    → (no_issues i.issues ≡ true → distinct i.values ≡ true)
    → no_issues (if b then add_issue 501 too_long [] i else i).issues ≡ true
    → distinct (if b then add_issue 501 too_long [] i else i).values ≡ true
capped-distinct true i u h = absurd (false≢true (sym (no_issues-append i.issues _) ∙ h))
capped-distinct false i u h = u h

-- A text in which no issue is found names no node twice.
pub inspect-distinct :
    (input : Text)
    → ltb 0 (length (inspect_external_uris input).issues) ≡ false
    → distinct (inspect_external_uris input).values ≡ true
unfolding inspect_external_uris
inspect-distinct input h =
    let scan = inspect_lines 1 (split_lines input) empty_scan in
    capped-distinct (ltb 500 (length scan.found.values)) scan.found
      (inspect_lines-IsUnique 1 (split_lines input) empty_scan empty_scan-IsUnique).once
      (ltb-no_issues _ h)
