-- ===== src/Subscription/Accepted.antt =====
-- Theorems on the nodes of a text in which `inspectExternalUris` finds no issue.
use mathlib.Core.Bool.{false≢true}
use nowhere_dash.Base.{
  ℕ, ◌+◌, ◌≤◌, true, false, List, [], ◌∷◌, Option, none, some, ltb, if◌then◌else◌, Text, length,
  truthy, trim, is_member, All, All-append, ◌≡◌, ◌≢◌, refl, ap, ◌∙◌, sym, arith, inl, inr,
  Bool-cases,
}
use nowhere_dash.Portal.Uri.{byte_length}
use nowhere_dash.Subscription.Uris.{
  IssueKind, duplicate, supported_schemes, Inspection, Scan, inspect_line, inspect_lines,
  inspect_scheme, inspect_external_uris, add_issue, empty_scan, split_lines, match_scheme, too_long,
}
use nowhere_dash.Subscription.Distinct.{distinct}
use nowhere_dash.Subscription.Unique.{
  no_issues, no_issues-append, inspect_scheme-issues, inspect_scheme-values, grow, inspect-distinct,
}

-- A node that is not empty, has at most 8192 bytes and a supported scheme.
pub record IsNode (v : Text) : Type 0 where
  pub given : v ≢ []
  pub short : byte_length v ≤ 8192
  pub scheme : Text
  pub matched : match_scheme [] v ≡ some scheme
  pub supported : is_member scheme supported_schemes ≡ true

-- While there is no issue, what was found are nodes.
IsClean : Scan → Type 0
IsClean w = no_issues w.found.issues ≡ true → All IsNode w.found.values

scheme-IsNode :
    (line : ℕ) (v : Text) (i : Inspection)
    → truthy v ≡ true
    → ltb 8192 (byte_length v) ≡ false
    → (m : Option Text) → match_scheme [] v ≡ m
    → no_issues (inspect_scheme line m i).issues ≡ true
    → IsNode v
unfolding inspect_scheme
scheme-IsNode line v i t b none e h = absurd (false≢true (sym (no_issues-append i.issues _) ∙ h))
scheme-IsNode line v i t b (some scheme) e h =
    elim (Bool-cases (is_member scheme supported_schemes)) [
      | inr k ↦ absurd (false≢true (sym (no_issues-append i.issues _) ∙ rw k at h))
      | inl k ↦ record {
        given = λ empty. ground arith;
        short = ground arith;
        scheme = scheme;
        matched = e;
        supported = k;
      }
    ]

issue-IsClean :
    (i : Inspection) (seen : List Text) (line : ℕ) (kind : IssueKind)
    → IsClean (record { found = add_issue line kind [] i; seen = seen })
unfolding IsClean
issue-IsClean i seen line kind c = absurd (false≢true (sym (no_issues-append i.issues _) ∙ c))

inspect_line-IsClean :
    (line : ℕ) (v : Text) (w : Scan) → IsClean w → IsClean (inspect_line line v w)
unfolding inspect_line IsClean
inspect_line-IsClean line v w u = elim (Bool-cases (truthy v)) [
  | inr blank ↦ rw blank u
  | inl given ↦ elim (Bool-cases (ltb 8192 (byte_length v))) [
    | inl long ↦ rw (given, long) (issue-IsClean (grow v w.found) w.seen line too_long)
    | inr short ↦ elim (Bool-cases (is_member v w.seen)) [
      | inl old ↦ rw (given, short, old) (issue-IsClean (grow v w.found) w.seen line duplicate)
      | inr new ↦
          rw (given, short, new) (added (scheme-IsNode line v (grow v w.found) given short _ refl))
    ]
  ]
]
  where
    added :
        (no_issues (inspect_scheme line (match_scheme [] v) (grow v w.found)).issues ≡ true
          → IsNode v)
        → no_issues (inspect_scheme line (match_scheme [] v) (grow v w.found)).issues ≡ true
        → All IsNode (inspect_scheme line (match_scheme [] v) (grow v w.found)).values
    added node c = rw (inspect_scheme-values line (match_scheme [] v) (grow v w.found)) (
        All-append IsNode w.found.values (v ∷ [])
          (u (inspect_scheme-issues line (match_scheme [] v) (grow v w.found) c)) (node c, tt))

inspect_lines-IsClean :
    (line : ℕ) (texts : List Text) (w : Scan) → IsClean w → IsClean (inspect_lines line texts w)
unfolding inspect_lines
inspect_lines-IsClean line [] w u = u
inspect_lines-IsClean line (v ∷ vs) w u =
    inspect_lines-IsClean (line + 1) vs (inspect_line line (trim v) w)
      (inspect_line-IsClean line (trim v) w u)

empty_scan-IsClean : IsClean empty_scan
unfolding IsClean
empty_scan-IsClean c = tt

-- The limit on the number of nodes, at the end.
capped :
    (i : Inspection)
    → (no_issues i.issues ≡ true → All IsNode i.values)
    → no_issues (if ltb 500 (length i.values) then add_issue 501 too_long [] i else i).issues ≡ true
    → (length (if ltb 500 (length i.values) then add_issue 501 too_long [] i else i).values ≤ 500)
      × All IsNode (if ltb 500 (length i.values) then add_issue 501 too_long [] i else i).values
capped i u h = elim (Bool-cases (ltb 500 (length i.values))) [
  | inl e ↦ absurd (false≢true (sym (no_issues-append i.issues _) ∙ rw e at h))
  | inr e ↦ rw e (ground arith, u (rw e at h))
]

-- If `inspectExternalUris` finds no issue in a text, then its nodes are distinct and at most 500, and
-- each is not empty, has at most 8192 bytes and a scheme that is supported.
pub inspect_external_uris_lem :
    (input : Text)
    → (inspect_external_uris input).issues ≡ []
    → (distinct (inspect_external_uris input).values ≡ true)
      × (length (inspect_external_uris input).values ≤ 500)
      × All IsNode (inspect_external_uris input).values
unfolding inspect_external_uris IsClean
inspect_external_uris_lem input h =
    let scan = inspect_lines 1 (split_lines input) empty_scan in
    let clean = inspect_lines-IsClean 1 (split_lines input) empty_scan empty_scan-IsClean in
    let (few, nodes) = capped scan.found clean (ap no_issues h) in
    (inspect-distinct input (ap (λ issues. ltb 0 (length issues)) h), few, nodes)
