-- ===== src/Subscription/Lines.antt =====
-- The list of external nodes and its text, one node to a line.
use mathlib.Core.List.{append-nil, append_assoc}
use nowhere_dash.Base.{
  ℕ, ◌+◌, Bool, true, false, ◌&&◌, List, [], ◌∷◌, ◌++◌, ltb, ◌==◌, if◌then◌else◌, Text, codes,
  truthy, trim, trim_start, join, ends_with, keep, map, Lacks, All, ◌≡◌, ◌≢◌, refl, ap, ◌∙◌, arith,
  inl, inr, Bool-cases,
}
use nowhere_dash.Base.Trims.{trim-cases, trim-trim, ends_with-space, All-trim}
use nowhere_dash.Subscription.Uris.{
  Inspection, Scan, split_lines, onto_first, starts_line, inspect_line, inspect_lines,
  inspect_scheme, inspect_external_uris, add_issue, too_long, empty_scan,
}

-- A text that stands for a node: not empty, on one line, and trimmed.
pub record IsLine (v : Text) : Type 0 where
  pub given : truthy v ≡ true
  pub one_line : Lacks 10 v
  pub trimmed : trim v ≡ v
  pub no_return : ends_with v 13 ≡ false

-- The lines that are not blank, trimmed.
abbrev pub lines_of : Text → List Text
lines_of input = keep truthy (map trim (split_lines input))

-- One round takes over a line that is not blank.
inspect_line-values :
    (line : ℕ) (v : Text) (w : Scan)
    → (inspect_line line v w).found.values ≡ w.found.values ++ keep truthy (v ∷ [])
unfolding inspect_line inspect_scheme
inspect_line-values line [] w = rw append-nil
inspect_line-values line (c ∷ s) w = ground arith

keep-cons :
    (v : Text) (vs : List Text) → keep truthy (v ∷ []) ++ keep truthy vs ≡ keep truthy (v ∷ vs)
keep-cons [] vs = refl
keep-cons (c ∷ v) vs = refl

inspect_lines-values :
    (line : ℕ) (texts : List Text) (w : Scan)
    → (inspect_lines line texts w).found.values ≡ w.found.values ++ keep truthy (map trim texts)
unfolding inspect_lines
inspect_lines-values line [] w = rw append-nil
inspect_lines-values line (v ∷ vs) w =
    inspect_lines-values (line + 1) vs (inspect_line line (trim v) w)
    ∙ (rw (inspect_line-values line (trim v) w, append_assoc)
        (ap (λ t. w.found.values ++ t) (keep-cons (trim v) (map trim vs))))

-- The test on the number of lines adds no line.
capped-values :
    (b : Bool) (i : Inspection) → (if b then add_issue 501 too_long [] i else i).values ≡ i.values
capped-values true i = refl
capped-values false i = refl

pub inspect-values : (input : Text) → (inspect_external_uris input).values ≡ lines_of input
unfolding inspect_external_uris
inspect-values input =
    capped-values (ltb 500 _) (inspect_lines 1 (split_lines input) empty_scan).found
    ∙ inspect_lines-values 1 (split_lines input) empty_scan

split_lines-cons :
    (c : ℕ) (t : Text)
    → c ≢ 10
    → starts_line t ≡ false
    → split_lines (c ∷ t) ≡ onto_first c (split_lines t)
unfolding split_lines
split_lines-cons c t n h = ground arith

split_lines-break :
    (c : ℕ) (rest : Text)
    → c ≢ 10
    → (c == 13) ≡ false
    → split_lines (c ∷ 10 ∷ rest) ≡ (c ∷ []) ∷ split_lines rest
unfolding split_lines
split_lines-break c rest n h = ground arith

starts_line-other : (d : ℕ) (t : Text) → d ≢ 10 → starts_line (d ∷ t) ≡ false
starts_line-other d t n = ground arith

split_lines-line :
    (v rest : Text)
    → Lacks 10 v
    → ends_with v 13 ≡ false
    → split_lines (v ++ 10 ∷ rest) ≡ v ∷ split_lines rest
unfolding ends_with
split_lines-line [] rest h e = unfold split_lines in refl
split_lines-line (c ∷ []) rest (h, _) e = split_lines-break c rest h e
split_lines-line (c ∷ d ∷ v) rest (h, hs) e =
    split_lines-cons c (d ∷ v ++ 10 ∷ rest) h (starts_line-other d (v ++ 10 ∷ rest) hs.0)
    ∙ ap (onto_first c) (split_lines-line (d ∷ v) rest hs e)

split_lines-nil : split_lines [] ≡ [] ∷ []
unfolding split_lines
split_lines-nil = refl

split_lines-last : (v : Text) → Lacks 10 v → split_lines v ≡ v ∷ []
split_lines-last [] h = unfold split_lines in refl
split_lines-last (c ∷ []) (h, _) = split_lines-cons c [] h refl ∙ ap (onto_first c) split_lines-nil
split_lines-last (c ∷ d ∷ v) (h, hs) =
    split_lines-cons c (d ∷ v) h (starts_line-other d v hs.0)
    ∙ ap (onto_first c) (split_lines-last (d ∷ v) hs)

keep-line :
    (v : Text) (texts : List Text)
    → IsLine v
    → keep truthy (map trim (v ∷ texts)) ≡ v ∷ keep truthy (map trim texts)
keep-line v texts l = rw (l.trimmed, l.given)

-- A list of trimmed node texts that are not empty and on one line is read back from its text, in the
-- same order.
pub lines_of-join : (vs : List Text) → All IsLine vs → lines_of (join (codes "\n") vs) ≡ vs
unfolding join
lines_of-join [] h = unfold split_lines trim trim_start in refl
lines_of-join (v ∷ []) (h, _) = rw (split_lines-last v h.one_line) (keep-line v [] h)
lines_of-join (v ∷ w ∷ vs) (h, hs) =
    ap lines_of (append_assoc v (codes "\n") (join (codes "\n") (w ∷ vs)))
    ∙ ap (λ (t : List Text). keep truthy (map trim t))
        (split_lines-line v (join (codes "\n") (w ∷ vs)) h.one_line h.no_return)
    ∙ keep-line v (split_lines (join (codes "\n") (w ∷ vs))) h
    ∙ ap (λ t. v ∷ t) (lines_of-join (w ∷ vs) hs)

onto_first-Lacks :
    (c : ℕ) (ls : List Text) → c ≢ 10 → All (Lacks 10) ls → All (Lacks 10) (onto_first c ls)
onto_first-Lacks c [] n h = ((n, tt), tt)
onto_first-Lacks c (l ∷ ls) n (h, hs) = ((n, h), hs)

split_lines-Lacks : (s : Text) → All (Lacks 10) (split_lines s)
unfolding split_lines
split_lines-Lacks [] = (tt, tt)
split_lines-Lacks (c ∷ s) =
    let ih = split_lines-Lacks s in
    elim (Bool-cases (c == 10)) [
      | inl e ↦ rw e (tt, ih)
      | inr e ↦ elim (Bool-cases (c == 13 && starts_line s)) [
        | inl k ↦ rw (e, k) ih
        | inr k ↦ rw (e, k) (onto_first-Lacks c (split_lines s) (ground arith) ih)
      ]
    ]

-- What is left of a line is blank or stands for a node.
IsLine-trim : (v : Text) → Lacks 10 v → truthy (trim v) ≡ true → IsLine (trim v)
IsLine-trim v h given = record {
  given = given;
  one_line = All-trim _ v h;
  trimmed = trim-trim v;
  no_return = elim (trim-cases v) [
    | inl e ↦ rw e (unfold ends_with in refl)
    | inr (_, solid) ↦ ends_with-space 13 (trim v) refl solid
  ];
}

keep-trim-IsLine :
    (texts : List Text) → All (Lacks 10) texts → All IsLine (keep truthy (map trim texts))
keep-trim-IsLine [] h = tt
keep-trim-IsLine (v ∷ vs) (h, hs) = elim (Bool-cases (truthy (trim v))) [
  | inl e ↦ rw e (IsLine-trim v h e, keep-trim-IsLine vs hs)
  | inr e ↦ rw e (keep-trim-IsLine vs hs)
]

-- What the inspection of a text finds stands for nodes.
pub lines_of-IsLine : (input : Text) → All IsLine (lines_of input)
lines_of-IsLine input = keep-trim-IsLine (split_lines input) (split_lines-Lacks input)
