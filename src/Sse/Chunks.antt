-- ===== src/Sse/Chunks.antt =====
-- Theorems on how `useNowhereSSE` reads the chunks of a stream.
use mathlib.Core.List.{append_assoc, append-nil}
use nowhere_dash.Base.{
  ℕ, true, false, List, [], ◌∷◌, ◌++◌, Option, none, some, Text, split, extend, trim, truthy,
  if◌then◌else◌, ◌≡◌, ◌≢◌, ◌⊎◌, refl, ◌∙◌, sym, ap, arith, inl, inr, Bool-cases, ◌==◌,
}
use nowhere_dash.Sse.{
  Client, Call, on_value, on_log, Progress, went, threw, Loop, reading, stopped, then_read,
  complete_lines, last_line, data_of, finish, deliver, read_data, read_line, read_lines, read_chunk,
  read_chunks,
}

-- The chunks put together.
abbrev pub whole : List Text → Text
whole [] = []
whole (chunk ∷ chunks) = chunk ++ whole chunks

-- A cut never yields no part.
split-cons : (sep : ℕ) (s : Text) → (p : Text) × (ps : List Text) × (split sep s ≡ p ∷ ps)
unfolding split
split-cons sep [] = ([], [], refl)
split-cons sep (c ∷ s) = elim (Bool-cases (c == sep)) [
  | inl e ↦ ([], split sep s, rw e)
  | inr ne ↦ let (p, ps, h) = split-cons sep s in (c ∷ p, ps, rw (ne, h))
]

complete_lines-cons :
    (l : Text) (q : List Text)
    → q ≢ []
    → (complete_lines (l ∷ q) ≡ l ∷ complete_lines q) × (last_line (l ∷ q) ≡ last_line q)
unfolding complete_lines last_line
complete_lines-cons l [] ne = absurd (ne refl)
complete_lines-cons l (m ∷ ms) ne = (refl, refl)

split-ne-nil : (sep : ℕ) (s : Text) → split sep s ≢ []
split-ne-nil sep s = let (p, ps, h) = split-cons sep s in ground arith

split-other :
    (sep c : ℕ) (s : Text) → (c == sep) ≡ false → split sep (c ∷ s) ≡ extend c (split sep s)
unfolding split
split-other sep c s ne = rw ne

-- A character that is no separator in front of a cut text.
extend-later :
    (sep c : ℕ) (q : List Text) (b : Text)
    → (c == sep) ≡ false
    → q ≢ []
    → extend c (complete_lines q ++ split sep (last_line q ++ b))
      ≡ complete_lines (extend c q) ++ split sep (last_line (extend c q) ++ b)
unfolding complete_lines last_line
extend-later sep c [] b other ne = absurd (ne refl)
extend-later sep c (p ∷ []) b other ne = sym (split-other sep c (p ++ b) other)
extend-later sep c (p ∷ q ∷ ps) b other ne = refl

-- Text that comes later only goes on with the last line.
split-later :
    (sep : ℕ) (a b : Text)
    → split sep (a ++ b) ≡ complete_lines (split sep a) ++ split sep (last_line (split sep a) ++ b)
unfolding split
split-later sep [] b = unfold complete_lines last_line in refl
split-later sep (c ∷ s) b = elim (Bool-cases (c == sep)) [
  | inl e ↦
      let (lines, last) = complete_lines-cons [] (split sep s) (split-ne-nil sep s) in
      rw (e, lines, last) (ap (λ q. [] ∷ q) (split-later sep s b))
  | inr ne ↦ rw ne (
      ap (extend c) (split-later sep s b)
      ∙ extend-later sep c (split sep s) b ne (split-ne-nil sep s))
]

append-ne-nil : (xs ys : List Text) → ys ≢ [] → xs ++ ys ≢ []
append-ne-nil [] ys ne = ne
append-ne-nil (x ∷ xs) ys ne = cc

Progress-cases :
    (p : Progress) → ((cs : List Call) × (p ≡ went cs)) ⊎ ((cs : List Call) × (p ≡ threw cs))
Progress-cases (went cs) = inl (cs, refl)
Progress-cases (threw cs) = inr (cs, refl)

complete_lines-append :
    (xs ys : List Text)
    → ys ≢ []
    → (complete_lines (xs ++ ys) ≡ xs ++ complete_lines ys) × (last_line (xs ++ ys) ≡ last_line ys)
complete_lines-append [] ys ne = (refl, refl)
complete_lines-append (x ∷ xs) ys ne =
    let (lines, last) = complete_lines-cons x (xs ++ ys) (append-ne-nil xs ys ne) in
    let (lines', last') = complete_lines-append xs ys ne in
    (lines ∙ ap (λ q. x ∷ q) lines', last ∙ last')

module _ (client : Client) where
  read_lines-append :
      (xs ys : List Text) (calls : List Call)
      → read_lines client (xs ++ ys) calls
        ≡ then_read (read_lines client xs calls) (read_lines client ys)
  unfolding read_lines
  read_lines-append [] ys calls = refl
  read_lines-append (x ∷ xs) ys calls = elim (Progress-cases (read_line client x calls)) [
    | inl (calls', e) ↦ rw e (read_lines-append xs ys calls')
    | inr (calls', e) ↦ rw e
  ]

  -- Two chunks are read as one.
  read_chunk-append :
      (a b : Text) (loop : Loop)
      → read_chunk client b (read_chunk client a loop) ≡ read_chunk client (a ++ b) loop
  unfolding read_chunk finish
  read_chunk-append a b (stopped calls) = refl
  read_chunk-append a b (reading buffer calls) =
      let cut = split 10 (buffer ++ a) in
      let later : split 10 (buffer ++ (a ++ b))
          ≡ complete_lines cut ++ split 10 (last_line cut ++ b) =
        ap (split 10) (sym (append_assoc buffer a b)) ∙ split-later 10 (buffer ++ a) b in
      let (lines, last) =
        complete_lines-append (complete_lines cut) (split 10 (last_line cut ++ b))
          (split-ne-nil 10 (last_line cut ++ b)) in
      elim (Progress-cases (read_lines client (complete_lines cut) calls)) [
        | inl (calls', e) ↦ rw (later, lines, last, read_lines-append, e)
        | inr (calls', e) ↦ rw (later, lines, last, read_lines-append, e)
      ]

  read_chunks-whole :
      (chunk : Text) (chunks : List Text) (loop : Loop)
      → read_chunks client (chunk ∷ chunks) loop ≡ read_chunk client (chunk ++ whole chunks) loop
  unfolding read_chunks
  read_chunks-whole chunk [] loop = rw append-nil
  read_chunks-whole chunk (next ∷ chunks) loop =
      read_chunks-whole next chunks (read_chunk client chunk loop)
      ∙ read_chunk-append chunk (next ++ whole chunks) loop

  -- However a stream is cut into chunks, in whatever state the loop is, the calls and the buffer are
  -- the same: two non-empty cuts of the same text lead to the same state, errors included.
  pub read_chunks_cut :
      (c d : Text) (cs ds : List Text) (loop : Loop)
      → whole (c ∷ cs) ≡ whole (d ∷ ds)
      → read_chunks client (c ∷ cs) loop ≡ read_chunks client (d ∷ ds) loop
  read_chunks_cut c d cs ds loop same =
      read_chunks-whole c cs loop
      ∙ ap (λ t. read_chunk client t loop) same
      ∙ sym (read_chunks-whole d ds loop)

  -- The calls for a complete line: its text as a value, or as a log if it is no JSON.
  abbrev pub calls_of : Option Text → List Call
  calls_of none = []
  calls_of (some text) =
      if truthy (trim text)
      then if client.parses text then on_value text ∷ [] else on_log text ∷ []
      else []

  abbrev pub calls_of_lines : List Text → List Call
  calls_of_lines [] = []
  calls_of_lines (line ∷ lines) = calls_of (data_of line) ++ calls_of_lines lines

  module _ (values : (t : Text) → client.takes_value t ≡ true)
      (logs : (t : Text) → client.takes_log t ≡ true) where
    deliver-calls :
        (text : Text) (calls : List Call)
        → deliver client text calls
          ≡ went (calls ++ (if client.parses text then on_value text ∷ [] else on_log text ∷ []))
    unfolding deliver
    deliver-calls text calls = ground (arith, values text, logs text)

    read_data-calls :
        (data' : Option Text) (calls : List Call)
        → read_data client data' calls ≡ went (calls ++ calls_of data')
    unfolding read_data
    read_data-calls none calls = rw append-nil
    read_data-calls (some text) calls = elim (Bool-cases (truthy (trim text))) [
      | inl given ↦ rw given (deliver-calls text calls)
      | inr blank ↦ rw (blank, append-nil)
    ]

    read_line-calls :
        (line : Text) (calls : List Call)
        → read_line client line calls ≡ went (calls ++ calls_of (data_of line))
    unfolding read_line
    read_line-calls line calls = read_data-calls (data_of line) calls

    read_lines-calls :
        (lines : List Text) (calls : List Call)
        → read_lines client lines calls ≡ went (calls ++ calls_of_lines lines)
    unfolding read_lines
    read_lines-calls [] calls = rw append-nil
    read_lines-calls (line ∷ lines) calls =
        rw (read_line-calls line calls, read_lines-calls lines, append_assoc)

    -- A caller that never throws hears of every complete `data: ` line of the stream, once and in
    -- order, and of nothing else; the last line stays in the buffer.
    pub read_chunks_calls :
        (c : Text) (cs : List Text) (calls : List Call)
        → read_chunks client (c ∷ cs) (reading [] calls)
          ≡ reading
              (last_line (split 10 (whole (c ∷ cs))))
              (calls ++ calls_of_lines (complete_lines (split 10 (whole (c ∷ cs)))))
    read_chunks_calls c cs calls =
        read_chunks-whole c cs (reading [] calls) ∙ unfold read_chunk finish in rw read_lines-calls
