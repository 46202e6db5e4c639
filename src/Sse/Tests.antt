-- ===== src/Sse/Tests.antt =====
-- Runs of the stream reader on concrete chunks, and its theorems at them.
use nowhere_dash.Base.{true, [], ◌∷◌, ◌++◌, codes, ◌≡◌, refl, starts_with, split, trim}
use nowhere_dash.Sse.{
  Client, Loop, Call, on_value, on_log, reading, read_chunks, complete_lines, last_line, data_of,
}
use nowhere_dash.Sse.Chunks.{whole, calls_of_lines, read_chunks_cut, read_chunks_calls}

-- A text that starts with a brace is JSON, and nothing throws.
abbrev braces : Client
braces = record {
  parses = λ t. starts_with t (codes "{");
  takes_value = λ t. true;
  takes_log = λ t. true;
}

cut_run :
    read_chunks braces (codes "data: {1}\nda" ∷ codes "ta: log\n\nid: 3\nda" ∷ []) (reading [] [])
    ≡ reading (codes "da") (on_value (codes "{1}") ∷ on_log (codes "log") ∷ [])
unfolding read_chunks split nowhere_dash.Sse.finish complete_lines data_of starts_with trim
    last_line
cut_run = refl

read_chunks_cut_example :
    read_chunks braces (codes "data: {1}\nda" ∷ codes "ta: log\n\nid: 3\nda" ∷ []) (reading [] [])
    ≡ read_chunks braces (codes "data: {1}\ndata: log\n" ∷ codes "\nid: 3\nda" ∷ []) (reading [] [])
read_chunks_cut_example =
    read_chunks_cut braces (codes "data: {1}\nda") (codes "data: {1}\ndata: log\n")
      (codes "ta: log\n\nid: 3\nda" ∷ []) (codes "\nid: 3\nda" ∷ []) (reading [] []) refl

read_chunks_calls_example :
    read_chunks braces (codes "data: {1}\nda" ∷ codes "ta: log\n" ∷ []) (reading [] [])
    ≡ reading (last_line (split 10 (whole (codes "data: {1}\nda" ∷ codes "ta: log\n" ∷ [])))) (
        []
        ++ calls_of_lines braces
            (complete_lines (split 10 (whole (codes "data: {1}\nda" ∷ codes "ta: log\n" ∷ [])))))
read_chunks_calls_example =
    read_chunks_calls braces (λ t. refl) (λ t. refl) (codes "data: {1}\nda")
      (codes "ta: log\n" ∷ []) []
