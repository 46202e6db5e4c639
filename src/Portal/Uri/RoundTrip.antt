-- ===== src/Portal/Uri/RoundTrip.antt =====
-- Theorems on `decodeURIComponent` of what `encodeComponent` writes.
use mathlib.Core.List.{flat_map, append_assoc}
use mathlib.Core.Option
use nowhere_dash.Base.{
  ℕ, ◌+◌, ◌/◌, ◌%◌, ◌<◌, ◌≤◌, true, [], ◌∷◌, ◌++◌, some, ◌≡◌, ◌≢◌, refl, ◌∙◌, ap, arith, ltb, Text,
  All, inl, inr, Bool-cases, ◌||◌, List,
}
use nowhere_dash.Portal.Uri.{
  utf8, percents, idle, whole, is_scalar, decode_from, decode_uri_component, encode_unit,
  encode_component, is_mark, is_unreserved, take_byte, emitted, waiting, Utf,
}
use nowhere_dash.Portal.Uri.Safe.{
  encode_one, encode_one-mark, encode_one-other, encode_component_lem,
}
use nowhere_dash.Portal.Uri.Bytes.{
  after, decode_from-percent, take_byte-ascii, take_byte-lead2, take_byte-lead3, take_byte-lead4,
  take_byte-more, take_byte-last,
}

-- In decoder state `u` the encoded bytes `bs` give the one character `c`, whatever follows.
abbrev Reads : Utf → List ℕ → ℕ → Type 0
Reads u bs c =
    (rest : Text)
    → decode_from idle u (percents bs ++ rest) ≡ Option.map (◌∷◌ c) (decode_from idle whole rest)

Reads-last : (u : Utf) (b c : ℕ) → b < 256 → take_byte u b ≡ emitted c → Reads u (b ∷ []) c
unfolding percents
Reads-last u b c h e rest =
    rw append_assoc (decode_from-percent b u rest h ∙ ap (λ t. after t rest) e)

Reads-next :
    (u v : Utf) (b c : ℕ) (bs : List ℕ)
    → b < 256
    → take_byte u b ≡ waiting v
    → Reads v bs c
    → Reads u (b ∷ bs) c
unfolding percents
Reads-next u v b c bs h e more rest =
    rw append_assoc
      (decode_from-percent b u _ h ∙ ap (λ t. after t (percents bs ++ rest)) e ∙ more rest)

two :
    (c : ℕ)
    → 128 ≤ c
    → c < 2048
    → is_scalar c ≡ true
    → Reads whole ((192 + c / 64) ∷ (128 + c % 64) ∷ []) c
two c lo hi s = Reads-next _ _ _ _ _ (omega arith) (take_byte-lead2 (c / 64) (omega arith)) (
    Reads-last _ _ _ (omega arith) (take_byte-last _ _ (c % 64) c (omega arith) (omega arith) lo s))

three :
    (c : ℕ)
    → 2048 ≤ c
    → c < 65536
    → is_scalar c ≡ true
    → Reads whole ((224 + c / 4096) ∷ (128 + c / 64 % 64) ∷ (128 + c % 64) ∷ []) c
three c lo hi s = Reads-next _ _ _ _ _ (omega arith) (take_byte-lead3 (c / 4096) (omega arith)) (
    Reads-next _ _ _ _ _ (omega arith)
      (take_byte-more 2 _ _ (c / 64 % 64) (omega arith) (omega arith))
      (Reads-last _ _ _ (omega arith)
        (take_byte-last _ _ (c % 64) c (omega arith) (omega arith) lo s)))

four :
    (c : ℕ)
    → 65536 ≤ c
    → c < 1114112
    → is_scalar c ≡ true
    → Reads whole
        ((240 + c / 262144) ∷ (128 + c / 4096 % 64) ∷ (128 + c / 64 % 64) ∷ (128 + c % 64) ∷ [])
        c
four c lo hi s = Reads-next _ _ _ _ _ (omega arith) (take_byte-lead4 (c / 262144) (omega arith)) (
    Reads-next _ _ _ _ _ (omega arith)
      (take_byte-more 3 _ _ (c / 4096 % 64) (omega arith) (omega arith))
      (Reads-next _ _ _ _ _ (omega arith)
        (take_byte-more 2 _ _ (c / 64 % 64) (omega arith) (omega arith))
        (Reads-last _ _ _ (omega arith)
          (take_byte-last _ _ (c % 64) c (omega arith) (omega arith) lo s))))

-- A character that is no percent sign stands for itself.
plain :
    (c : ℕ) (rest : Text)
    → c ≢ b'%'
    → decode_from idle whole (c ∷ rest) ≡ Option.map (◌∷◌ c) (decode_from idle whole rest)
unfolding decode_from
plain c rest h = ground arith

Reads-utf8 : (c : ℕ) → is_scalar c ≡ true → Reads whole (utf8 c) c
unfolding utf8
Reads-utf8 c s = elim (Bool-cases (ltb c 128)) [
  | inl a ↦ rw a (Reads-last _ _ _ (ground arith) (take_byte-ascii c (ground arith)))
  | inr a ↦ rw a (elim (Bool-cases (ltb c 2048)) [
    | inl b ↦ rw b (two c (ground arith) (ground arith) s)
    | inr b ↦ rw b (elim (Bool-cases (ltb c 65536)) [
      | inl d ↦ rw d (three c (ground arith) (ground arith) s)
      | inr d ↦ rw d (four c (ground arith) (ground arith) s)
    ])
  ])
]

-- One encoded character in front of more text.
decode_from-encode_unit :
    (c : ℕ) (rest : Text)
    → is_scalar c ≡ true
    → decode_from idle whole (encode_unit c ++ rest)
      ≡ Option.map (◌∷◌ c) (decode_from idle whole rest)
unfolding encode_unit
decode_from-encode_unit c rest s = elim (Bool-cases (is_unreserved c || is_mark c)) [
  | inl u ↦ rw u (plain c rest (ground arith))
  | inr u ↦ rw u (Reads-utf8 c s rest)
]

decode_from-encode_one :
    (c : ℕ) (rest : Text)
    → is_scalar c ≡ true
    → decode_from idle whole (encode_one c ++ rest)
      ≡ Option.map (◌∷◌ c) (decode_from idle whole rest)
decode_from-encode_one c rest s = elim (Bool-cases (is_mark c)) [
  | inl m ↦ rw (encode_one-mark c m) (
      decode_from-percent c whole rest (ground arith)
      ∙ ap (λ t. after t rest) (take_byte-ascii c (ground arith)))
  | inr m ↦ rw (encode_one-other c s m) (decode_from-encode_unit c rest s)
]

decode_from-flat_map :
    (s : Text)
    → All (λ c. is_scalar c ≡ true) s
    → decode_from idle whole (flat_map encode_one s) ≡ some s
unfolding flat_map
decode_from-flat_map [] _ = unfold decode_from in refl
decode_from-flat_map (c ∷ s) (h, hs) =
    decode_from-encode_one c (flat_map encode_one s) h
    ∙ ap (Option.map (◌∷◌ c)) (decode_from-flat_map s hs)

-- `decodeURIComponent(encodeComponent(s))` is `s`, for every well-formed string.
pub decode-encode_component :
    (s : Text)
    → All (λ c. is_scalar c ≡ true) s
    → decode_uri_component (encode_component s) ≡ some s
unfolding decode_uri_component
decode-encode_component s h = rw encode_component_lem (decode_from-flat_map s h)
