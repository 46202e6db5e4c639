-- ===== src/Portal/Uri/Bytes.antt =====
-- One byte, and one code point, through the percent decoder.
use mathlib.Core.Option
use nowhere_dash.Base.{
  ℕ, ◌+◌, ◌-◌, ◌*◌, ◌/◌, ◌%◌, ◌<◌, ◌≤◌, true, ◌∷◌, ◌++◌, Option, none, some, ◌≡◌, ◌∙◌, arith, Text,
}
use nowhere_dash.Portal.Uri.{
  percent, idle, high, Utf, whole, partial, Taken, refused, emitted, waiting, hex_digit, hex_value,
  is_scalar, take_byte, decode_from,
}

-- What the decoder does after a byte.
abbrev pub after : Taken → Text → Option Text
after refused rest = none
after (emitted d) rest = Option.map (◌∷◌ d) (decode_from idle whole rest)
after (waiting u) rest = decode_from idle u rest

hex_value-hex_digit : (n : ℕ) → n < 16 → hex_value (hex_digit n) ≡ some n
unfolding hex_value
hex_value-hex_digit n h = ground arith

byte_of_halves : (b : ℕ) → b / 16 * 16 + b % 16 ≡ b
byte_of_halves b = omega arith

decode_from-high :
    (b l : ℕ) (u : Utf) (rest : Text)
    → hex_value l ≡ some (b % 16)
    → decode_from (high (b / 16)) u (l ∷ rest) ≡ after (take_byte u b) rest
unfolding decode_from
decode_from-high b l whole rest e = rw (decode_from, e, byte_of_halves b) (ground arith)
decode_from-high b l (partial n a m) rest e = rw (decode_from, e, byte_of_halves b) (ground arith)

decode_from-marked :
    (h l b : ℕ) (u : Utf) (rest : Text)
    → hex_value h ≡ some (b / 16)
    → decode_from idle u (b'%' ∷ h ∷ l ∷ rest) ≡ decode_from (high (b / 16)) u (l ∷ rest)
unfolding decode_from
decode_from-marked h l b whole rest e = rw (decode_from, e)
decode_from-marked h l b (partial n a m) rest e = rw (decode_from, e)

pub decode_from-percent :
    (b : ℕ) (u : Utf) (rest : Text)
    → b < 256
    → decode_from idle u (percent b ++ rest) ≡ after (take_byte u b) rest
unfolding percent
decode_from-percent b u rest h =
    decode_from-marked _ _ b u rest (hex_value-hex_digit (b / 16) (omega arith))
    ∙ decode_from-high b _ u rest (hex_value-hex_digit (b % 16) (omega arith))

-- The bytes of a multi-byte sequence, one lemma for each kind of byte.
pub take_byte-ascii : (b : ℕ) → b < 128 → take_byte whole b ≡ emitted b
unfolding take_byte
take_byte-ascii b h = ground arith

pub take_byte-lead2 : (n : ℕ) → n < 32 → take_byte whole (192 + n) ≡ waiting (partial 1 n 128)
unfolding take_byte
take_byte-lead2 n h = ground arith

pub take_byte-lead3 : (n : ℕ) → n < 16 → take_byte whole (224 + n) ≡ waiting (partial 2 n 2048)
unfolding take_byte
take_byte-lead3 n h = ground arith

pub take_byte-lead4 : (n : ℕ) → n < 8 → take_byte whole (240 + n) ≡ waiting (partial 3 n 65536)
unfolding take_byte
take_byte-lead4 n h = ground arith

pub take_byte-more :
    (left acc min n : ℕ)
    → n < 64
    → 1 < left
    → take_byte (partial left acc min) (128 + n) ≡ waiting (partial (left - 1) (acc * 64 + n) min)
unfolding take_byte
take_byte-more left acc min n h k = ground arith

pub take_byte-last :
    (acc min n c : ℕ)
    → n < 64
    → acc * 64 + n ≡ c
    → min ≤ c
    → is_scalar c ≡ true
    → take_byte (partial 1 acc min) (128 + n) ≡ emitted c
unfolding take_byte
take_byte-last acc min n c h e m s = ground arith
