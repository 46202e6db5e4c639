-- ===== src/Portal/Path/Segments.antt =====
-- One segment of the carrier path, formatted and read.
use nowhere_dash.Base.{
  ℕ, ◌≤◌, true, [], ◌∷◌, ◌++◌, ◌==◌, if◌then◌else◌, Text, codes, text_eq, starts_with, split,
  truthy, is_digit, all, Lacks, All, All-append, ◌≡◌, ◌≢◌, ◌⊎◌, refl, ◌∙◌, ap, arith, inl, inr,
  Bool-cases, digits_value,
}
use nowhere_dash.Portal.Platform.{Carrier, tcp, udp, ok, err, duplicate_carrier}
use nowhere_dash.Portal.Endpoint.{ServiceEndpoint, port_of, family_of, carrier_text, carrier_path}
use nowhere_dash.Portal.Parse.{is_segment, read_segment, canonical_digits, carrier_of, set_carrier}
use nowhere_dash.Base.Splits.{split_of_Lacks, split-append}
use nowhere_dash.Portal.Path.Texts.{NoQuery}

pub data Family : Type 0 where
  any four six : Family

abbrev pub family_text : Family → Text
family_text any = codes "any"
family_text four = codes "4"
family_text six = codes "6"

abbrev pub shown : Family → Text
shown any = []
shown four = codes "4"
shown six = codes "6"

abbrev pub name : Carrier → Family → Text
name c f = carrier_text c ++ shown f

abbrev pub segment : Carrier → Family → Text → Text
segment c f port = name c f ++ b':' ∷ port

abbrev pub Digits : Text → Type 0
Digits = All (λ c. (b'0' ≤ c) × (c ≤ b'9'))

pub family_known :
    (t : Text)
    → (t ≡ codes "any") ⊎ (t ≡ codes "4") ⊎ (t ≡ codes "6")
    → (f : Family) × (t ≡ family_text f)
family_known t (inl e) = (any, e)
family_known t (inr (inl e)) = (four, e)
family_known t (inr (inr e)) = (six, e)

all-Digits : (s : Text) → Digits s → all is_digit s ≡ true
all-Digits [] h = refl
all-Digits (c ∷ s) (h, hs) = ground (arith, all-Digits s hs)

pub is_segment-segment :
    (c : Carrier) (f : Family) (port : Text)
    → port ≢ []
    → Digits port
    → is_segment (segment c f port) ≡ true
unfolding is_segment starts_with
is_segment-segment tcp any port ne h = ground (arith, all-Digits port h)
is_segment-segment tcp four port ne h = ground (arith, all-Digits port h)
is_segment-segment tcp six port ne h = ground (arith, all-Digits port h)
is_segment-segment udp any port ne h = ground (arith, all-Digits port h)
is_segment-segment udp four port ne h = ground (arith, all-Digits port h)
is_segment-segment udp six port ne h = ground (arith, all-Digits port h)

pub Digits-Lacks : (d : ℕ) (s : Text) → (d ≡ b':') ⊎ (d ≡ b'/') → Digits s → Lacks d s
Digits-Lacks d [] e h = tt
Digits-Lacks d (c ∷ s) e (h, hs) = (ground arith, Digits-Lacks d s e hs)

pub Digits-NoQuery : (s : Text) → Digits s → NoQuery s
Digits-NoQuery [] h = tt
Digits-NoQuery (c ∷ s) (h, hs) = (ground arith, Digits-NoQuery s hs)

name-Lacks_slash : (c : Carrier) (f : Family) → Lacks b'/' (name c f)
name-Lacks_slash tcp any = omega arith
name-Lacks_slash tcp four = omega arith
name-Lacks_slash tcp six = omega arith
name-Lacks_slash udp any = omega arith
name-Lacks_slash udp four = omega arith
name-Lacks_slash udp six = omega arith

name-Lacks_colon : (c : Carrier) (f : Family) → Lacks b':' (name c f)
name-Lacks_colon tcp any = omega arith
name-Lacks_colon tcp four = omega arith
name-Lacks_colon tcp six = omega arith
name-Lacks_colon udp any = omega arith
name-Lacks_colon udp four = omega arith
name-Lacks_colon udp six = omega arith

name-NoQuery : (c : Carrier) (f : Family) → NoQuery (name c f)
name-NoQuery tcp any = ground arith
name-NoQuery tcp four = ground arith
name-NoQuery tcp six = ground arith
name-NoQuery udp any = ground arith
name-NoQuery udp four = ground arith
name-NoQuery udp six = ground arith

pub segment-Lacks :
    (c : Carrier) (f : Family) (port : Text) → Digits port → Lacks b'/' (segment c f port)
segment-Lacks c f port h =
    All-append _ (name c f) (b':' ∷ port) (name-Lacks_slash c f)
      (omega arith, Digits-Lacks b'/' port (inr refl) h)

pub segment-NoQuery :
    (c : Carrier) (f : Family) (port : Text) → Digits port → NoQuery (segment c f port)
segment-NoQuery c f port h =
    All-append _ (name c f) (b':' ∷ port) (name-NoQuery c f) (refl, Digits-NoQuery port h)

split-segment :
    (c : Carrier) (f : Family) (port : Text)
    → Digits port
    → split b':' (segment c f port) ≡ name c f ∷ port ∷ []
split-segment c f port h =
    split-append b':' (name c f) port (name-Lacks_colon c f)
    ∙ ap (◌∷◌ (name c f)) (split_of_Lacks b':' port (Digits-Lacks b':' port (inl refl) h))

-- A formatted segment sets its carrier, unless the carrier was set before.
pub read_segment-segment :
    (c : Carrier) (f : Family) (port : Text) (e : ServiceEndpoint)
    → Digits port
    → read_segment e (segment c f port) ≡ (
        if truthy (port_of c e)
        then err duplicate_carrier
        else ok (set_carrier c (canonical_digits port) (family_text f) e))
unfolding read_segment carrier_of text_eq
read_segment-segment tcp any port e h = rw (split-segment tcp any port h)
read_segment-segment tcp four port e h = rw (split-segment tcp four port h)
read_segment-segment tcp six port e h = rw (split-segment tcp six port h)
read_segment-segment udp any port e h = rw (split-segment udp any port h)
read_segment-segment udp four port e h = rw (split-segment udp four port h)
read_segment-segment udp six port e h = rw (split-segment udp six port h)

-- `String(Number(port))` is a number of the same value, in digits.
pub canonical_digits_lem :
    (port : Text)
    → port ≢ []
    → Digits port
    → (digits_value 0 (canonical_digits port) ≡ digits_value 0 port)
      × Digits (canonical_digits port)
      × (canonical_digits port ≢ [])
unfolding canonical_digits digits_value
canonical_digits_lem [] ne h = absurd (ne refl)
canonical_digits_lem (c ∷ []) ne h = (refl, h, cc)
canonical_digits_lem (c ∷ d ∷ s) ne (h, hs) = elim (Bool-cases (c == b'0')) [
  | inl z ↦ rw z (
      let (value, digits, given) = canonical_digits_lem (d ∷ s) (cc) hs in
      (value ∙ ap (λ n. digits_value n s) (ground arith), digits, given))
  | inr nz ↦ rw nz (refl, (h, hs), cc)
]

pub carrier_path-segment :
    (c : Carrier) (f : Family) (e : ServiceEndpoint)
    → port_of c e ≢ []
    → family_of c e ≡ family_text f
    → carrier_path c e ≡ b'/' ∷ segment c f (port_of c e)
unfolding carrier_path text_eq
carrier_path-segment tcp any e on e' = ground arith
carrier_path-segment tcp four e on e' = ground arith
carrier_path-segment tcp six e on e' = ground arith
carrier_path-segment udp any e on e' = ground arith
carrier_path-segment udp four e on e' = ground arith
carrier_path-segment udp six e on e' = ground arith
