-- ===== src/Portal/Path/Carriers.antt =====
-- The segments of one carrier, and a URL's text from its authority and its segments.
use mathlib.Core.List.{append-nil, append_assoc}
use nowhere_dash.Base.{
  true, false, not, List, [], ◌∷◌, ◌++◌, some, if◌then◌else◌, Text, split, truthy, any, Lacks, All,
  All-append, ◌≡◌, ◌≢◌, ◌⊎◌, sym, refl, ◌∙◌, ap, arith, inl, inr, Bool-cases, drop,
}
use nowhere_dash.Portal.Platform.{Carrier, tcp, udp}
use nowhere_dash.Portal.Endpoint.{ServiceEndpoint, port_of, family_of, carrier_path}
use nowhere_dash.Portal.Endpoint.Valid.{IsCarrier}
use nowhere_dash.Portal.Parse.{
  before_query, is_segment, read_segments, canonical_digits, set_carrier, before_scheme_end,
  after_scheme, path_segments, segments_behind,
}
use nowhere_dash.Base.Splits.{split_of_Lacks, split-append}
use nowhere_dash.Portal.Path.Texts.{
  NoQuery, before_query-append, before_scheme_end-append, before_scheme_end_of_Lacks,
}
use nowhere_dash.Portal.Path.Segments.{
  Family, family_text, segment, Digits, family_known, is_segment-segment, segment-Lacks,
  segment-NoQuery, read_segment-segment, carrier_path-segment,
}

segment-ne-nil : (c : Carrier) (f : Family) (port : Text) → segment c f port ≢ []
segment-ne-nil tcp f port = cc
segment-ne-nil udp f port = cc

-- The segments that `formatServiceEndpoint` writes for a carrier.
abbrev pub carrier_segments : Carrier → ServiceEndpoint → List Text
carrier_segments c e = if truthy (port_of c e) then drop 1 (carrier_path c e) ∷ [] else []

-- Every segment behind a slash.
abbrev pub path_text : List Text → Text
path_text [] = []
path_text (s ∷ ss) = b'/' ∷ s ++ path_text ss

-- What can stand between two slashes of a carrier path.
abbrev pub IsPart : Text → Type 0
IsPart s = Lacks b'/' s × NoQuery s × (s ≢ []) × (is_segment s ≡ true)

-- What reading back keeps of a carrier.
abbrev pub keep_carrier : Carrier → ServiceEndpoint → ServiceEndpoint → ServiceEndpoint
keep_carrier c e into =
    if truthy (port_of c e)
    then set_carrier c (canonical_digits (port_of c e)) (family_of c e) into
    else into

module _ (host : Text) (c : Carrier) (e : ServiceEndpoint)
    (valid : port_of c e ≢ [] → IsCarrier host (port_of c e) (family_of c e)) where
  carrier-cases :
      (truthy (port_of c e) ≡ false)
      ⊎ ((f : Family) × (truthy (port_of c e) ≡ true)
          × (port_of c e ≢ [])
          × Digits (port_of c e)
          × (family_of c e ≡ family_text f)
          × (carrier_path c e ≡ b'/' ∷ segment c f (port_of c e)))
  carrier-cases = elim (Bool-cases (truthy (port_of c e))) [
    | inr off ↦ inl off
    | inl on ↦
        let given : port_of c e ≢ [] = ground arith in
        let v = valid given in
        let (f, k) = family_known (family_of c e) v.known in
        inr (f, on, given, v.digits, k, carrier_path-segment c f e given k)
  ]

  pub carrier_path-path_text : carrier_path c e ≡ path_text (carrier_segments c e)
  carrier_path-path_text = elim carrier-cases [
    | inl off ↦ rw off (unfold carrier_path in rw off)
    | inr (f, on, given, ds, k, p) ↦ rw (on, p) (rw append-nil)
  ]

  pub carrier_segments-IsPart : All IsPart (carrier_segments c e)
  carrier_segments-IsPart = elim carrier-cases [
    | inl off ↦ rw off tt
    | inr (f, on, given, ds, k, p) ↦
        rw (on, p)
          (
            (
              segment-Lacks c f _ ds,
              segment-NoQuery c f _ ds,
              segment-ne-nil c f _,
              is_segment-segment c f _ given ds,
            ),
            tt,
          )
  ]

  pub read_segments-carrier :
      (into : ServiceEndpoint)
      → port_of c into ≡ []
      → (more : List Text)
      → read_segments into (carrier_segments c e ++ more)
        ≡ read_segments (keep_carrier c e into) more
  unfolding read_segments
  read_segments-carrier into free more = elim carrier-cases [
    | inl off ↦ rw off
    | inr (f, on, given, ds, k, p) ↦ rw (on, p, read_segment-segment c f _ into ds, free, k)
  ]

-- An authority and the segments behind it hold no second `://`.
before_scheme_end-path_text :
    (auth : Text) (ss : List Text)
    → Lacks b'/' auth
    → All IsPart ss
    → before_scheme_end (auth ++ path_text ss) ≡ auth ++ path_text ss
before_scheme_end-path_text auth [] h _ = rw append-nil (before_scheme_end_of_Lacks auth h)
before_scheme_end-path_text auth ([] ∷ ss) h (p, ps) = absurd (p.2 refl)
before_scheme_end-path_text auth ((c ∷ s) ∷ ss) h (p, ps) =
    before_scheme_end-append auth c (s ++ path_text ss) h p.0.0
    ∙ ap (λ t. auth ++ b'/' ∷ t) (before_scheme_end-path_text (c ∷ s) ss p.0 ps)

split-path_text :
    (auth : Text) (ss : List Text)
    → Lacks b'/' auth
    → All IsPart ss
    → split b'/' (auth ++ path_text ss) ≡ auth ∷ ss
split-path_text auth [] h _ = rw append-nil (split_of_Lacks b'/' auth h)
split-path_text auth (s ∷ ss) h (p, ps) =
    split-append b'/' auth (s ++ path_text ss) h ∙ ap (◌∷◌ auth) (split-path_text s ss p.0 ps)

path_text-NoQuery : (ss : List Text) → All IsPart ss → NoQuery (path_text ss)
path_text-NoQuery [] _ = tt
path_text-NoQuery (s ∷ ss) (p, ps) =
    (refl, All-append _ s (path_text ss) p.1 (path_text-NoQuery ss ps))

-- A scheme with its `://`: the text behind it is what `split("://")[1]` looks at.
pub record IsScheme (scheme : Text) : Type 0 where
  pub behind : (rest : Text) → after_scheme (scheme ++ rest) ≡ some (before_scheme_end rest)
  pub no_query : NoQuery scheme

-- The segments of a URL with a query.
pub path_segments-scheme :
    (scheme auth q : Text) (ss : List Text)
    → IsScheme scheme
    → Lacks b'/' auth
    → NoQuery auth
    → All IsPart ss
    → path_segments (scheme ++ ((auth ++ path_text ss) ++ b'?' ∷ q)) ≡ ss
unfolding path_segments
path_segments-scheme scheme auth q ss known h n ps =
    let body = auth ++ path_text ss in
    let no_query : NoQuery (scheme ++ body) =
      All-append _ scheme body known.no_query
        (All-append _ auth (path_text ss) n (path_text-NoQuery ss ps)) in
    ap (λ t. segments_behind (after_scheme (before_query t)))
      (sym (append_assoc scheme body (b'?' ∷ q)))
    ∙ ap (λ t. segments_behind (after_scheme t)) (before_query-append (scheme ++ body) q no_query)
    ∙ ap segments_behind (known.behind body)
    ∙ ap (λ t. drop 1 (split b'/' t)) (before_scheme_end-path_text auth ss h ps)
    ∙ ap (drop 1) (split-path_text auth ss h ps)

-- Every part passes the test of the carrier path.
pub no_bad_part : (ss : List Text) → All IsPart ss → any (λ s. not (is_segment s)) ss ≡ false
no_bad_part [] _ = refl
no_bad_part (s ∷ ss) (p, ps) = rw (p.3) (no_bad_part ss ps)
