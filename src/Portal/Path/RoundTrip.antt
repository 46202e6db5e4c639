-- ===== src/Portal/Path/RoundTrip.antt =====
-- Theorems on `parseServiceUrl` of what `formatServiceEndpoint` writes.
use mathlib.Core.Path.{ap₂}
use mathlib.Core.List.{append_assoc, append-nil}
use nowhere_dash.Base.{
  Bool, true, false, not, List, [], ◌∷◌, ◌++◌, some, Text, codes, any, Lacks, All, All-append, ◌≡◌,
  ◌≢◌, refl, ◌∙◌, sym, ap, arith, inl, inr, text_or,
}
use nowhere_dash.Portal.Platform.{Platform, Url, tcp, udp, ok}
use nowhere_dash.Portal.Endpoint.{
  ServiceEndpoint, carrier_path, format_service_endpoint, format_host, is_compact, normalize_host,
  validate_service_endpoint,
}
use nowhere_dash.Portal.Endpoint.Valid.{IsValid, validate_service_endpoint_iff}
use nowhere_dash.Portal.Parse.{
  is_segment, read_segments, canonical_digits, read_path, no_carriers, name_empty_host,
  path_segments, parse_service_url,
}
use nowhere_dash.Portal.Path.Texts.{NoQuery}
use nowhere_dash.Portal.Path.Segments.{Digits-Lacks, Digits-NoQuery}
use nowhere_dash.Portal.Path.Carriers.{
  IsScheme, carrier_segments, path_text, IsPart, keep_carrier, carrier_path-path_text,
  carrier_segments-IsPart, read_segments-carrier, path_segments-scheme, no_bad_part,
}
use nowhere_dash.Portal.Path.Kept.{
  read_back, keep-read_back, compact-read_back, kept-IsCarrier, kept_port-ne-nil,
}

-- The host as `formatServiceEndpoint` writes it.
abbrev pub shown_host : Platform → ServiceEndpoint → Text
shown_host web e = format_host web (text_or e.host (codes "*"))

path_text-append : (ss ts : List Text) → path_text (ss ++ ts) ≡ path_text ss ++ path_text ts
path_text-append [] ts = refl
path_text-append (s ∷ ss) ts = rw (path_text-append ss ts, append_assoc)

module _ (web : Platform) (allow : Bool) where
  parse_parts :
      (raw : Text) (ss : List Text) (url : Url) (e : ServiceEndpoint)
      → name_empty_host raw ≡ raw
      → path_segments raw ≡ ss
      → any (λ s. not (is_segment s)) ss ≡ false
      → web.new_url raw ≡ some url
      → read_path (normalize_host web url.hostname) url ss ≡ ok e
      → validate_service_endpoint web e allow ≡ ok tt
      → parse_service_url web raw allow ≡ ok (url, e)
  unfolding parse_service_url
  parse_parts raw ss url e named path good accepted read valid =
      rw (named, path, good, accepted, read, valid)

  read_back-IsValid :
      (h : Text) (e : ServiceEndpoint)
      → normalize_host web h ≡ normalize_host web e.host
      → IsValid web allow e
      → IsValid web allow (read_back h e)
  read_back-IsValid h e same v = record {
    host_valid = rw same v.host_valid;
    has_listener = elim v.has_listener [
      | inl t ↦ inl (kept_port-ne-nil _ e.tcp_port e.tcp_family v.tcp_valid t)
      | inr u ↦ inr (kept_port-ne-nil _ e.udp_port e.udp_family v.udp_valid u)
    ];
    tcp_valid = rw same (kept-IsCarrier _ e.tcp_port e.tcp_family v.tcp_valid);
    udp_valid = rw same (kept-IsCarrier _ e.udp_port e.udp_family v.udp_valid);
  }

  read_path_on :
      (h : Text) (url : Url) (ss : List Text)
      → url.port ≡ []
      → ss ≢ []
      → read_path h url ss ≡ read_segments (no_carriers h) ss
  unfolding read_path
  read_path_on h url [] off ne = absurd (ne refl)
  read_path_on h url (s ∷ ss) off ne = rw off

module _ (web : Platform) (allow : Bool) (e : ServiceEndpoint) (valid : IsValid web allow e) where
  segments_of : List Text
  segments_of = carrier_segments tcp e ++ carrier_segments udp e

  segments_of-IsPart : All IsPart segments_of
  unfolding segments_of
  segments_of-IsPart =
      All-append _ _ _ (carrier_segments-IsPart _ tcp e valid.tcp_valid)
        (carrier_segments-IsPart _ udp e valid.udp_valid)

  segments_of-ne-nil : segments_of ≢ []
  unfolding segments_of
  segments_of-ne-nil = elim valid.has_listener [ inl t ↦ ground arith | inr u ↦ ground arith ]

  path_of-segments : carrier_path tcp e ++ carrier_path udp e ≡ path_text segments_of
  unfolding segments_of
  path_of-segments =
      ap₂ ◌++◌ (carrier_path-path_text _ tcp e valid.tcp_valid)
        (carrier_path-path_text _ udp e valid.udp_valid)
      ∙ sym (path_text-append (carrier_segments tcp e) (carrier_segments udp e))

  format-loose :
      is_compact e ≡ false
      → format_service_endpoint web e ≡ shown_host web e ++ path_text segments_of
  unfolding format_service_endpoint
  format-loose loose = rw (loose, append_assoc) (ap (◌++◌ (shown_host web e)) path_of-segments)

  format-tight :
      is_compact e ≡ true → format_service_endpoint web e ≡ shown_host web e ++ b':' ∷ e.tcp_port
  unfolding format_service_endpoint
  format-tight tight = rw (tight, append_assoc)

  read_segments_of : (h : Text) → read_segments (no_carriers h) segments_of ≡ ok (read_back h e)
  unfolding segments_of
  read_segments_of h =
      read_segments-carrier _ tcp e valid.tcp_valid (no_carriers h) refl (carrier_segments udp e)
      ∙ ap (read_segments (keep_carrier tcp e (no_carriers h))) (sym (append-nil _))
      ∙ read_segments-carrier _ udp e valid.udp_valid (keep_carrier tcp e (no_carriers h))
          (ground arith) []
      ∙ unfold read_segments in ap ok (keep-read_back h e)

  module _ (scheme front q : Text) (url : Url) (known : IsScheme scheme)
      (no_slash : Lacks b'/' (front ++ shown_host web e))
      (no_query : NoQuery (front ++ shown_host web e))
      (accepted : web.new_url (scheme ++ ((front ++ format_service_endpoint web e) ++ b'?' ∷ q))
        ≡ some url)
      (named : name_empty_host (scheme ++ ((front ++ format_service_endpoint web e) ++ b'?' ∷ q))
        ≡ scheme ++ ((front ++ format_service_endpoint web e) ++ b'?' ∷ q))
      (same_host : normalize_host web (normalize_host web url.hostname)
        ≡ normalize_host web e.host) where
    pub parse-carriers :
        is_compact e ≡ false
        → url.port ≡ []
        → parse_service_url web
            (scheme ++ ((front ++ format_service_endpoint web e) ++ b'?' ∷ q))
            allow
          ≡ ok (url, read_back (normalize_host web url.hostname) e)
    parse-carriers loose port =
        let h = normalize_host web url.hostname in
        let body : front ++ format_service_endpoint web e
            ≡ (front ++ shown_host web e) ++ path_text segments_of =
          ap (◌++◌ front) (format-loose loose) ∙ sym (append_assoc front (shown_host web e) _) in
        parse_parts web allow _ segments_of url (read_back h e) named
          (ap (λ t. path_segments (scheme ++ (t ++ b'?' ∷ q))) body
            ∙ path_segments-scheme scheme (front ++ shown_host web e) q segments_of known no_slash
                no_query segments_of-IsPart)
          (no_bad_part segments_of segments_of-IsPart) accepted
          (read_path_on web allow h url segments_of port segments_of-ne-nil ∙ read_segments_of h)
          ((validate_service_endpoint_iff web (read_back h e) allow).1
            (read_back-IsValid web allow h e same_host valid))

    pub parse-compact :
        is_compact e ≡ true
        → url.port ≡ canonical_digits e.tcp_port
        → parse_service_url web
            (scheme ++ ((front ++ format_service_endpoint web e) ++ b'?' ∷ q))
            allow
          ≡ ok (url, read_back (normalize_host web url.hostname) e)
    parse-compact tight port =
        let h = normalize_host web url.hostname in
        let auth = (front ++ shown_host web e) ++ b':' ∷ e.tcp_port in
        let v = valid.tcp_valid (ground arith) in
        let body : front ++ format_service_endpoint web e ≡ auth ++ path_text [] =
          ap (◌++◌ front) (format-tight tight)
          ∙ sym (append_assoc front (shown_host web e) _)
          ∙ sym (append-nil auth) in
        parse_parts web allow _ [] url (read_back h e) named
          (ap (λ t. path_segments (scheme ++ (t ++ b'?' ∷ q))) body
            ∙ path_segments-scheme scheme auth q [] known
                (All-append _ (front ++ shown_host web e) _ no_slash
                  (omega arith, Digits-Lacks b'/' e.tcp_port (inr refl) v.digits))
                (All-append _ (front ++ shown_host web e) _ no_query
                  (refl, Digits-NoQuery e.tcp_port v.digits))
                tt)
          refl accepted (unfold read_path in ap ok (compact-read_back h e url.port tight port))
          ((validate_service_endpoint_iff web (read_back h e) allow).1
            (read_back-IsValid web allow h e same_host valid))
