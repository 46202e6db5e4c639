-- ===== src/Portal/Path/User.antt =====
-- The user part of an authority, in front of the host.
use nowhere_dash.Base.{
  Bool, true, false, [], ◌∷◌, ◌++◌, Text, codes, text_or, starts_with, Lacks, All, All-append, ◌≡◌,
  refl, arith,
}
use nowhere_dash.Portal.Platform.{Platform}
use nowhere_dash.Portal.Uri.{is_scalar, encode_component}
use nowhere_dash.Portal.Uri.Safe.{IsComponent, encode_component-IsComponent}
use nowhere_dash.Portal.Endpoint.{normalize_host, format_host}
use nowhere_dash.Portal.Endpoint.Valid.{IsHost}
use nowhere_dash.Portal.Path.Texts.{NoQuery}
use nowhere_dash.Portal.Path.Host.{shown-Lacks, shown-NoQuery}

-- `${encodeComponent(key)}@`.
abbrev pub user_part : Text → Text
user_part k = encode_component k ++ b'@' ∷ []

IsComponent-Lacks : (s : Text) → IsComponent s → Lacks b'/' s
IsComponent-Lacks [] _ = tt
IsComponent-Lacks (c ∷ s) (h, hs) = (ground arith, IsComponent-Lacks s hs)

IsComponent-Lacks_at : (s : Text) → IsComponent s → Lacks b'@' s
IsComponent-Lacks_at [] _ = tt
IsComponent-Lacks_at (c ∷ s) (h, hs) = (ground arith, IsComponent-Lacks_at s hs)

IsComponent-NoQuery : (s : Text) → IsComponent s → NoQuery s
IsComponent-NoQuery [] _ = tt
IsComponent-NoQuery (c ∷ s) (h, hs) = (ground arith, IsComponent-NoQuery s hs)

IsComponent-first : (s : Text) → IsComponent s → starts_with s (codes ":") ≡ false
unfolding starts_with
IsComponent-first [] _ = refl
IsComponent-first (c ∷ s) (h, hs) = ground arith

module _ (k : Text) (scalars : All (λ c. is_scalar c ≡ true) k) where
  pub encode_component-Lacks_at : Lacks b'@' (encode_component k)
  encode_component-Lacks_at = IsComponent-Lacks_at _ (encode_component-IsComponent k scalars)

  pub encode_component-first : starts_with (encode_component k) (codes ":") ≡ false
  encode_component-first = IsComponent-first _ (encode_component-IsComponent k scalars)

  module _ (web : Platform) (allow : Bool) (host : Text)
      (valid : IsHost web allow (normalize_host web host)) where
    pub user_part-Lacks : Lacks b'/' (user_part k ++ format_host web (text_or host (codes "*")))
    user_part-Lacks =
        All-append _ (user_part k) _
          (All-append _ (encode_component k) _
            (IsComponent-Lacks _ (encode_component-IsComponent k scalars)) (omega arith, tt))
          (shown-Lacks web allow host valid)

    pub user_part-NoQuery : NoQuery (user_part k ++ format_host web (text_or host (codes "*")))
    user_part-NoQuery =
        All-append _ (user_part k) _
          (All-append _ (encode_component k) _
            (IsComponent-NoQuery _ (encode_component-IsComponent k scalars)) (refl, tt))
          (shown-NoQuery web allow host valid)
