-- ===== src/Portal/Build/Chain.antt =====
-- The options of `buildPortalUrl` that belong to `next`.
use nowhere_dash.Base.{
  true, false, ◌&&◌, List, [], ◌∷◌, none, some, if◌then◌else◌, Text, codes, text_eq, text_eq_iff,
  is_member, All, ◌≡◌, ◌∙◌, refl, sym, ap, arith, inl, inr, Bool-cases,
}
use nowhere_dash.Portal.Endpoint.{ServiceEndpoint}
use nowhere_dash.Portal.Query.{Entries, get, set, delete, next_keys}
use nowhere_dash.Portal.Query.Maps.{get-set_other, get-set_same, get-delete_other, get-delete_same}
use nowhere_dash.Portal.Tunnel.{Tunnel, nullish, falsy, carrier_name, both_udp}
use nowhere_dash.Portal.Build.{delete_all, set_carriers, set_certificate}

get-delete_all-none :
    (j : Text) (ks : List Text) (m : Entries) → get j m ≡ none → get j (delete_all ks m) ≡ none
unfolding delete_all
get-delete_all-none j [] m h = h
get-delete_all-none j (k ∷ ks) m h =
    get-delete_all-none j ks (delete k m)
      (ground (arith, get-delete_same k m, get-delete_other j k m, text_eq_iff k j))

get-delete_all :
    (j : Text) (ks : List Text) (m : Entries)
    → is_member j ks ≡ true
    → get j (delete_all ks m) ≡ none
unfolding delete_all is_member
get-delete_all j [] m h = cc
get-delete_all j (k ∷ ks) m h = elim (Bool-cases (text_eq j k)) [
  | inl same ↦
      get-delete_all-none j ks (delete k m) (ground (arith, get-delete_same k m, text_eq_iff j k))
  | inr other ↦ get-delete_all j ks (delete k m) (ground arith)
]

-- No key that belongs to `next`.
abbrev pub HasNoNextKey : Entries → Type 0
HasNoNextKey m = All (λ k. get k m ≡ none) next_keys

pub delete_all-HasNoNextKey : (m : Entries) → HasNoNextKey (delete_all next_keys m)
unfolding is_member text_eq
delete_all-HasNoNextKey m =
    let gone = λ (k : Text) (h : is_member k next_keys ≡ true). get-delete_all k next_keys m h in
    (
      gone (codes "up") refl,
      (
        gone (codes "down") refl,
        (gone (codes "mux") refl, (gone (codes "sni") refl, (gone (codes "pin") refl, tt))),
      ),
    )

abbrev chained_keys : List Text
chained_keys = codes "next" ∷ next_keys

-- The same `next`, and the same of what belongs to it.
abbrev pub SameNext : Entries → Entries → Type 0
SameNext m n = (j : Text) → is_member j chained_keys ≡ true → get j m ≡ get j n

apart :
    (k : Text) (js : List Text)
    → is_member k js ≡ false
    → (j : Text) → is_member j js ≡ true
    → text_eq k j ≡ false
unfolding is_member
apart k [] h j member = cc
apart k (i ∷ js) h j member =
    ground (arith, text_eq_iff j i, apart k js (ground arith) j, text_eq_iff k i, text_eq_iff k j)

set-SameNext :
    (k v : Text) (m : Entries) → is_member k chained_keys ≡ false → SameNext (set k v m) m
set-SameNext k v m h j member = get-set_other j k v m (apart k chained_keys h j member)

set_certificate-SameNext : (t : Tunnel) (m : Entries) → SameNext (set_certificate t m) m
unfolding set_certificate is_member text_eq
set_certificate-SameNext t m j member =
    elim (Bool-cases (text_eq (nullish t.tls_mode []) (codes "2"))) [
      | inr off ↦ rw off refl
      | inl on ↦ rw on (
          set-SameNext (codes "key") (nullish t.key_path []) _ refl j member
          ∙ set-SameNext (codes "crt") (nullish t.cert_path []) m refl j member)
    ]

pub finish-SameNext :
    (t : Tunnel) (level : Text) (m : Entries)
    → SameNext (set (codes "log") level (set_certificate t m)) m
unfolding is_member text_eq
finish-SameNext t level m j member =
    set-SameNext (codes "log") level _ refl j member ∙ set_certificate-SameNext t m j member

pub some_inj : {m n : Entries} → some m ≡ some n → m ≡ n
some_inj e = cc

-- What the options of a tunnel with a `next` say, `e` being the endpoint of that `next`.
pub record IsChained (t : Tunnel) (e : ServiceEndpoint) (query : Entries) : Type 0 where
  pub up_given : get (codes "up") query ≡ some (falsy t.up (carrier_name e))
  pub down_given : get (codes "down") query ≡ some (falsy t.down (carrier_name e))
  pub mux_given :
      get (codes "mux") query ≡ some (if both_udp query then codes "0" else falsy t.mux (codes "0"))

both_udp_of :
    (u d : Text) (m : Entries)
    → get (codes "up") m ≡ some u
    → get (codes "down") m ≡ some d
    → both_udp m ≡ (text_eq u (codes "udp") && text_eq d (codes "udp"))
both_udp_of u d m hu hd = ground arith

pub set_carriers-IsChained :
    (t : Tunnel) (e : ServiceEndpoint) (m : Entries)
    → IsChained t e (set_carriers t (carrier_name e) m)
unfolding set_carriers text_eq
set_carriers-IsChained t e m =
    let u = falsy t.up (carrier_name e) in
    let d = falsy t.down (carrier_name e) in
    let m1 = set (codes "up") u m in
    let m2 = set (codes "down") d m1 in
    let x = if both_udp m2 then codes "0" else falsy t.mux (codes "0") in
    let up2 : get (codes "up") m2 ≡ some u =
      get-set_other (codes "up") (codes "down") d m1 refl ∙ get-set_same (codes "up") u m in
    let down2 : get (codes "down") m2 ≡ some d = get-set_same (codes "down") d m1 in
    let up3 : get (codes "up") (set (codes "mux") x m2) ≡ some u =
      get-set_other (codes "up") (codes "mux") x m2 refl ∙ up2 in
    let down3 : get (codes "down") (set (codes "mux") x m2) ≡ some d =
      get-set_other (codes "down") (codes "mux") x m2 refl ∙ down2 in
    record {
      up_given = up3;
      down_given = down3;
      mux_given =
          get-set_same (codes "mux") x m2
          ∙ ap (λ b. some (if b then codes "0" else falsy t.mux (codes "0")))
              (both_udp_of u d m2 up2 down2 ∙ sym (both_udp_of u d _ up3 down3));
    }

pub SameNext-IsChained :
    (t : Tunnel) (e : ServiceEndpoint) (m n : Entries)
    → SameNext m n
    → IsChained t e n
    → IsChained t e m
unfolding is_member text_eq
SameNext-IsChained t e m n same c =
    let up : get (codes "up") m ≡ some (falsy t.up (carrier_name e)) =
      same (codes "up") refl ∙ c.up_given in
    let down : get (codes "down") m ≡ some (falsy t.down (carrier_name e)) =
      same (codes "down") refl ∙ c.down_given in
    record {
      up_given = up;
      down_given = down;
      mux_given =
          same (codes "mux") refl
          ∙ c.mux_given
          ∙ ap (λ b. some (if b then codes "0" else falsy t.mux (codes "0")))
              (both_udp_of _ _ n c.up_given c.down_given ∙ sym (both_udp_of _ _ m up down));
    }

pub SameNext-HasNoNextKey : (m n : Entries) → SameNext m n → HasNoNextKey n → HasNoNextKey m
unfolding is_member text_eq
SameNext-HasNoNextKey m n same (a, (b, (c, (d, (e, _))))) = (
  same (codes "up") refl ∙ a,
  (
    same (codes "down") refl ∙ b,
    (same (codes "mux") refl ∙ c, (same (codes "sni") refl ∙ d, (same (codes "pin") refl ∙ e, tt))),
  ),
)
