-- ===== src/Privacy/Tests.antt =====
-- Runs of privacy.ts on concrete addresses, and its theorems at them.
use nowhere_dash.Base.{
  List, [], ◌∷◌, ◌++◌, Text, codes, All, Lacks, arith, ◌≡◌, refl, is_member, split, join, has_char,
  starts_with, ends_with, text_eq, true,
}
use nowhere_dash.Privacy.{
  mask_sld, mask_parts, mask_host, mask_address, mask_ipv6, suffix_length, dot_join,
}
use nowhere_dash.Privacy.Hosts.{IsSuffix, IsMasked, mask_host-IsMasked}

host_run : mask_address (codes "a.b.example.com.cn:8080") true ≡ codes "***.e******.com.cn:8080"
unfolding mask_address text_eq is_member split join has_char starts_with ends_with
    nowhere_dash.Privacy.bracket_match nowhere_dash.Privacy.cut_bracket nowhere_dash.Privacy.is_ipv6
    nowhere_dash.Privacy.cut_last nowhere_dash.Privacy.mask_hostname nowhere_dash.Privacy.is_ipv4
    nowhere_dash.Privacy.mask_host mask_parts suffix_length mask_sld
host_run = refl

quad_run : mask_address (codes "192.168.1.100:8080") true ≡ codes "192.168.***.***:8080"
unfolding mask_address text_eq is_member split join has_char starts_with ends_with
    nowhere_dash.Privacy.bracket_match nowhere_dash.Privacy.cut_bracket nowhere_dash.Privacy.is_ipv6
    nowhere_dash.Privacy.cut_last nowhere_dash.Privacy.mask_hostname nowhere_dash.Privacy.is_ipv4
    nowhere_dash.Privacy.mask_ipv4 nowhere_dash.Privacy.mask_octets
quad_run = refl

abbrev labels : List Text
labels = codes "a" ∷ codes "b" ∷ codes "example" ∷ codes "com" ∷ codes "cn" ∷ []

labels-Lacks : All (Lacks b'.') labels
labels-Lacks = omega arith

suffix_known : IsSuffix (codes "example") (codes "com" ∷ codes "cn" ∷ [])
unfolding IsSuffix is_member text_eq
suffix_known = refl

mask_host-IsMasked_example :
    (masked : Text) × (mask_host (dot_join labels)
      ≡ codes "***." ++ (masked ++ codes "." ++ dot_join (codes "com" ∷ codes "cn" ∷ [])))
    × IsMasked (codes "example") masked
mask_host-IsMasked_example =
    mask_host-IsMasked (codes "a" ∷ codes "b" ∷ []) (codes "example")
      (codes "com" ∷ codes "cn" ∷ []) labels-Lacks suffix_known
