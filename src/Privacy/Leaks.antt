-- ===== src/Privacy/Leaks.antt =====
-- Theorems on `maskIPv6`.
use nowhere_dash.Base.{
  ℕ, zero, suc, true, false, [], ◌∷◌, ◌++◌, none, Text, codes, length, drop, ◌≡◌, refl, arith,
  starts_with, ◌≤◌, all,
}
use nowhere_dash.Privacy.{is_hex, hex_run, first_groups, mask_ipv6}

hex_run_stop :
    (n : ℕ) (s rest : Text) → all is_hex s ≡ true → length s ≤ n → hex_run n (s ++ b':' ∷ rest) ≡ s
unfolding hex_run
hex_run_stop zero [] rest h k = refl
hex_run_stop zero (c ∷ s) rest h k = absurd (omega arith)
hex_run_stop (suc n) [] rest h k = refl
hex_run_stop (suc n) (c ∷ s) rest h k = ground (arith, hex_run_stop n s rest)

drop-append : (s t : Text) → drop (length s) (s ++ t) ≡ t
drop-append [] t = refl
drop-append (c ∷ s) t = drop-append s t

starts_hex : (c : ℕ) (s : Text) → is_hex c ≡ true → starts_with (c ∷ s) (codes "[") ≡ false
unfolding starts_with
starts_hex c s h = ground arith

first_groups_compressed :
    (s rest : Text)
    → all is_hex s ≡ true
    → length s ≤ 4
    → first_groups (s ++ b':' ∷ b':' ∷ rest) ≡ none
unfolding first_groups
first_groups_compressed s rest h k =
    rw (hex_run_stop 4 s (b':' ∷ rest) h k, drop-append s (b':' ∷ b':' ∷ rest))
      (unfold hex_run in ground arith)

-- `maskIPv6` returns an address unmasked when its first group, of one to four hexadecimal digits,
-- is followed by `::`, as in `fe80::1` and `2001::7334`, whatever follows.
pub mask_ipv6_compressed :
    (c : ℕ) (s rest : Text)
    → is_hex c ≡ true
    → all is_hex s ≡ true
    → length s ≤ 3
    → mask_ipv6 (c ∷ s ++ b':' ∷ b':' ∷ rest) ≡ c ∷ s ++ b':' ∷ b':' ∷ rest
unfolding mask_ipv6
mask_ipv6_compressed c s rest h hs k = ground (
  arith,
  starts_hex c (s ++ b':' ∷ b':' ∷ rest) h,
  first_groups_compressed (c ∷ s) rest (ground arith) (omega arith),
)
