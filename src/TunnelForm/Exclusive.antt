-- ===== src/TunnelForm/Exclusive.antt =====
-- Theorems on the inputs for the SOCKS address and the next tunnel.
use mathlib.Core.Bool.{false≢true}
use nowhere_dash.Base.{
  ℕ, true, false, List, [], Text, trim, trim_start, ◌≡◌, refl, sym, ◌∙◌, ◌&&◌, inl, inr, Bool-cases,
}
use nowhere_dash.TunnelForm.Fields.{
  PortalForm, Web, new_form, is_configured, type_socks, type_next, update_up, update_down,
  reset_mux, is_udp,
}

-- At most one of the two is configured.
abbrev pub IsExclusive : Web → PortalForm → Type 0
IsExclusive web f = is_configured web f.socks ≡ true → is_configured web f.next ≡ false

-- What an input does; `changed` is an input for another field.
pub data Step (web : Web) (f : PortalForm) : PortalForm → Type 0 where
  socks_typed : (value : Text) → Step web f (type_socks web value f)
  next_typed : (value : Text) → Step web f (type_next web value f)
  up_chosen : (value : Text) → Step web f (update_up value f)
  down_chosen : (value : Text) → Step web f (update_down value f)
  changed : (g : PortalForm) → g.socks ≡ f.socks → g.next ≡ f.next → Step web f g

pub data Reach (web : Web) (f : PortalForm) : PortalForm → Type 0 where
  here : Reach web f f
  next : {g h : PortalForm} → Reach web f g → Step web g h → Reach web f h

unconfigured : (web : Web) → is_configured web [] ≡ false
unfolding is_configured trim trim_start
unconfigured web = refl

type_socks-IsExclusive :
    (web : Web) (value : Text) (f : PortalForm)
    → IsExclusive web f
    → IsExclusive web (type_socks web value f)
unfolding type_socks
type_socks-IsExclusive web value f h k = rw k (unconfigured web)

type_next-IsExclusive :
    (web : Web) (value : Text) (f : PortalForm)
    → IsExclusive web f
    → IsExclusive web (type_next web value f)
unfolding type_next
type_next-IsExclusive web value f h = elim (Bool-cases (is_configured web value)) [
  | inl c ↦ λ k. absurd (false≢true (sym (unconfigured web) ∙ rw c at k))
  | inr c ↦ λ k. c
]

keeps :
    (web : Web) (f g : PortalForm)
    → g.socks ≡ f.socks
    → g.next ≡ f.next
    → IsExclusive web f
    → IsExclusive web g
keeps web f g p q h = rw (p, q) h

reset_mux-keeps : (f : PortalForm) → ((reset_mux f).socks ≡ f.socks) × ((reset_mux f).next ≡ f.next)
reset_mux-keeps f = elim (Bool-cases (is_udp f.up && is_udp f.down)) [
  | inl u ↦ rw u (refl, refl)
  | inr u ↦ rw u (refl, refl)
]

new_form-IsExclusive :
    (web : Web) (nodes : List Text) (value : ℕ) (bytes : List ℕ)
    → IsExclusive web (new_form nodes value bytes)
unfolding new_form
new_form-IsExclusive web nodes value bytes k = unconfigured web

Step-IsExclusive :
    (web : Web) {f g : PortalForm} → Step web f g → IsExclusive web f → IsExclusive web g
unfolding update_up update_down
Step-IsExclusive web {f} (socks_typed value) h = type_socks-IsExclusive web value f h
Step-IsExclusive web {f} (next_typed value) h = type_next-IsExclusive web value f h
Step-IsExclusive web {f} (up_chosen value) h =
    let (p, q) = reset_mux-keeps (record f { up = value }) in
    keeps web f (reset_mux (record f { up = value })) p q h
Step-IsExclusive web {f} (down_chosen value) h =
    let (p, q) = reset_mux-keeps (record f { down = value }) in
    keeps web f (reset_mux (record f { down = value })) p q h
Step-IsExclusive web {f} (changed g p q) h = keeps web f g p q h

-- However a form for a new tunnel is filled in, a SOCKS address and a next tunnel are never both
-- configured.
pub Reach-IsExclusive :
    (web : Web) (nodes : List Text) (value : ℕ) (bytes : List ℕ) {f : PortalForm}
    → Reach web (new_form nodes value bytes) f
    → IsExclusive web f
Reach-IsExclusive web nodes value bytes here = new_form-IsExclusive web nodes value bytes
Reach-IsExclusive web nodes value bytes (next r step) =
    Step-IsExclusive web step (Reach-IsExclusive web nodes value bytes r)
