-- ===== src/Subscription/Kept.antt =====
-- Theorems on each operation of the subscription editor and the order of its nodes.
use mathlib.Core.List.{filter_map, Perm, append-nil}
use mathlib.Core.List.Perm
use nowhere_dash.Base.{
  or_parts, trim_start, ℕ, Bool, true, false, not, ◌||◌, List, [], ◌∷◌, Option, none, some, ltb,
  ◌==◌, Text, truthy, trim, is_member, get_elem?, any, map, length, ◌≡◌, refl, arith, inl, inr,
  Bool-cases, All,
}
use nowhere_dash.Base.Trims.{trim-trim}
use nowhere_dash.Portal.Uri.{is_scalar, byte_length}
use nowhere_dash.Subscription.Uris.{
  inspect_external_uris, inspect_lines, inspect_line, split_lines, replace_node_name,
}
use nowhere_dash.Subscription.Form.{
  Node, portal, url, Subscription, Form, Target, tunnel, external, Editor, Web, uris,
  default_node_order, to_form_state, portal_of, url_of, find_key, same_key,
}
use nowhere_dash.Subscription.Import.{import_ids}
use nowhere_dash.Subscription.Edit.{refuses_urls, import_urls, handle_drag_end}
use nowhere_dash.Subscription.Save.{save_subscription, submit, saved}
use nowhere_dash.Subscription.Rename.{
  rename_portal, is_taken, save_external, save_target, save_node_name,
}
use nowhere_dash.Subscription.Lines.{IsLine, inspect-values, lines_of-IsLine}
use nowhere_dash.Subscription.Names.{replace_node_name-IsLine}
use nowhere_dash.Subscription.Distinct.{distinct, All-get_elem?}
use nowhere_dash.Subscription.Unique.{inspect-distinct}
use nowhere_dash.Subscription.Nodes.{
  tunnels_in, urls_in, filter_map-append, tunnels_in-portals, urls_in-portals, tunnels_in-urls,
  urls_in-urls, find_key-lt,
}
use nowhere_dash.Subscription.Order.{
  IsOrdered, Rearranges, read_back, lines-IsLine, add_portals-IsOrdered, add_urls-IsOrdered,
  move_nodes-IsOrdered, rename_external-IsOrdered,
}

-- A subscription as the server keeps it: its external nodes are texts for nodes, each once, and an
-- order of the right length arranges its nodes.
pub record IsStored (s : Subscription) : Type 0 where
  pub lines : All IsLine s.external_uris
  pub once : distinct s.external_uris ≡ true
  pub tunnels : Perm (tunnels_in s.node_order) s.tunnel_ids
  pub urls : Perm (urls_in s.node_order) s.external_uris

-- Only the nodes, their order and the text of the external ones matter.
pub keeps :
    (f g : Form)
    → f.node_order ≡ g.node_order
    → f.tunnel_ids ≡ g.tunnel_ids
    → f.external_uri_text ≡ g.external_uri_text
    → IsOrdered g
    → IsOrdered f
keeps f g p q r o = record {
  tunnels = rw (p, q) o.tunnels;
  urls = rw (p, r) o.urls;
  once = rw r o.once;
}

default-arranged :
    (s : Subscription)
    → (tunnels_in (default_node_order s) ≡ s.tunnel_ids)
      × (urls_in (default_node_order s) ≡ s.external_uris)
unfolding default_node_order
default-arranged s = (
  rw
      (
        filter_map-append portal_of (map portal s.tunnel_ids) (map url s.external_uris),
        tunnels_in-portals s.tunnel_ids,
        tunnels_in-urls s.external_uris,
      )
      (append-nil s.tunnel_ids),
  rw (
    filter_map-append url_of (map portal s.tunnel_ids) (map url s.external_uris),
    urls_in-portals s.tunnel_ids,
    urls_in-urls s.external_uris,
  ),
)

pub open-IsOrdered :
    (web : Web) (s : Subscription) → IsStored s → IsOrdered (to_form_state web (some s))
unfolding to_form_state
open-IsOrdered web s k =
    let read = read_back s.external_uris k.lines in
    elim (Bool-cases (length s.node_order == length (default_node_order s))) [
      | inl e ↦ record {
        tunnels = rw e k.tunnels;
        urls = rw (e, read) k.urls;
        once = rw read k.once;
      }
      | inr e ↦
          let (tunnels, urls) = default-arranged s in
          record {
            tunnels = rw (e, tunnels) (Perm.refl s.tunnel_ids);
            urls = rw (e, read, urls) (Perm.refl s.external_uris);
            once = rw read k.once;
          }
    ]

-- A form with no nodes.
pub new-IsOrdered : (web : Web) → IsOrdered (to_form_state web none)
unfolding to_form_state filter_map inspect_external_uris inspect_lines split_lines inspect_line trim
    trim_start
new-IsOrdered web = record { tunnels = Perm.refl []; urls = Perm.refl []; once = refl }

pub import_ids-IsOrdered :
    (ids : List ℕ) (e : Editor) → IsOrdered e.form → IsOrdered (import_ids ids e).form
unfolding import_ids
import_ids-IsOrdered [] e o = o
import_ids-IsOrdered (id ∷ ids) e o = add_portals-IsOrdered (id ∷ ids) e.form o

-- A draft that is not refused has no issue and no node that is already there.
accepted_urls :
    (e : Editor)
    → refuses_urls e ≡ false
    → (ltb 0 (length (inspect_external_uris e.url_draft).issues) ≡ false)
      × (any (λ uri. is_member uri (uris e.form).values) (inspect_external_uris e.url_draft).values
          ≡ false)
unfolding refuses_urls
accepted_urls e h =
    let (a, b, c, d) =
      or_parts (length (inspect_external_uris e.url_draft).values == 0)
        (ltb 0 (length (inspect_external_uris e.url_draft).issues))
        (any (λ uri. is_member uri (uris e.form).values) (inspect_external_uris e.url_draft).values)
        (ltb 500 _) h in
    (b, c)

pub import_urls-IsOrdered : (e : Editor) → IsOrdered e.form → IsOrdered (import_urls e).form
unfolding import_urls
import_urls-IsOrdered e o = elim (Bool-cases (refuses_urls e)) [
  | inl h ↦ rw h o
  | inr h ↦
      let (clean, new) = accepted_urls e h in
      rw h (
        add_urls-IsOrdered (inspect_external_uris e.url_draft).values e.form
          (rw (inspect-values e.url_draft) (lines_of-IsLine e.url_draft))
          (inspect-distinct e.url_draft clean) new o)
]

pub handle_drag_end-IsOrdered :
    (web : Web) (active : Node) (over : Option Node) (e : Editor)
    → Rearranges web
    → IsOrdered e.form
    → IsOrdered (handle_drag_end web active over e).form
unfolding handle_drag_end
handle_drag_end-IsOrdered web active none e r o = o
handle_drag_end-IsOrdered web active (some over) e r o = elim (Bool-cases (same_key active over)) [
  | inl h ↦ rw h o
  | inr h ↦ rw h (
      move_nodes-IsOrdered web (find_key active e.form.node_order) (find_key over e.form.node_order)
        e.form (find_key-lt active e.form.node_order) (find_key-lt over e.form.node_order) r o)
]

save_external-IsOrdered :
    (index : ℕ) (name : Text) (previous : Option Text) (e : Editor)
    → get_elem? (uris e.form).values index ≡ previous
    → truthy (trim name) ≡ true
    → All (λ c. is_scalar c ≡ true) (trim name)
    → IsOrdered e.form
    → IsOrdered (save_external index name previous e).form
unfolding save_external
save_external-IsOrdered index name none e p g h o = o
save_external-IsOrdered index name (some previous) e p g h o =
    let line = All-get_elem? IsLine (uris e.form).values index previous (lines-IsLine e.form) p in
    elim (Bool-cases (is_taken (uris e.form).values index (replace_node_name previous name))) [
      | inl t ↦ rw t o
      | inr t ↦ rw t (
          rename_external-IsOrdered index previous (replace_node_name previous name) e.form p t
            (replace_node_name-IsLine previous name line g h) o)
    ]

save_target-IsOrdered :
    (target : Option Target) (name : Text) (e : Editor)
    → truthy (trim name) ≡ true
    → All (λ c. is_scalar c ≡ true) (trim name)
    → IsOrdered e.form
    → IsOrdered (save_target target name e).form
unfolding save_target rename_portal
save_target-IsOrdered none name e g h o = o
save_target-IsOrdered (some (tunnel id)) name e g h o = keeps _ e.form refl refl refl o
save_target-IsOrdered (some (external index)) name e g h o =
    save_external-IsOrdered index name (get_elem? (uris e.form).values index) e refl g h o

pub save_node_name-IsOrdered :
    (e : Editor)
    → All (λ c. is_scalar c ≡ true) (trim e.name_draft)
    → IsOrdered e.form
    → IsOrdered (save_node_name e).form
unfolding save_node_name
save_node_name-IsOrdered e h o =
    elim (Bool-cases
      (not (truthy (trim e.name_draft)) || ltb 255 (byte_length (trim e.name_draft)))) [
        | inl t ↦ rw t o
        | inr t ↦ rw t (
            save_target-IsOrdered e.name_target (trim e.name_draft)
              (record e { name_attempted = true; name_duplicate = false })
              (rw (trim-trim e.name_draft) (named _ _ t)) (rw (trim-trim e.name_draft) h) o)
      ]
  where
    named : (a b : Bool) → (not a || b) ≡ false → a ≡ true
    named a b h = ground arith

pub submit-form : (web : Web) (e : Editor) → (submit web e).0.form ≡ e.form
unfolding submit save_subscription
submit-form web e = ground arith

pub saved-form : (failure : Option Text) (e : Editor) → (saved failure e).0.form ≡ e.form
unfolding saved
saved-form none e = refl
saved-form (some message) e = refl
