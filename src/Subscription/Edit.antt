-- ===== src/Subscription/Edit.antt =====
-- The editor's handlers on its nodes and the submission of the form, in
-- web/src/components/subscriptions/subscription-form-modal.tsx.
use mathlib.Core.Option
use mathlib.Core.List.{filter_map}
use nowhere_dash.Base.{
  ℕ, ◌+◌, Bool, true, not, ◌&&◌, ◌||◌, List, [], ◌∷◌, ◌++◌, Option, none, some, ltb, ◌==◌,
  if◌then◌else◌, Text, codes, text_eq, text_or, is_member, trim, join, length, get_elem?, keep, mem,
  any, map,
}
use nowhere_dash.Subscription.Uris.{inspect_external_uris, external_uri_scheme, decode_node_name}
use nowhere_dash.Subscription.Form.{
  Node, portal, url, Portal, Form, tunnel, external, Row, Editor, Web, same_key, find_key, name_at,
  delete_name, remove_at, uris,
}

-- `importUrls` returns early.
unfoldable pub refuses_urls : Editor → Bool
refuses_urls e =
    let draft = inspect_external_uris e.url_draft in
    let present = (uris e.form).values in
    length draft.values == 0
    || ltb 0 (length draft.issues)
    || any (λ uri. is_member uri present) draft.values
    || ltb 500 (length present + length draft.values)

unfoldable pub add_urls : List Text → Form → Form
add_urls added f = record f {
  external_uri_text = join (codes "\n") ((uris f).values ++ added);
  node_order = f.node_order ++ map url added;
}

unfoldable pub import_urls : Editor → Editor
unfolding refuses_urls add_urls
import_urls e =
    let e' = record e { url_import_attempted = true } in
    if refuses_urls e then e' else record e' {
      form = add_urls (inspect_external_uris e.url_draft).values e.form;
      external_server_error = [];
      node_import_mode = none;
    }

-- `item.source !== "portal" || item.tunnelId !== id`.
abbrev pub is_other_portal : ℕ → Node → Bool
is_other_portal id (portal k) = not (k == id)
is_other_portal id (url uri) = true

-- `item.source !== "url" || item.uri !== removedUri`; `undefined` is `none`.
abbrev pub is_other_url : Option Text → Node → Bool
is_other_url removed (portal k) = true
is_other_url none (url uri) = true
is_other_url (some u) (url uri) = not (text_eq uri u)

unfoldable pub drop_portal : ℕ → Form → Form
unfolding delete_name
drop_portal id f = record f {
  tunnel_ids = keep (λ k. not (k == id)) f.tunnel_ids;
  tunnel_names = delete_name id f.tunnel_names;
  node_order = keep (is_other_portal id) f.node_order;
}

unfoldable pub remove_portal : ℕ → Editor → Editor
unfolding drop_portal
remove_portal id e = record e { form = drop_portal id e.form }

unfoldable pub drop_external : ℕ → Form → Form
unfolding remove_at
drop_external index f = record f {
  external_uri_text = join (codes "\n") (remove_at (uris f).values index);
  node_order = keep (is_other_url (get_elem? (uris f).values index)) f.node_order;
}

unfoldable pub remove_external : ℕ → Editor → Editor
unfolding drop_external
remove_external index e = record e { form = drop_external index e.form; external_server_error = [] }

-- The callback of `setForm` in `handleDragEnd`.
unfoldable pub move_nodes : Web → Option ℕ → Option ℕ → Form → Form
move_nodes web (some old) (some new) f = record f {
  node_order = web.array_move f.node_order old new;
}
move_nodes web _ _ f = f

unfoldable pub handle_drag_end : Web → Node → Option Node → Editor → Editor
unfolding move_nodes find_key same_key
handle_drag_end web active none e = e
handle_drag_end web active (some over) e = if same_key active over then e else record e {
  form =
      move_nodes web (find_key active e.form.node_order) (find_key over e.form.node_order) e.form;
}

-- The last index of a text, as a `Map` made of pairs of texts and indexes holds it.
unfoldable pub last_index : Text → ℕ → List Text → Option ℕ
last_index u i [] = none
last_index u i (v ∷ vs) = elim (last_index u (i + 1) vs) [
  | some j ↦ some j
  | none ↦ if text_eq v u then some i else none
]

-- The last portal with an id among those chosen, likewise.
unfoldable pub chosen_portal : ℕ → List ℕ → List Portal → Option Portal
chosen_portal id chosen [] = none
chosen_portal id chosen (p ∷ ps) = elim (chosen_portal id chosen ps) [
  | some q ↦ some q
  | none ↦ if mem p.id chosen && p.id == id then some p else none
]

unfoldable pub row_of : Web → Editor → Node → Option Row
unfolding chosen_portal last_index name_at external_uri_scheme decode_node_name
row_of web e (portal id) =
    Option.map
      (λ (p : Portal). record {
        item = portal id;
        target = tunnel p.id;
        name = text_or (trim (name_at p.id e.form.tunnel_names)) p.name;
        protocol = codes "nowhere";
      })
      (chosen_portal id e.form.tunnel_ids e.portals)
row_of web e (url uri) =
    Option.map
      (λ (index : ℕ). record {
        item = url uri;
        target = external index;
        name = decode_node_name web.casing uri index;
        protocol = external_uri_scheme web.casing uri;
      })
      (last_index uri 0 (uris e.form).values)

unfoldable pub table_rows : Web → Editor → List Row
unfolding row_of filter_map
table_rows web e = filter_map (row_of web e) e.form.node_order
