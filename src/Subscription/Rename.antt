-- ===== src/Subscription/Rename.antt =====
-- The names of the nodes in the editor of
-- web/src/components/subscriptions/subscription-form-modal.tsx.
use nowhere_dash.Base.{
  ℕ, Bool, true, false, not, ◌||◌, List, [], ◌∷◌, Option, none, some, ltb, ◌==◌, if◌then◌else◌,
  Text, codes, text_eq, truthy, is_member, trim, join, get_elem?, map,
}
use nowhere_dash.Portal.Uri.{byte_length}
use nowhere_dash.Subscription.Uris.{replace_node_name}
use nowhere_dash.Subscription.Form.{
  Node, portal, url, Portal, Form, Target, tunnel, external, Row, Editor, delete_name, set_name,
  remove_at, set_at, uris,
}

unfoldable pub open_name_editor : Row → Editor → Editor
open_name_editor row e = record e {
  name_target = some row.target;
  name_draft = row.name;
  name_attempted = false;
  name_duplicate = false;
}

unfoldable pub find_portal : ℕ → List Portal → Option Portal
find_portal id [] = none
find_portal id (p ∷ ps) = if p.id == id then some p else find_portal id ps

unfoldable pub rename_portal : List Portal → ℕ → Text → Form → Form
unfolding delete_name set_name find_portal
rename_portal portals id name f = record f {
  tunnel_names = elim (find_portal id portals) [
    | none ↦ set_name id name f.tunnel_names
    | some p ↦
        if text_eq name p.name
        then delete_name id f.tunnel_names
        else set_name id name f.tunnel_names
  ];
}

-- `item.source === "url" && item.uri === previousUri ? { ...item, uri: nextUri } : item`.
abbrev pub rename_node : Text → Text → Node → Node
rename_node previous next (portal id) = portal id
rename_node previous next (url uri) = if text_eq uri previous then url next else url uri

unfoldable pub rename_external : ℕ → Text → Text → Form → Form
unfolding set_at
rename_external index previous next f = record f {
  external_uri_text = join (codes "\n") (set_at (uris f).values index next);
  node_order = map (rename_node previous next) f.node_order;
}

-- `nextUris.some((uri, i) => i !== index && uri === nextUri)`.
unfoldable pub is_taken : List Text → ℕ → Text → Bool
unfolding remove_at
is_taken values index next = is_member next (remove_at values index)

-- The branch on an external node; without a URI at the index `replaceNodeName` throws.
unfoldable pub save_external : ℕ → Text → Option Text → Editor → Editor
unfolding is_taken rename_external
save_external index name none e = e
save_external index name (some previous) e =
    let next = replace_node_name previous name in
    if is_taken (uris e.form).values index next
    then record e { name_duplicate = true }
    else record e {
      form = rename_external index previous next e.form;
      external_server_error = [];
      name_target = none;
    }

unfoldable pub save_target : Option Target → Text → Editor → Editor
unfolding rename_portal save_external
save_target none name e = e
save_target (some (tunnel id)) name e = record e {
  form = rename_portal e.portals id name e.form;
  name_target = none;
}
save_target (some (external index)) name e =
    save_external index name (get_elem? (uris e.form).values index) e

unfoldable pub save_node_name : Editor → Editor
unfolding save_target
save_node_name e =
    let e' = record e { name_attempted = true; name_duplicate = false } in
    let name = trim e.name_draft in
    if not (truthy name) || ltb 255 (byte_length name)
    then e'
    else save_target e.name_target name e'
