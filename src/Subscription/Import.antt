-- ===== src/Subscription/Import.antt =====
-- The choice of portals to import in
-- web/src/components/subscriptions/subscription-form-modal.tsx.
use nowhere_dash.Base.{
  ℕ, Bool, false, not, ◌||◌, List, [], ◌∷◌, ◌++◌, none, some, if◌then◌else◌, Text, codes, truthy,
  includes, trim, join, keep, mem, map, remove,
}
use nowhere_dash.Subscription.Uris.{Casing}
use nowhere_dash.Subscription.Form.{portal, Portal, Form, ImportMode, Editor, Web, add_key}

-- `matchesPortalQuery`.
unfoldable pub matches_portal_query : Casing → Portal → Text → Bool
matches_portal_query casing p query =
    let normalized = casing.to_lower (trim query) in
    not (truthy normalized)
    || includes
        (casing.to_lower
          (join (codes " ") (p.name ∷ p.portal_host ∷ p.listen_host ∷ p.listen_port ∷ [])))
        normalized

unfoldable pub available_portals : Editor → List Portal
available_portals e = keep (λ p. not (mem p.id e.form.tunnel_ids)) e.portals

unfoldable pub filtered_available_portals : Web → Editor → List Portal
unfolding available_portals matches_portal_query
filtered_available_portals web e =
    keep (λ p. matches_portal_query web.casing p e.portal_query) (available_portals e)

unfoldable pub open_importer : ImportMode → Editor → Editor
open_importer mode e = record e {
  node_import_mode = some mode;
  portal_query = [];
  portal_selection = [];
  url_draft = [];
  url_import_attempted = false;
}

unfoldable pub toggle_portal_selection : ℕ → Bool → Editor → Editor
toggle_portal_selection id selected e = record e {
  portal_selection =
      (if selected then add_key id e.portal_selection else remove id e.portal_selection);
}

-- The loop of `selectVisiblePortals`.
unfoldable pub select_each : Bool → List Portal → List ℕ → List ℕ
select_each selected [] ids = ids
select_each selected (p ∷ ps) ids =
    select_each selected ps (if selected then add_key p.id ids else remove p.id ids)

unfoldable pub select_visible_portals : Web → Bool → Editor → Editor
unfolding select_each filtered_available_portals
select_visible_portals web selected e = record e {
  portal_selection = select_each selected (filtered_available_portals web e) e.portal_selection;
}

unfoldable pub importing : Editor → List ℕ
importing e = map (λ p. p.id) (keep (λ p. mem p.id e.portal_selection) e.portals)

unfoldable pub add_portals : List ℕ → Form → Form
add_portals ids f = record f {
  tunnel_ids = f.tunnel_ids ++ ids;
  node_order = f.node_order ++ map portal ids;
}

-- `importPortals` once it knows what to import.
unfoldable pub import_ids : List ℕ → Editor → Editor
unfolding add_portals
import_ids [] e = e
import_ids (id ∷ ids) e = record e { form = add_portals (id ∷ ids) e.form; node_import_mode = none }

unfoldable pub import_portals : Editor → Editor
unfolding importing import_ids
import_portals e = import_ids (importing e) e
