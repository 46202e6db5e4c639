-- ===== src/Subscription/Runs.antt =====
-- Theorems on runs of the subscription editor.
use mathlib.Core.List.{Perm}
use nowhere_dash.Base.{ℕ, Bool, true, List, Option, none, some, Text, trim, ◌≡◌, refl, All}
use nowhere_dash.Portal.Uri.{is_scalar}
use nowhere_dash.Subscription.Form.{
  Node, Portal, Subscription, ImportMode, Row, Editor, Web, open_effect,
}
use nowhere_dash.Subscription.Import.{
  open_importer, toggle_portal_selection, select_visible_portals, importing, import_portals,
}
use nowhere_dash.Subscription.Edit.{import_urls, remove_portal, remove_external, handle_drag_end}
use nowhere_dash.Subscription.Save.{payload_of, save_subscription, submit, saved}
use nowhere_dash.Subscription.Rename.{open_name_editor, save_node_name}
use nowhere_dash.Subscription.Distinct.{distinct}
use nowhere_dash.Subscription.Nodes.{tunnels_in, urls_in}
use nowhere_dash.Subscription.Order.{
  IsOrdered, Rearranges, drop_portal-IsOrdered, drop_external-IsOrdered,
}
use nowhere_dash.Subscription.Kept.{
  IsStored, keeps, open-IsOrdered, new-IsOrdered, import_ids-IsOrdered, import_urls-IsOrdered,
  handle_drag_end-IsOrdered, save_node_name-IsOrdered, submit-form, saved-form,
}

-- What the user and the page do. A name is typed as well-formed text.
pub data Step (web : Web) (e : Editor) : Editor → Type 0 where
  portals_given : (ps : List Portal) → Step web e (record e { portals = ps })
  none_given : Step web e (record e { subscription = none })
  subscription_given : (s : Subscription) → Step web e (record e { subscription = some s })
  opened_new : e.subscription ≡ none → Step web e (open_effect web e)
  opened :
      (s : Subscription) → e.subscription ≡ some s → IsStored s → Step web e (open_effect web e)
  typed :
      (name date limit : Text)
      → Step web e (record e {
        form = record e.form { name = name; expires_at = date; traffic_limit_gib = limit };
      })
  icon_chosen :
      (icon : Option Text)
      → Step web e (record e { form = record e.form { icon = icon }; icon_changed = true })
  drafted :
      (query urls name : Text)
      → Step web e (record e { portal_query = query; url_draft = urls; name_draft = name })
  importer_opened : (mode : ImportMode) → Step web e (open_importer mode e)
  toggled : (id : ℕ) (selected : Bool) → Step web e (toggle_portal_selection id selected e)
  all_toggled : (selected : Bool) → Step web e (select_visible_portals web selected e)
  portals_imported : Step web e (import_portals e)
  urls_imported : Step web e (import_urls e)
  portal_removed : (id : ℕ) → Step web e (remove_portal id e)
  external_removed : (index : ℕ) → Step web e (remove_external index e)
  dragged : (active : Node) (over : Option Node) → Step web e (handle_drag_end web active over e)
  name_opened : (row : Row) → Step web e (open_name_editor row e)
  name_closed : Step web e (record e { name_target = none })
  name_saved : All (λ c. is_scalar c ≡ true) (trim e.name_draft) → Step web e (save_node_name e)
  submitted : Step web e (submit web e).0
  confirmed : Step web e (save_subscription web e).0
  answered : (failure : Option Text) → Step web e (saved failure e).0

pub data Reach (web : Web) (e : Editor) : Editor → Type 0 where
  here : Reach web e e
  next : {f g : Editor} → Reach web e f → Step web f g → Reach web e g

Step-IsOrdered :
    (web : Web) {e f : Editor} → Rearranges web → Step web e f → IsOrdered e.form → IsOrdered f.form
unfolding open_effect open_importer toggle_portal_selection select_visible_portals import_portals
    remove_portal remove_external open_name_editor save_subscription
Step-IsOrdered web r (portals_given ps) o = o
Step-IsOrdered web r none_given o = o
Step-IsOrdered web r (subscription_given s) o = o
Step-IsOrdered web r (opened_new n) o = rw n (new-IsOrdered web)
Step-IsOrdered web r (opened s p k) o = rw p (open-IsOrdered web s k)
Step-IsOrdered web {e} r (typed name date limit) o = keeps _ e.form refl refl refl o
Step-IsOrdered web {e} r (icon_chosen icon) o = keeps _ e.form refl refl refl o
Step-IsOrdered web r (drafted query urls name) o = o
Step-IsOrdered web r (importer_opened mode) o = o
Step-IsOrdered web r (toggled id selected) o = o
Step-IsOrdered web r (all_toggled selected) o = o
Step-IsOrdered web {e} r portals_imported o = import_ids-IsOrdered (importing e) e o
Step-IsOrdered web {e} r urls_imported o = import_urls-IsOrdered e o
Step-IsOrdered web {e} r (portal_removed id) o = drop_portal-IsOrdered id e.form o
Step-IsOrdered web {e} r (external_removed index) o = drop_external-IsOrdered index e.form o
Step-IsOrdered web {e} r (dragged active over) o = handle_drag_end-IsOrdered web active over e r o
Step-IsOrdered web r (name_opened row) o = o
Step-IsOrdered web r name_closed o = o
Step-IsOrdered web {e} r (name_saved h) o = save_node_name-IsOrdered e h o
Step-IsOrdered web {e} r submitted o = rw (submit-form web e) o
Step-IsOrdered web r confirmed o = o
Step-IsOrdered web {e} r (answered failure) o = rw (saved-form failure e) o

pub Reach-IsOrdered :
    (web : Web) {e f : Editor}
    → Rearranges web
    → IsOrdered e.form
    → Reach web e f
    → IsOrdered f.form
Reach-IsOrdered web r o here = o
Reach-IsOrdered web r o (next reach step) =
    Step-IsOrdered web r step (Reach-IsOrdered web r o reach)

-- From an editor whose order of nodes holds each tunnel and each external node as often as its form
-- does, and no external node twice, whatever is done leads to a payload of the same kind: its order
-- holds each of its tunnels and external nodes as often as its lists do, and no external node stands
-- twice. The subscriptions opened are stored so, `arrayMove` rearranges, and names are well-formed
-- text.
pub Reach-payload_of :
    (web : Web) {e f : Editor}
    → Rearranges web
    → IsOrdered e.form
    → Reach web e f
    → Perm (tunnels_in (payload_of web f).node_order) (payload_of web f).tunnel_ids
      × Perm (urls_in (payload_of web f).node_order) (payload_of web f).external_uris
      × (distinct (payload_of web f).external_uris ≡ true)
unfolding payload_of
Reach-payload_of web r o reach =
    let k = Reach-IsOrdered web r o reach in (k.tunnels, k.urls, k.once)
