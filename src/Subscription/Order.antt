-- ===== src/Subscription/Order.antt =====
-- Theorems on the order of the nodes in the subscription editor.
use mathlib.Core.List.{append-nil, Perm}
use mathlib.Core.List.Perm
use nowhere_dash.Base.{
  ℕ, true, false, List, ◌++◌, Option, none, some, Text, codes, join, is_member, get_elem?, map, any,
  length, ◌≡◌, refl, ◌∙◌, inl, inr, Option-cases, All, All-append, ◌<◌,
}
use nowhere_dash.Subscription.Uris.{inspect_external_uris}
use nowhere_dash.Subscription.Form.{
  Node, portal, url, Form, Web, portal_of, url_of, remove_at, set_at, uris,
}
use nowhere_dash.Subscription.Import.{add_portals}
use nowhere_dash.Subscription.Edit.{add_urls, drop_portal, drop_external, move_nodes}
use nowhere_dash.Subscription.Rename.{rename_external, is_taken}
use nowhere_dash.Subscription.Lines.{IsLine, lines_of-join, lines_of-IsLine, inspect-values}
use nowhere_dash.Subscription.Distinct.{
  distinct, distinct-append, distinct-remove_at, distinct-set_at, keep-remove_at, remove_at-none,
  map-set_at, All-remove_at, All-set_at,
}
use nowhere_dash.Subscription.Nodes.{
  tunnels_in, urls_in, Perm-keep, filter_map-append, tunnels_in-portals, urls_in-portals,
  tunnels_in-urls, urls_in-urls, tunnels_in-keep_portal, urls_in-keep_portal, tunnels_in-keep_url,
  urls_in-keep_url, keep_every, tunnels_in-rename, urls_in-rename,
}

-- The order holds each tunnel of the form and each line of its text as often as these do, and no
-- line stands twice.
pub record IsOrdered (f : Form) : Type 0 where
  pub tunnels : Perm (tunnels_in f.node_order) f.tunnel_ids
  pub urls : Perm (urls_in f.node_order) (uris f).values
  pub once : distinct (uris f).values ≡ true

-- The lines of a form are those of its text.
pub lines-IsLine : (f : Form) → All IsLine (uris f).values
lines-IsLine f = rw (inspect-values f.external_uri_text) (lines_of-IsLine f.external_uri_text)

-- A list of node texts, each trimmed, not empty and on one line, is what `inspectExternalUris` finds
-- in their text, in the same order.
pub read_back :
    (vs : List Text) → All IsLine vs → (inspect_external_uris (join (codes "\n") vs)).values ≡ vs
read_back vs h = inspect-values (join (codes "\n") vs) ∙ lines_of-join vs h

pub add_portals-IsOrdered : (ids : List ℕ) (f : Form) → IsOrdered f → IsOrdered (add_portals ids f)
unfolding add_portals
add_portals-IsOrdered ids f o = record {
  tunnels =
      rw (filter_map-append portal_of f.node_order (map portal ids), tunnels_in-portals ids)
        (Perm.append_right ids o.tunnels);
  urls =
      rw (filter_map-append url_of f.node_order (map portal ids), urls_in-portals ids, append-nil)
        o.urls;
  once = o.once;
}

pub add_urls-IsOrdered :
    (added : List Text) (f : Form)
    → All IsLine added
    → distinct added ≡ true
    → any (λ u. is_member u (uris f).values) added ≡ false
    → IsOrdered f
    → IsOrdered (add_urls added f)
unfolding add_urls
add_urls-IsOrdered added f lines d new o =
    let read =
      read_back ((uris f).values ++ added)
        (All-append IsLine (uris f).values added (lines-IsLine f) lines) in
    record {
      tunnels =
          rw
            (
              filter_map-append portal_of f.node_order (map url added),
              tunnels_in-urls added,
              append-nil,
            )
            o.tunnels;
      urls =
          rw (read, filter_map-append url_of f.node_order (map url added), urls_in-urls added)
            (Perm.append_right added o.urls);
      once = rw read (distinct-append (uris f).values added o.once d new);
    }

pub drop_portal-IsOrdered : (id : ℕ) (f : Form) → IsOrdered f → IsOrdered (drop_portal id f)
unfolding drop_portal
drop_portal-IsOrdered id f o = record {
  tunnels = rw (tunnels_in-keep_portal id f.node_order) (Perm-keep _ o.tunnels);
  urls = rw (urls_in-keep_portal id f.node_order) o.urls;
  once = o.once;
}

pub drop_external-IsOrdered : (i : ℕ) (f : Form) → IsOrdered f → IsOrdered (drop_external i f)
unfolding drop_external
drop_external-IsOrdered i f o =
    let vs = (uris f).values in
    let read = read_back (remove_at vs i) (All-remove_at IsLine vs i (lines-IsLine f)) in
    elim (Option-cases (get_elem? vs i)) [
      | inl e ↦ record {
        tunnels = rw (e, keep_every f.node_order) o.tunnels;
        urls = rw (read, e, keep_every f.node_order, remove_at-none vs i e) o.urls;
        once = rw read (distinct-remove_at vs i o.once);
      }
      | inr (r, e) ↦ record {
        tunnels = rw (e, tunnels_in-keep_url r f.node_order) o.tunnels;
        urls =
            rw (read, e, urls_in-keep_url r f.node_order, ← keep-remove_at vs i r o.once e)
              (Perm-keep _ o.urls);
        once = rw read (distinct-remove_at vs i o.once);
      }
    ]

-- What is documented of `arrayMove`: at two indexes in range it rearranges the list.
abbrev pub Rearranges : Web → Type 0
Rearranges web =
    (order : List Node) (i j : ℕ)
    → i < length order
    → j < length order
    → Perm (web.array_move order i j) order

pub move_nodes-IsOrdered :
    (web : Web) (old new : Option ℕ) (f : Form)
    → ((i : ℕ) → old ≡ some i → i < length f.node_order)
    → ((i : ℕ) → new ≡ some i → i < length f.node_order)
    → Rearranges web
    → IsOrdered f
    → IsOrdered (move_nodes web old new f)
unfolding move_nodes
move_nodes-IsOrdered web (some i) (some j) f h k r o =
    let moved = r f.node_order i j (h i refl) (k j refl) in
    record {
      tunnels = Perm.trans (Perm.filter_map portal_of moved) o.tunnels;
      urls = Perm.trans (Perm.filter_map url_of moved) o.urls;
      once = o.once;
    }
move_nodes-IsOrdered web (some i) none f h k r o = o
move_nodes-IsOrdered web none new f h k r o = o

pub rename_external-IsOrdered :
    (i : ℕ) (p n : Text) (f : Form)
    → get_elem? (uris f).values i ≡ some p
    → is_taken (uris f).values i n ≡ false
    → IsLine n
    → IsOrdered f
    → IsOrdered (rename_external i p n f)
unfolding rename_external is_taken
rename_external-IsOrdered i p n f e free l o =
    let vs = (uris f).values in
    let read = read_back (set_at vs i n) (All-set_at IsLine vs i n l (lines-IsLine f)) in
    record {
      tunnels = rw (tunnels_in-rename p n f.node_order) o.tunnels;
      urls =
          rw (read, urls_in-rename p n f.node_order, ← map-set_at vs i p n o.once e)
            (Perm.map _ o.urls);
      once = rw read (distinct-set_at vs i n o.once free);
    }
