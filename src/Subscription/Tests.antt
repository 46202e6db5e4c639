-- ===== src/Subscription/Tests.antt =====
-- Runs of the subscription editor on concrete nodes, and its theorems at them.
use mathlib.Core.List.{Perm, filter_map}
use mathlib.Core.List.Perm
use nowhere_dash.Base.{
  ℕ, zero, suc, ◌≤◌, Text, All, length, true, false, List, [], ◌∷◌, ◌++◌, none, some, codes,
  get_elem?, ◌≡◌, refl, arith, trim, join, nat_text, trim_start, ends_with, is_member, text_eq,
  digits_value, ltb, leb, map, Option-cases, inl, inr, if◌then◌else◌, ◌+◌, ◌-◌, ◌*◌, ◌&&◌,
}
use nowhere_dash.Subscription.Form.{
  Node, portal, url, Subscription, Editor, external, Web, initial_form, remove_at, open_effect,
}
use nowhere_dash.Subscription.Edit.{import_urls, handle_drag_end}
use nowhere_dash.Subscription.Save.{submit, Sent, payload_of}
use nowhere_dash.Subscription.Rename.{save_node_name}
use nowhere_dash.Subscription.Lines.{IsLine}
use nowhere_dash.Subscription.Order.{read_back}
use nowhere_dash.Subscription.Uris.{inspect_external_uris}
use nowhere_dash.Subscription.Accepted.{IsNode, inspect_external_uris_lem}
use mathlib.Core.Option.{some-injective}
use nowhere_dash.Subscription.Distinct.{distinct}
use nowhere_dash.Subscription.Nodes.{tunnels_in, urls_in}
use nowhere_dash.Subscription.Runs.{
  Reach, here, next, opened, drafted, urls_imported, Reach-payload_of,
}
use nowhere_dash.Subscription.Kept.{IsStored}
use nowhere_dash.Subscription.Order.{IsOrdered, Rearranges}

-- `arrayMove` of @dnd-kit.
abbrev insert_at : List Node → ℕ → Node → List Node
insert_at xs zero n = n ∷ xs
insert_at [] (suc i) n = n ∷ []
insert_at (x ∷ xs) (suc i) n = x ∷ insert_at xs i n

abbrev array_move : List Node → ℕ → ℕ → List Node
array_move xs i j = elim (get_elem? xs i) [ none ↦ xs | some n ↦ insert_at (remove_at xs i) j n ]

insert_at-perm : (xs : List Node) (i : ℕ) (n : Node) → Perm (insert_at xs i n) (n ∷ xs)
insert_at-perm xs zero n = Perm.refl (n ∷ xs)
insert_at-perm [] (suc i) n = Perm.refl (n ∷ [])
insert_at-perm (x ∷ xs) (suc i) n =
    Perm.trans (Perm.cons x (insert_at-perm xs i n)) (Perm.swap n x xs)

remove_at-perm :
    (xs : List Node) (i : ℕ) (n : Node) → get_elem? xs i ≡ some n → Perm (n ∷ remove_at xs i) xs
unfolding remove_at
remove_at-perm [] i n e = cc
remove_at-perm (x ∷ xs) zero n e = rw (some-injective x n e) (Perm.refl (n ∷ xs))
remove_at-perm (x ∷ xs) (suc i) n e =
    Perm.trans (Perm.swap x n (remove_at xs i)) (Perm.cons x (remove_at-perm xs i n e))

array_move-perm : (xs : List Node) (i j : ℕ) → Perm (array_move xs i j) xs
array_move-perm xs i j = elim (Option-cases (get_elem? xs i)) [
  | inl e ↦ rw (e, array_move) (Perm.refl xs)
  | inr (n, e) ↦
      rw (e, array_move)
        (Perm.trans (insert_at-perm (remove_at xs i) j n) (remove_at-perm xs i n e))
]

abbrev lower : ℕ → ℕ
lower c = if leb b'A' c && leb c b'Z' then c + 32 else c

abbrev upper : ℕ → ℕ
upper c = if leb b'a' c && leb c b'z' then c - 32 else c

abbrev simple_web : Web
simple_web = record {
  array_move = array_move;
  to_local = λ t. t;
  to_iso = λ t. t;
  gib_text = nat_text;
  gib_bytes = λ t. digits_value 0 t * 1073741824;
  is_positive = λ t. ltb 0 (digits_value 0 t);
  casing = record { to_lower = map lower; to_upper = map upper };
}

simple_web-Rearranges : Rearranges simple_web
simple_web-Rearranges order i j _ _ = array_move-perm order i j

abbrev stored : Subscription
stored = record {
  id = 7;
  name = codes "home";
  icon = [];
  expires_at = none;
  traffic_limit = some 2;
  tunnel_ids = 1 ∷ 2 ∷ [];
  tunnel_names = [];
  external_uris = codes "ss://a#x" ∷ codes "ss://b" ∷ [];
  node_order = url (codes "ss://b") ∷ portal 2 ∷ url (codes "ss://a#x") ∷ portal 1 ∷ [];
}

abbrev closed : Editor
closed = record {
  portals =
      record { id = 1; name = codes "one"; portal_host = []; listen_host = []; listen_port = [] }
      ∷ [];
  subscription = some stored;
  form = initial_form;
  icon_changed = false;
  submitting = false;
  attempted = false;
  save_confirmation_open = false;
  external_server_error = [];
  node_import_mode = none;
  portal_query = [];
  portal_selection = [];
  url_draft = [];
  url_import_attempted = false;
  name_target = none;
  name_draft = [];
  name_attempted = false;
  name_duplicate = false;
}

abbrev opened_editor : Editor
opened_editor = open_effect simple_web closed

abbrev drafted_editor : Editor
drafted_editor = record opened_editor { url_draft = codes " ss://c \r\n\nvless://d\n" }

abbrev imported : Editor
imported = import_urls drafted_editor

imported_order :
    imported.form.node_order
    ≡ stored.node_order ++ url (codes "ss://c") ∷ url (codes "vless://d") ∷ []
unfolding import_urls open_effect inspect_external_uris trim join
    nowhere_dash.Subscription.Uris.split_lines nowhere_dash.Portal.Uri.byte_length is_member
    nowhere_dash.Subscription.Uris.match_scheme
imported_order = refl

abbrev renamed : Editor
renamed =
    save_node_name
      (record imported { name_target = some (external 0); name_draft = codes " new one " })

renamed_order :
    renamed.form.node_order
    ≡ url (codes "ss://b")
      ∷ portal 2
      ∷ url (codes "ss://a#new%20one")
      ∷ portal 1
      ∷ url (codes "ss://c")
      ∷ url (codes "vless://d")
      ∷ []
unfolding save_node_name import_urls open_effect inspect_external_uris trim join
    nowhere_dash.Portal.Uri.byte_length nowhere_dash.Subscription.Uris.split_lines is_member
    nowhere_dash.Subscription.Uris.match_scheme nowhere_dash.Subscription.Uris.replace_node_name
    nowhere_dash.Portal.Uri.encode_uri_component
renamed_order = refl

abbrev dragged_editor : Editor
dragged_editor = handle_drag_end simple_web (portal 1) (some (url (codes "ss://b"))) renamed

dragged_order :
    dragged_editor.form.node_order
    ≡ portal 1
      ∷ url (codes "ss://b")
      ∷ portal 2
      ∷ url (codes "ss://a#new%20one")
      ∷ url (codes "ss://c")
      ∷ url (codes "vless://d")
      ∷ []
unfolding handle_drag_end save_node_name import_urls open_effect inspect_external_uris trim join
    nowhere_dash.Portal.Uri.byte_length nowhere_dash.Subscription.Uris.split_lines is_member
    nowhere_dash.Subscription.Uris.match_scheme nowhere_dash.Subscription.Uris.replace_node_name
    nowhere_dash.Portal.Uri.encode_uri_component
dragged_order = refl

x-IsLine : IsLine (codes "ss://a#x")
unfolding trim trim_start ends_with
x-IsLine = record { given = refl; one_line = omega arith; trimmed = refl; no_return = refl }

b-IsLine : IsLine (codes "ss://b")
unfolding trim trim_start ends_with
b-IsLine = record { given = refl; one_line = omega arith; trimmed = refl; no_return = refl }

stored-IsStored : IsStored stored
unfolding is_member text_eq filter_map
stored-IsStored = record {
  lines = (x-IsLine, (b-IsLine, tt));
  once = refl;
  tunnels = Perm.swap 1 2 [];
  urls = Perm.swap (codes "ss://a#x") (codes "ss://b") [];
}

closed-IsOrdered : IsOrdered closed.form
unfolding inspect_external_uris trim filter_map nowhere_dash.Subscription.Uris.split_lines
closed-IsOrdered = record { tunnels = Perm.refl []; urls = Perm.refl []; once = refl }

abbrev run_to_import : Reach simple_web closed imported
unfolding open_effect
run_to_import =
    next
      (next (next here (opened stored refl stored-IsStored))
        (drafted [] drafted_editor.url_draft []))
      urls_imported

Reach-payload_of_example :
    Perm
      (tunnels_in (payload_of simple_web imported).node_order)
      (payload_of simple_web imported).tunnel_ids
    × Perm
        (urls_in (payload_of simple_web imported).node_order)
        (payload_of simple_web imported).external_uris
    × (distinct (payload_of simple_web imported).external_uris ≡ true)
Reach-payload_of_example =
    Reach-payload_of simple_web simple_web-Rearranges closed-IsOrdered run_to_import

read_back_example :
    (inspect_external_uris (join (codes "\n") (codes "ss://a#x" ∷ codes "ss://b" ∷ []))).values
    ≡ codes "ss://a#x" ∷ codes "ss://b" ∷ []
read_back_example = read_back (codes "ss://a#x" ∷ codes "ss://b" ∷ []) (x-IsLine, (b-IsLine, tt))

abbrev two_nodes : Text
two_nodes = codes "ss://a#x\nvless://b"

two_nodes_clean : (inspect_external_uris two_nodes).issues ≡ []
unfolding inspect_external_uris nowhere_dash.Subscription.Uris.split_lines trim
    nowhere_dash.Portal.Uri.byte_length is_member nowhere_dash.Subscription.Uris.match_scheme
two_nodes_clean = refl

inspect_external_uris_lem_example :
    (distinct (inspect_external_uris two_nodes).values ≡ true)
    × (length (inspect_external_uris two_nodes).values ≤ 500)
    × All IsNode (inspect_external_uris two_nodes).values
inspect_external_uris_lem_example = inspect_external_uris_lem two_nodes two_nodes_clean

abbrev portals_only : Editor
portals_only = record closed {
  form = record initial_form {
    name = codes "home";
    tunnel_ids = 1 ∷ [];
    node_order = portal 1 ∷ [];
  };
}

abbrev sent_once : Sent
sent_once = record { id = some 7; payload = payload_of simple_web portals_only }

portals_only_sent : (submit simple_web portals_only).1 ≡ some sent_once
unfolding submit trim inspect_external_uris nowhere_dash.Subscription.Uris.split_lines
portals_only_sent = refl
