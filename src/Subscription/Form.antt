-- ===== src/Subscription/Form.antt =====
-- The editor of a subscription: state, handlers and payload of
-- web/src/components/subscriptions/subscription-form-modal.tsx.
use mathlib.Core.Option
use nowhere_dash.Base.{
  ℕ, zero, suc, ◌+◌, Bool, false, List, [], ◌∷◌, ◌++◌, Option, none, some, ◌==◌, if◌then◌else◌,
  Text, codes, text_eq, join, starts_with, length, mem, map,
}
use nowhere_dash.Subscription.Uris.{Inspection, inspect_external_uris, Casing}

-- `SubscriptionNodeOrderItem`.
pub data Node : Type 0 where
  portal : ℕ → Node
  url : Text → Node

-- What the editor reads of a `PortalOption`.
pub record Portal : Type 0 where
  pub id : ℕ
  pub name : Text
  pub portal_host : Text
  pub listen_host : Text
  pub listen_port : Text

-- `PortalSubscription`; a date that is null is `none`, the names are an object with a key for each
-- tunnel that was renamed.
pub record Subscription : Type 0 where
  pub id : ℕ
  pub name : Text
  pub icon : Text
  pub expires_at : Option Text
  pub traffic_limit : Option ℕ
  pub tunnel_ids : List ℕ
  pub tunnel_names : List (ℕ × Text)
  pub external_uris : List Text
  pub node_order : List Node

-- `SubscriptionFormState`.
pub record Form : Type 0 where
  pub icon : Option Text
  pub name : Text
  pub expires_at : Text
  pub traffic_limit_gib : Text
  pub tunnel_ids : List ℕ
  pub tunnel_names : List (ℕ × Text)
  pub external_uri_text : Text
  pub node_order : List Node

pub data ImportMode : Type 0 where
  from_portals from_urls : ImportMode

-- `NodeNameTarget`, without the name that it repeats.
pub data Target : Type 0 where
  tunnel : ℕ → Target
  external : ℕ → Target

pub record Row : Type 0 where
  pub item : Node
  pub target : Target
  pub name : Text
  pub protocol : Text

-- The state of the component and the props that its handlers read.
pub record Editor : Type 0 where
  pub portals : List Portal
  pub subscription : Option Subscription
  pub form : Form
  pub icon_changed : Bool
  pub submitting : Bool
  pub attempted : Bool
  pub save_confirmation_open : Bool
  pub external_server_error : Text
  pub node_import_mode : Option ImportMode
  pub portal_query : Text
  pub portal_selection : List ℕ
  pub url_draft : Text
  pub url_import_attempted : Bool
  pub name_target : Option Target
  pub name_draft : Text
  pub name_attempted : Bool
  pub name_duplicate : Bool

-- What the component takes from elsewhere: `arrayMove` of @dnd-kit, local dates, floats in texts
-- and cases of letters. `is_positive s` tells whether `Number(s)` is finite and over 0.
pub record Web : Type 0 where
  pub array_move : List Node → ℕ → ℕ → List Node
  pub to_local : Text → Text
  pub to_iso : Text → Text
  pub gib_text : ℕ → Text
  pub gib_bytes : Text → ℕ
  pub is_positive : Text → Bool
  pub casing : Casing

abbrev pub initial_form : Form
initial_form = record {
  icon = none;
  name = [];
  expires_at = [];
  traffic_limit_gib = [];
  tunnel_ids = [];
  tunnel_names = [];
  external_uri_text = [];
  node_order = [];
}

abbrev pub portal_of : Node → Option ℕ
portal_of (portal id) = some id
portal_of (url uri) = none

abbrev pub url_of : Node → Option Text
url_of (portal id) = none
url_of (url uri) = some uri

-- Equality of `nodeOrderKey(item)`.
unfoldable pub same_key : Node → Node → Bool
unfolding text_eq
same_key (portal a) (portal b) = a == b
same_key (url a) (url b) = text_eq a b
same_key _ _ = false

-- `findIndex`; `none` is -1.
unfoldable pub find_key : Node → List Node → Option ℕ
unfolding same_key
find_key k [] = none
find_key k (item ∷ items) =
    if same_key item k then some 0 else Option.map (λ i. i + 1) (find_key k items)

-- An object with numbers for keys: what a key holds, `o[k] = v` and `delete o[k]`.
unfoldable pub name_at : ℕ → List (ℕ × Text) → Text
name_at k [] = []
name_at k ((j, name) ∷ names) = if j == k then name else name_at k names

unfoldable pub delete_name : ℕ → List (ℕ × Text) → List (ℕ × Text)
delete_name k [] = []
delete_name k ((j, name) ∷ names) =
    if j == k then delete_name k names else (j, name) ∷ delete_name k names

unfoldable pub set_name : ℕ → Text → List (ℕ × Text) → List (ℕ × Text)
unfolding delete_name
set_name k name names = (k, name) ∷ delete_name k names

-- `values.filter((_, j) => j !== i)` and `values[i] = value`.
unfoldable pub remove_at {ℓ} : {A : Type ℓ} → List A → ℕ → List A
remove_at [] i = []
remove_at (x ∷ xs) zero = xs
remove_at (x ∷ xs) (suc i) = x ∷ remove_at xs i

unfoldable pub set_at {ℓ} : {A : Type ℓ} → List A → ℕ → A → List A
set_at [] i value = []
set_at (x ∷ xs) zero value = value ∷ xs
set_at (x ∷ xs) (suc i) value = x ∷ set_at xs i value

abbrev pub add_key : ℕ → List ℕ → List ℕ
add_key k ks = if mem k ks then ks else k ∷ ks

abbrev pub uris : Form → Inspection
uris f = inspect_external_uris f.external_uri_text

-- `subscription.nodeOrder` where it has the length of the default order.
unfoldable pub default_node_order : Subscription → List Node
default_node_order s = map portal s.tunnel_ids ++ map url s.external_uris

unfoldable pub to_form_state : Web → Option Subscription → Form
unfolding default_node_order
to_form_state web none = initial_form
to_form_state web (some s) = record {
  icon = (if starts_with s.icon (codes "data:image/png;base64,") then some s.icon else none);
  name = s.name;
  expires_at = elim s.expires_at [ none ↦ [] | some date ↦ web.to_local date ];
  traffic_limit_gib = elim s.traffic_limit [ none ↦ [] | some limit ↦ web.gib_text limit ];
  tunnel_ids = s.tunnel_ids;
  tunnel_names = s.tunnel_names;
  external_uri_text = join (codes "\n") s.external_uris;
  node_order =
      (if length s.node_order == length (default_node_order s)
        then s.node_order
        else default_node_order s);
}

-- The effect on `[isOpen, subscription]`, when the modal is open.
unfoldable pub open_effect : Web → Editor → Editor
unfolding to_form_state
open_effect web e = record e {
  form = to_form_state web e.subscription;
  icon_changed = false;
  attempted = false;
  save_confirmation_open = false;
  external_server_error = [];
  node_import_mode = none;
  portal_query = [];
  portal_selection = [];
  url_draft = [];
  url_import_attempted = false;
  name_target = none;
  name_draft = [];
  name_attempted = false;
  name_duplicate = false;
}
