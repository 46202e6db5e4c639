-- ===== src/Tunnels/Rows.antt =====
-- The list of web/src/pages/tunnels/index.tsx with its filters and its request.
use nowhere_dash.Base.{
  ℕ, Bool, true, false, not, ◌&&◌, List, [], ◌∷◌, ◌++◌, Option, none, some, ltb, if◌then◌else◌,
  Text, codes, text_eq, truthy, trim, nat_text, keep,
}

-- What the page uses of a tunnel; `id` is `String(tunnel.id)`.
pub record Tunnel : Type 0 where
  pub id : Text
  pub kind : Text
  pub status : Text

pub record Filters : Type 0 where
  pub page : ℕ
  pub rows_per_page : ℕ
  pub search : Text
  pub status : Text
  pub endpoint_id : Text
  pub group_id : Text
  pub column : Option Text
  pub ascending : Bool

-- The keys that are selected: all rows, or a set of ids.
pub data Selection : Type 0 where
  all_rows : Selection
  ids : List Text → Selection

pub data Notice : Type 0 where
  deleted : Notice
  action_failed : Text → Notice
  nothing_to_do : Text → Notice

-- `deleting_one` is the tunnel of the dialog that deletes one.
pub record Page : Type 0 where
  pub tunnels : List Tunnel
  pub total_items : ℕ
  pub total_pages : ℕ
  pub loading : Bool
  pub error : Text
  pub filters : Filters
  pub search_input : Text
  pub selected : Selection
  pub busy : List Text
  pub deleting_one : Option Text
  pub batch_delete_open : Bool
  pub deleting : Bool
  pub notices : List Notice

-- `params.set` of a key that is set once.
abbrev pub param : Bool → Text → Text → List (Text × Text)
param true key value = (key, value) ∷ []
param false key value = []

abbrev pub sort_params : Option Text → Bool → List (Text × Text)
sort_params none ascending = []
sort_params (some column) ascending =
    if truthy column
    then (codes "sort_by", column)
      ∷ (codes "sort_order", (if ascending then codes "asc" else codes "desc"))
      ∷ []
    else []

-- The pairs of `params`, in their order.
unfoldable pub params : Filters → List (Text × Text)
unfolding nat_text text_eq
params f =
    (codes "page", nat_text f.page)
      ∷ (codes "page_size", nat_text f.rows_per_page)
      ∷ param (truthy f.search) (codes "search") f.search
    ++ param (not (text_eq f.status (codes "all"))) (codes "status") f.status
    ++ param (not (text_eq f.endpoint_id (codes "all"))) (codes "endpoint_id") f.endpoint_id
    ++ param (not (text_eq f.group_id (codes "all"))) (codes "group_id") f.group_id
    ++ sort_params f.column f.ascending

-- The answer: a list with its totals, or the message of an error.
pub data Answer : Type 0 where
  listed : List Tunnel → ℕ → Option ℕ → Answer
  failed : Text → Answer

unfoldable pub fetch_tunnels : Page → Page
fetch_tunnels p = record p { loading = true; error = [] }

-- `Math.max(1, pages ?? 1)`.
abbrev pub pages_or_one : Option ℕ → ℕ
pages_or_one none = 1
pages_or_one (some n) = if ltb n 1 then 1 else n

abbrev pub is_portal : Tunnel → Bool
is_portal t = text_eq t.kind (codes "portal")

unfoldable pub fetched : Answer → Page → Page
unfolding text_eq
fetched (listed found total pages) p = record p {
  tunnels = keep is_portal found;
  total_items = total;
  total_pages = pages_or_one pages;
  loading = false;
}
fetched (failed message) p = record p { error = message; loading = false }

-- The timer of the search input.
unfoldable pub search_typed : Page → Page
unfolding trim
search_typed p = record p { filters = record p.filters { search = trim p.search_input; page = 1 } }

unfoldable pub choose_status : Option Text → Page → Page
choose_status key p = record p {
  filters = record p.filters { status = elim key [ none ↦ codes "all" | some k ↦ k ]; page = 1 };
}

unfoldable pub choose_endpoint : Option Text → Page → Page
choose_endpoint key p = record p {
  filters = record p.filters {
    endpoint_id = elim key [ none ↦ codes "all" | some k ↦ k ];
    page = 1;
  };
}

unfoldable pub choose_group : Text → Page → Page
choose_group key p = record p { filters = record p.filters { group_id = key; page = 1 } }

-- The test `sortDescriptor.column === column`.
abbrev pub is_column : Option Text → Text → Bool
is_column none column = false
is_column (some c) column = text_eq c column

unfoldable pub sort_by : Text → Page → Page
unfolding text_eq
sort_by column p = record p {
  filters = record p.filters {
    column = some column;
    ascending = is_column p.filters.column column && not p.filters.ascending;
    page = 1;
  };
}

unfoldable pub choose_rows : ℕ → Page → Page
choose_rows value p = record p { filters = record p.filters { rows_per_page = value; page = 1 } }

unfoldable pub reset_filters : Page → Page
reset_filters p = record p {
  search_input = [];
  filters = record p.filters {
    page = 1;
    search = [];
    status = codes "all";
    endpoint_id = codes "all";
    group_id = codes "all";
    column = none;
    ascending = false;
  };
}
