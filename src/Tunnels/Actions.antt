-- ===== src/Tunnels/Actions.antt =====
-- The actions on the selected tunnels of web/src/pages/tunnels/index.tsx, split at each `await`.
use nowhere_dash.Base.{
  ℕ, ◌-◌, Bool, true, false, not, ◌&&◌, List, [], ◌∷◌, ◌++◌, Option, none, some, ◌==◌, ltb,
  if◌then◌else◌, Text, codes, text_eq, is_member, keep, map, length,
}
use nowhere_dash.Tunnels.Rows.{
  Tunnel, Selection, all_rows, ids, deleted, action_failed, nothing_to_do, Page, fetch_tunnels,
}

pub data Action : Type 0 where
  start stop restart : Action

-- The selected tunnels that the page shows.
unfoldable pub tunnels_of : Selection → List Tunnel → List Tunnel
unfolding is_member
tunnels_of all_rows ts = ts
tunnels_of (ids keys) ts = keep (λ t. is_member t.id keys) ts

unfoldable pub selected_tunnels : Page → List Tunnel
unfolding tunnels_of
selected_tunnels p = tunnels_of p.selected p.tunnels

-- The number that the page shows, and the ids that are deleted.
unfoldable pub ids_of : Selection → List Tunnel → List Text
ids_of all_rows ts = map (λ (t : Tunnel). t.id) ts
ids_of (ids keys) ts = keys

unfoldable pub selected_ids : Page → List Text
unfolding ids_of
selected_ids p = ids_of p.selected p.tunnels

-- A set of ids without repetition: `add` and `delete`.
unfoldable pub add_id : Text → List Text → List Text
unfolding is_member
add_id id busy = if is_member id busy then busy else busy ++ id ∷ []

unfoldable pub remove_id : Text → List Text → List Text
unfolding text_eq
remove_id id busy = keep (λ k. not (text_eq k id)) busy

unfoldable pub mark_busy : Text → Bool → List Text → List Text
unfolding add_id remove_id
mark_busy id true busy = add_id id busy
mark_busy id false busy = remove_id id busy

unfoldable pub mark_all : List Tunnel → Bool → List Text → List Text
unfolding mark_busy
mark_all [] value busy = busy
mark_all (t ∷ ts) value busy = mark_all ts value (mark_busy t.id value busy)

-- What an answer to an action says: nothing, or the message of an error.
unfoldable pub notify : Option Text → Page → Page
notify none p = p
notify (some message) p = record p { notices = p.notices ++ action_failed message ∷ [] }

-- `runAction` up to its request, after an answer that is ok, and its end.
unfoldable pub run_action : Text → Page → Page
unfolding mark_busy
run_action id p = record p { busy = mark_busy id true p.busy }

unfoldable pub action_ended : Text → Option Text → Page → Page
unfolding mark_busy notify
action_ended id problem p =
    let q = notify problem p in record q { busy = mark_busy id false q.busy }

unfoldable pub is_target : Action → Tunnel → Bool
unfolding text_eq
is_target start t = not (text_eq t.status (codes "running"))
is_target stop t = text_eq t.status (codes "running")
is_target restart t = text_eq t.status (codes "running")

unfoldable pub action_targets : Action → Page → List Tunnel
unfolding selected_tunnels is_target
action_targets action p = keep (is_target action) (selected_tunnels p)

abbrev pub no_target : Action → Text
no_target start = codes "bulkNoStart"
no_target stop = codes "bulkNoStop"
no_target restart = codes "bulkNoRestart"

-- `runBatchAction` up to its requests, with the tunnels that it sends the action to.
unfoldable pub run_batch : Action → Page → Page × List Tunnel
unfolding action_targets mark_all
run_batch action p =
    let targets = action_targets action p in
    if length targets == 0
    then (record p { notices = p.notices ++ nothing_to_do (no_target action) ∷ [] }, [])
    else (record p { busy = mark_all targets true p.busy }, targets)

-- The rest of it: the first error, if there is one, is shown.
unfoldable pub batch_ended : List Tunnel → Option Text → Page → Page
unfolding mark_all notify
batch_ended targets problem p =
    let q = notify problem p in record q { busy = mark_all targets false q.busy }

-- The ids that the dialog deletes.
unfoldable pub target_ids : Page → List Text
unfolding selected_ids
target_ids p = elim p.deleting_one [ some id ↦ id ∷ [] | none ↦ selected_ids p ]

-- `confirmDelete` up to its requests.
unfoldable pub confirm_delete : Page → Page × List Text
unfolding target_ids
confirm_delete p =
    if length (target_ids p) == 0 then (p, []) else (record p { deleting = true }, target_ids p)

-- The dialog is closed, and a selection that was deleted is forgotten.
unfoldable pub close_deleted : Option Text → Page → Page
close_deleted one p = record p {
  notices = p.notices ++ deleted ∷ [];
  deleting_one = none;
  batch_delete_open = false;
  selected = elim one [ none ↦ ids [] | some id ↦ p.selected ];
}

-- The page before is shown if all rows were deleted, and otherwise the rows are fetched again.
unfoldable pub leave_page : Bool → ℕ → Page → Page
unfolding fetch_tunnels
leave_page true page p = record p { filters = record p.filters { page = page - 1 } }
leave_page false page p = fetch_tunnels p

-- The rest of `confirmDelete`: `seen` is the page that its closure holds, `targets` the ids that it
-- deleted; a fetch ends before `deleting` is taken back, which the caller of this does then.
unfoldable pub delete_done : Page → List Text → Page → Page
unfolding close_deleted leave_page
delete_done seen targets p =
    leave_page ((length targets == length seen.tunnels) && ltb 1 seen.filters.page)
      seen.filters.page (close_deleted seen.deleting_one p)

unfoldable pub delete_ended : Option Text → Page → Page
unfolding notify
delete_ended problem p = record (notify problem p) { deleting = false }
