-- ===== src/Tunnels/Tests.antt =====
-- The list of tunnels with three of them.
use nowhere_dash.Base.{
  true, false, not, ◌&&◌, ◌||◌, [], ◌∷◌, none, some, Text, codes, is_member, ◌≡◌, refl,
}
use nowhere_dash.Tunnels.Rows.{Tunnel, ids, Page, Filters, params}
use nowhere_dash.Tunnels.Actions.{
  stop, run_batch, batch_ended, delete_done, target_ids, selected_tunnels,
}
use nowhere_dash.Tunnels.Marks.{ids_in, run_batch_frees}
use nowhere_dash.Tunnels.Chosen.{deleted_again}

abbrev unfiltered : Filters
unfiltered = record {
  page = 2;
  rows_per_page = 10;
  search = codes "a";
  status = codes "all";
  endpoint_id = codes "7";
  group_id = codes "all";
  column = some (codes "name");
  ascending = true;
}

abbrev tunnel : Text → Text → Tunnel
tunnel id status = record { id = id; kind = codes "portal"; status = status }

abbrev shown : Page
shown = record {
  tunnels =
      tunnel (codes "1") (codes "running")
      ∷ tunnel (codes "2") (codes "stopped")
      ∷ tunnel (codes "3") (codes "running")
      ∷ [];
  total_items = 13;
  total_pages = 2;
  loading = false;
  error = [];
  filters = unfiltered;
  search_input = codes "a";
  selected = ids (codes "1" ∷ codes "2" ∷ codes "9" ∷ []);
  busy = codes "1" ∷ codes "3" ∷ [];
  deleting_one = some (codes "2");
  batch_delete_open = false;
  deleting = false;
  notices = [];
}

run_batch_frees_example :
    (is_member (codes "3") (run_batch stop shown).0.busy ≡ (
      is_member (codes "3") (ids_in (run_batch stop shown).1) || is_member (codes "3") shown.busy))
    × (is_member
          (codes "3")
          (batch_ended (run_batch stop shown).1 none (run_batch stop shown).0).busy
        ≡ (is_member (codes "3") shown.busy
            && not (is_member (codes "3") (ids_in (run_batch stop shown).1))))
run_batch_frees_example = run_batch_frees stop none shown (codes "3")

-- A batch frees a tunnel that was busy with an action of its own.
busy_freed :
    (batch_ended (run_batch stop shown).1 none (run_batch stop shown).0).busy ≡ codes "3" ∷ []
unfolding run_batch batch_ended
busy_freed = refl

-- The deletion of a selection reaches a tunnel that the page does not show, a batch does not.
hidden_deleted :
    (target_ids (record shown { deleting_one = none }) ≡ codes "1" ∷ codes "2" ∷ codes "9" ∷ [])
    × (ids_in (selected_tunnels shown) ≡ codes "1" ∷ codes "2" ∷ [])
unfolding target_ids selected_tunnels
hidden_deleted = (refl, refl)

deleted_again_example :
    is_member (codes "2") (target_ids (delete_done shown (target_ids shown) shown)) ≡ true
deleted_again_example =
    deleted_again shown (codes "1" ∷ codes "2" ∷ codes "9" ∷ []) (codes "2") refl refl two_selected
  where
    two_selected : is_member (codes "2") (codes "1" ∷ codes "2" ∷ codes "9" ∷ []) ≡ true
    two_selected = unfold is_member in refl

params_sent :
    params unfiltered
    ≡ (codes "page", codes "2")
      ∷ (codes "page_size", codes "10")
      ∷ (codes "search", codes "a")
      ∷ (codes "endpoint_id", codes "7")
      ∷ (codes "sort_by", codes "name")
      ∷ (codes "sort_order", codes "asc")
      ∷ []
unfolding params
params_sent = refl
