-- ===== src/Tunnels/Chosen.antt =====
-- Theorems on the tunnels that the actions of web/src/pages/tunnels/index.tsx reach.
use nowhere_dash.Base.{
  ℕ, ◌∙◌, All, Bool, true, false, ◌&&◌, List, [], ◌∷◌, some, ◌==◌, ltb, Text, is_member, keep,
  length, ◌≡◌, refl, ap, Bool-cases, inl, inr,
}
use nowhere_dash.Tunnels.Rows.{Tunnel, ids, Page, fetch_tunnels}
use nowhere_dash.Tunnels.Actions.{
  Action, action_targets, is_target, run_batch, tunnels_of, selected_tunnels, ids_of, selected_ids,
  target_ids, close_deleted, leave_page, delete_done,
}

leave_page_targets :
    (b : Bool) (page : ℕ) (p : Page) → target_ids (leave_page b page p) ≡ target_ids p
unfolding leave_page fetch_tunnels target_ids selected_ids
leave_page_targets true page p = refl
leave_page_targets false page p = refl

-- A tunnel that is deleted by itself while its id is selected is among the targets of the next
-- deletion of the selection.
pub deleted_again :
    (p : Page) (keys : List Text) (id : Text)
    → p.selected ≡ ids keys
    → p.deleting_one ≡ some id
    → is_member id keys ≡ true
    → is_member id (target_ids (delete_done p (target_ids p) p)) ≡ true
unfolding delete_done close_deleted target_ids selected_ids ids_of
deleted_again p keys id s d m =
    ap (is_member id) (
      leave_page_targets ((length (target_ids p) == length p.tunnels) && ltb 1 p.filters.page)
        p.filters.page (close_deleted p.deleting_one p))
    ∙ rw (d, s) m

-- A tunnel of a list that is left after two tests passes both.
All-keep-keep :
    (q r : Tunnel → Bool) (ts : List Tunnel)
    → All (λ t. (q t ≡ true) × (r t ≡ true)) (keep q (keep r ts))
All-keep-keep q r [] = tt
All-keep-keep q r (t ∷ ts) = elim (Bool-cases (r t)) [
  | inl e ↦ elim (Bool-cases (q t)) [
    | inl k ↦ rw (e, k) ((k, e), All-keep-keep q r ts)
    | inr k ↦ rw (e, k) (All-keep-keep q r ts)
  ]
  | inr e ↦ rw e (All-keep-keep q r ts)
]

-- A batch on a set of ids sends its action only to tunnels that it suits and that are selected.
pub run_batch_suits :
    (action : Action) (p : Page) (keys : List Text)
    → p.selected ≡ ids keys
    → All (λ t. (is_target action t ≡ true) × (is_member t.id keys ≡ true)) (run_batch action p).1
unfolding run_batch action_targets selected_tunnels tunnels_of
run_batch_suits action p keys s = elim (Bool-cases (length (action_targets action p) == 0)) [
  | inl e ↦ rw e tt
  | inr e ↦ rw (e, s) (All-keep-keep (is_target action) (λ t. is_member t.id keys) p.tunnels)
]
