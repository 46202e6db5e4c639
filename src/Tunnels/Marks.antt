-- ===== src/Tunnels/Marks.antt =====
-- Theorems on the busy marks of web/src/pages/tunnels/index.tsx as a set.
use nowhere_dash.Base.{
  Bool, true, false, not, ◌&&◌, ◌||◌, List, [], ◌∷◌, Option, none, some, ◌==◌, Text, text_eq,
  text_eq_iff, text_eq-ne, is_member-append, ◌⊎◌, is_member, map, length, ◌≡◌, refl, sym, ap, ◌∙◌,
  arith, Bool-cases, inl, inr,
}
use nowhere_dash.Tunnels.Rows.{Tunnel, Page}
use nowhere_dash.Tunnels.Actions.{
  add_id, remove_id, mark_busy, mark_all, Action, run_batch, batch_ended, notify, action_targets,
}

or_comm : (a b : Bool) → (b || (a || false)) ≡ (a || b)
or_comm a b = ground arith

is_member-add_id :
    (k id : Text) (busy : List Text)
    → is_member k (add_id id busy) ≡ (text_eq k id || is_member k busy)
unfolding add_id
is_member-add_id k id busy = elim (Bool-cases (is_member id busy)) [
  | inl m ↦ rw m (there (Bool-cases (text_eq k id)) m)
  | inr m ↦ rw m (
      is_member-append k busy (id ∷ [])
      ∙ unfold is_member in or_comm (text_eq k id) (is_member k busy))
]
  where
    there :
        (text_eq k id ≡ true) ⊎ (text_eq k id ≡ false)
        → is_member id busy ≡ true
        → is_member k busy ≡ (text_eq k id || is_member k busy)
    there (inl e) m = rw e (ap (λ t. is_member t busy) ((text_eq_iff k id).0 e) ∙ m)
    there (inr e) m = rw e refl

is_member-remove_id :
    (k id : Text) (busy : List Text)
    → is_member k (remove_id id busy) ≡ (is_member k busy && not (text_eq k id))
unfolding remove_id is_member
is_member-remove_id k id [] = refl
is_member-remove_id k id (b ∷ busy) = elim (Bool-cases (text_eq b id)) [
  | inl e ↦ rw e (
      is_member-remove_id k id busy
      ∙ dropped (text_eq k b) (text_eq k id) (is_member k busy)
          (ap (λ t. text_eq k t) ((text_eq_iff b id).0 e)))
  | inr e ↦ rw e (
      ap (λ m. text_eq k b || m) (is_member-remove_id k id busy)
      ∙ kept (Bool-cases (text_eq k b)) e)
]
  where
    dropped : (x y m : Bool) → x ≡ y → (m && not y) ≡ ((x || m) && not y)
    dropped x y m e = ground arith

    kept :
        (text_eq k b ≡ true) ⊎ (text_eq k b ≡ false)
        → text_eq b id ≡ false
        → (text_eq k b || (is_member k busy && not (text_eq k id)))
          ≡ ((text_eq k b || is_member k busy) && not (text_eq k id))
    kept (inl q) e = rw (q, text_eq-ne k b id q, e) refl
    kept (inr q) e = rw q refl

abbrev pub ids_in : List Tunnel → List Text
ids_in ts = map (λ (t : Tunnel). t.id) ts

marked :
    (k : Text) (ts : List Tunnel) (busy : List Text)
    → is_member k (mark_all ts true busy) ≡ (is_member k (ids_in ts) || is_member k busy)
unfolding mark_all mark_busy is_member
marked k [] busy = refl
marked k (t ∷ ts) busy =
    marked k ts (add_id t.id busy)
    ∙ ap (λ m. is_member k (ids_in ts) || m) (is_member-add_id k t.id busy)
    ∙ regroup (text_eq k t.id) (is_member k (ids_in ts)) (is_member k busy)
  where
    regroup : (a b c : Bool) → (b || (a || c)) ≡ ((a || b) || c)
    regroup a b c = ground arith

freed :
    (k : Text) (ts : List Tunnel) (busy : List Text)
    → is_member k (mark_all ts false busy) ≡ (is_member k busy && not (is_member k (ids_in ts)))
unfolding mark_all mark_busy is_member
freed k [] busy = sym (whole (is_member k busy))
  where
    whole : (a : Bool) → (a && true) ≡ a
    whole a = ground arith
freed k (t ∷ ts) busy =
    freed k ts (remove_id t.id busy)
    ∙ ap (λ m. m && not (is_member k (ids_in ts))) (is_member-remove_id k t.id busy)
    ∙ regroup (text_eq k t.id) (is_member k (ids_in ts)) (is_member k busy)
  where
    regroup : (a b c : Bool) → ((c && not a) && not b) ≡ (c && not (a || b))
    regroup a b c = ground arith

run_batch-busy :
    (action : Action) (p : Page)
    → (run_batch action p).0.busy ≡ mark_all (run_batch action p).1 true p.busy
unfolding run_batch mark_all
run_batch-busy action p = elim (Bool-cases (length (action_targets action p) == 0)) [
  | inl e ↦ rw e refl
  | inr e ↦ rw e refl
]

notify-busy : (problem : Option Text) (p : Page) → (notify problem p).busy ≡ p.busy
unfolding notify
notify-busy none p = refl
notify-busy (some message) p = refl

-- While a batch runs, the tunnels that it sends its action to are busy besides those that were, and
-- when it has ended, with or without an error, exactly those are busy that were and that it did not
-- send its action to.
pub run_batch_frees :
    (action : Action) (problem : Option Text) (p : Page) (k : Text)
    → (is_member k (run_batch action p).0.busy
        ≡ (is_member k (ids_in (run_batch action p).1) || is_member k p.busy))
      × (is_member k (batch_ended (run_batch action p).1 problem (run_batch action p).0).busy
          ≡ (is_member k p.busy && not (is_member k (ids_in (run_batch action p).1))))
unfolding batch_ended
run_batch_frees action problem p k =
    let targets = (run_batch action p).1 in
    let q = (run_batch action p).0 in
    let during : is_member k q.busy ≡ (is_member k (ids_in targets) || is_member k p.busy) =
      ap (is_member k) (run_batch-busy action p) ∙ marked k targets p.busy in
    (
      during,
      ap (λ busy. is_member k (mark_all targets false busy)) (notify-busy problem q)
          ∙ freed k targets q.busy
          ∙ ap (λ m. m && not (is_member k (ids_in targets))) during
          ∙ absorb (is_member k (ids_in targets)) (is_member k p.busy),
    )
  where
    absorb : (a b : Bool) → ((a || b) && not a) ≡ (b && not a)
    absorb a b = ground arith
