-- ===== src/Sync/Agree.antt =====
-- Theorems on the refs of `useBidirectionalSync`.
use nowhere_dash.Base.{Option, ◌≡◌, arith, Text}
use nowhere_dash.Sync.{
  Source, form, json, Outcome, Codec, Timer, Sync, initial, sync_json_to_form, update_form,
  update_json, fire_form, fire_json, force_sync, reset_sync, accept_json,
}

module _ {T : Type 0} where
  -- The refs hold what is rendered.
  pub record IsAgreed (s : Sync T) : Type 0 where
    pub form_agrees : s.last_form ≡ s.form_data
    pub json_agrees : s.last_json ≡ s.json_text

  accept_json-IsAgreed :
      (seen : Option Text) (o : Outcome Text) {s : Sync T}
      → IsAgreed s
      → IsAgreed (accept_json seen o s)
  unfolding accept_json
  accept_json-IsAgreed seen o h = ground arith

module _ {T : Type 0} (codec : Codec T) where
  sync_json_to_form-IsAgreed :
      (seen : Option Text) (text : Text) {s : Sync T}
      → IsAgreed s
      → IsAgreed (sync_json_to_form codec seen text s)
  unfolding sync_json_to_form
  sync_json_to_form-IsAgreed seen text h = ground arith

  -- The operations of the hook and the two timers.
  pub data Step (s : Sync T) : Sync T → Type 0 where
    form_updated : (updater : T → T) → Step s (update_form codec updater s)
    json_updated : (text : Text) → Step s (update_json codec text s)
    form_fired : Step s (fire_form codec s.form_timer s)
    json_fired : Step s (fire_json codec s.json_timer s)
    forced : (source : Source) → Step s (force_sync codec source s)
    was_reset : (d : T) (text : Text) → Step s (reset_sync codec d text s)

  pub data Reach (s : Sync T) : Sync T → Type 0 where
    here : Reach s s
    next : {t u : Sync T} → Reach s t → Step t u → Reach s u

  fire_form-IsAgreed :
      (t : Option (Timer T)) {s : Sync T} → IsAgreed s → IsAgreed (fire_form codec t s)
  unfolding fire_form
  fire_form-IsAgreed t h = ground arith

  fire_json-IsAgreed :
      (t : Option (Timer Text)) {s : Sync T} → IsAgreed s → IsAgreed (fire_json codec t s)
  unfolding fire_json
  fire_json-IsAgreed t h = ground arith

  force_sync-IsAgreed :
      (source : Source) {s : Sync T} → IsAgreed s → IsAgreed (force_sync codec source s)
  unfolding force_sync
  force_sync-IsAgreed form h = ground arith
  force_sync-IsAgreed json h = ground arith

  Step-IsAgreed : {s t : Sync T} → Step s t → IsAgreed s → IsAgreed t
  unfolding update_form update_json reset_sync
  Step-IsAgreed (form_updated updater) h = ground arith
  Step-IsAgreed (json_updated text) h = ground arith
  Step-IsAgreed {s} form_fired h = fire_form-IsAgreed s.form_timer h
  Step-IsAgreed {s} json_fired h = fire_json-IsAgreed s.json_timer h
  Step-IsAgreed (forced source) h = force_sync-IsAgreed source h
  Step-IsAgreed (was_reset d text) h = ground arith

  -- Whatever edits, timers, forced syncs and resets happen, in whatever order, `lastFormDataRef`
  -- and `lastJsonTextRef` hold the rendered form data and JSON text.
  pub Reach-IsAgreed : {d : T} {text : Text} {s : Sync T} → Reach (initial d text) s → IsAgreed s
  Reach-IsAgreed here = ground arith
  Reach-IsAgreed (next r step) = Step-IsAgreed step (Reach-IsAgreed r)
