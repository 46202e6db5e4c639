-- ===== src/Sync/Debounce.antt =====
-- Theorems on the two timers and `forceSync` of `useBidirectionalSync`.
use nowhere_dash.Base.{true, false, none, some, ◌≡◌, ◌≢◌, arith, Text, text_eq_iff}
use nowhere_dash.Sync.{form, returned, Codec, Sync, initial, update_form, fire_form, force_sync}
use nowhere_dash.Sync.Agree.{Reach, Reach-IsAgreed}

module _ {T : Type 0} (codec : Codec T) where
  -- A form edit, and its timer running.
  abbrev pub edit_form : (T → T) → Sync T → Sync T
  edit_form u s = let e = update_form codec u s in fire_form codec e.form_timer e

  -- In a reachable state whose `syncSource` is the form, a form edit is synced if the conversion
  -- returns: when its timer has run, the JSON text is the conversion of the edited data
  -- and the form is no longer dirty.
  pub edit_form_synced :
      {d : T} {text t : Text} {s : Sync T} (u : T → T)
      → Reach codec (initial d text) s
      → s.sync_source ≡ some form
      → codec.form_to_json (u s.form_data) ≡ returned t
      → ((edit_form u s).json_text ≡ t) × ((edit_form u s).is_form_dirty ≡ false)
  unfolding update_form fire_form
  edit_form_synced {t} {s} u r src e =
      let h = Reach-IsAgreed codec r in ground (arith, text_eq_iff t s.last_json)

  -- A form edit in a state whose `syncSource` is not the form is not synced: when its timer has run,
  -- the JSON text is the old one and the form is still dirty.
  pub edit_form_dropped :
      (s : Sync T) (u : T → T)
      → s.sync_source ≢ some form
      → ((edit_form u s).json_text ≡ s.json_text)
        × ((edit_form u s).form_data ≡ u s.form_data)
        × ((edit_form u s).is_form_dirty ≡ true)
  unfolding update_form fire_form
  edit_form_dropped s u src = ground arith

  -- In every reachable state `forceSync("form")` brings the JSON text up to date if the conversion
  -- returns, and leaves the form clean and no timer pending.
  pub force_sync_form :
      {d : T} {text t : Text} {s : Sync T}
      → Reach codec (initial d text) s
      → codec.form_to_json s.form_data ≡ returned t
      → ((force_sync codec form s).json_text ≡ t)
        × ((force_sync codec form s).is_form_dirty ≡ false)
        × ((force_sync codec form s).form_timer ≡ none)
        × ((force_sync codec form s).json_timer ≡ none)
  unfolding force_sync
  force_sync_form {t} {s} r e =
      let h = Reach-IsAgreed codec r in ground (arith, text_eq_iff t s.last_json)
