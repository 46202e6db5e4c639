-- ===== src/Sync/Tests.antt =====
-- Runs of `useBidirectionalSync` with a form that is one text, and its theorems at them.
use nowhere_dash.Base.{true, false, [], ◌∷◌, ◌++◌, some, none, Text, codes, ◌≡◌, ◌≢◌, refl, arith}
use nowhere_dash.Sync.{form, Codec, returned, Sync, initial, update_form}
use nowhere_dash.Sync.Agree.{IsAgreed, Reach, here, next, form_updated, Reach-IsAgreed}
use nowhere_dash.Sync.Debounce.{edit_form, edit_form_synced, edit_form_dropped}

-- The JSON text is the form between quotes.
abbrev quoted : Codec Text
quoted = record {
  form_to_json = λ t. returned (b'"' ∷ t ++ b'"' ∷ []);
  json_to_form = λ t. returned t;
  validate_json = none;
  stringify = λ t. t;
}

abbrev fresh : Sync Text
fresh = initial [] (codes "\"\"")

abbrev edited : Sync Text
edited = update_form quoted (λ t. codes "a") fresh

edited-Reach : Reach quoted fresh edited
edited-Reach = next here (form_updated (λ t. codes "a"))

edited_source : edited.sync_source ≡ some form
unfolding update_form
edited_source = refl

fresh_source : fresh.sync_source ≢ some form
fresh_source = ground arith

Reach-IsAgreed_example : IsAgreed edited
Reach-IsAgreed_example = Reach-IsAgreed quoted edited-Reach

edit_form_synced_example :
    ((edit_form quoted (λ t. codes "ab") edited).json_text ≡ codes "\"ab\"")
    × ((edit_form quoted (λ t. codes "ab") edited).is_form_dirty ≡ false)
edit_form_synced_example = edit_form_synced quoted (λ t. codes "ab") edited-Reach edited_source refl

edit_form_dropped_example :
    ((edit_form quoted (λ t. codes "a") fresh).json_text ≡ codes "\"\"")
    × ((edit_form quoted (λ t. codes "a") fresh).form_data ≡ codes "a")
    × ((edit_form quoted (λ t. codes "a") fresh).is_form_dirty ≡ true)
edit_form_dropped_example = edit_form_dropped quoted fresh (λ t. codes "a") fresh_source

edited_json : quoted.form_to_json edited.form_data ≡ returned (codes "\"a\"")
unfolding update_form
edited_json = refl
