-- ===== src/Sync.antt =====
-- The hook `useBidirectionalSync` of web/src/lib/hooks/use-bidirectional-sync.ts. React callbacks
-- and timers hold `syncSource` and `error` as they were when the callback was created; a call made
-- by the user runs the callback of the last render, so it holds those of the state at its start.
pub mod Agree
pub mod Debounce
mod Tests
use nowhere_dash.Base.{
  ℕ, Bool, true, false, not, ◌&&◌, ◌||◌, List, [], ◌∷◌, ◌++◌, Option, none, some, if◌then◌else◌,
  Text, codes, text_eq, text_or,
}

pub data Source : Type 0 where
  form json : Source

-- What a caller's function did; an exception that is no `Error` has no message.
pub data Outcome (A : Type 0) : Type 0 where
  returned : A → Outcome A
  threw : Option Text → Outcome A

-- The functions that the hook is given. `validate_json` is optional, and gives its verdict and its
-- error text; `stringify` is `JSON.stringify` on the form data.
pub record Codec (T : Type 0) : Type 0 where
  pub form_to_json : T → Outcome Text
  pub json_to_form : Text → Outcome T
  pub validate_json : Option (Text → Outcome (Bool × Text))
  pub stringify : T → Text

-- A pending timer with what its closure holds.
pub record Timer (A : Type 0) : Type 0 where
  pub seen_source : Option Source
  pub seen_error : Option Text
  pub value : A

-- `last_form` and `last_json` are the refs; `reported` lists the calls of `onError`.
pub record Sync (T : Type 0) : Type 0 where
  pub form_data : T
  pub json_text : Text
  pub error : Option Text
  pub sync_source : Option Source
  pub is_form_dirty : Bool
  pub is_json_dirty : Bool
  pub form_timer : Option (Timer T)
  pub json_timer : Option (Timer Text)
  pub last_form : T
  pub last_json : Text
  pub reported : List Text

abbrev pub is_form : Option Source → Bool
is_form (some form) = true
is_form _ = false

abbrev pub is_json : Option Source → Bool
is_json (some json) = true
is_json _ = false

-- The truth value of `error`.
abbrev pub has_error : Option Text → Bool
has_error (some (c ∷ s)) = true
has_error _ = false

-- `err instanceof Error ? err.message : fallback`.
abbrev pub message_of : Option Text → Text → Text
message_of none fallback = fallback
message_of (some m) fallback = m

module _ {T : Type 0} where
  unfoldable pub handle_error : Text → Sync T → Sync T
  handle_error message s = record s { error = some message; reported = s.reported ++ message ∷ [] }

  -- `clearError`, with `error` as its closure holds it.
  unfoldable pub clear_error : Option Text → Sync T → Sync T
  clear_error seen s = if has_error seen then record s { error = none } else s

  unfoldable pub accept_json : Option Text → Outcome Text → Sync T → Sync T
  unfolding handle_error clear_error
  accept_json seen (returned text) s =
      if text_eq text s.last_json
      then s
      else clear_error seen (record s { json_text = text; last_json = text })
  accept_json seen (threw m) s =
      handle_error (message_of m (codes "Failed to convert form to JSON")) s

  abbrev pub no_timers : Sync T → Sync T
  no_timers s = record s { form_timer = none; json_timer = none }

module _ {T : Type 0} (codec : Codec T) where
  unfoldable pub sync_form_to_json : Option Text → T → Sync T → Sync T
  unfolding accept_json
  sync_form_to_json seen value s = accept_json seen (codec.form_to_json value) s

  unfoldable pub accept_form : Option Text → Outcome T → Sync T → Sync T
  unfolding handle_error clear_error
  accept_form seen (returned value) s =
      if text_eq (codec.stringify value) (codec.stringify s.last_form)
      then s
      else clear_error seen (record s { form_data = value; last_form = value })
  accept_form seen (threw m) s =
      handle_error (message_of m (codes "Failed to convert JSON to form")) s

  -- The verdict of the validator, or its exception.
  unfoldable pub accept_verdict : Option Text → Text → Outcome (Bool × Text) → Sync T → Sync T
  unfolding handle_error accept_form
  accept_verdict seen text (returned (valid, error)) s =
      if valid
      then accept_form seen (codec.json_to_form text) s
      else handle_error (text_or error (codes "Invalid JSON format")) s
  accept_verdict seen text (threw m) s =
      handle_error (message_of m (codes "Failed to convert JSON to form")) s

  unfoldable pub sync_json_to_form : Option Text → Text → Sync T → Sync T
  unfolding accept_verdict accept_form
  sync_json_to_form seen text s = elim codec.validate_json [
    | none ↦ accept_form seen (codec.json_to_form text) s
    | some validate ↦ accept_verdict seen text (validate text) s
  ]

  -- A new edit replaces the pending timer.
  unfoldable pub update_form : (T → T) → Sync T → Sync T
  update_form updater s =
      let value = updater s.form_data in
      record s {
        is_form_dirty = true;
        sync_source = some form;
        form_data = value;
        last_form = value;
        form_timer =
            some (record { seen_source = s.sync_source; seen_error = s.error; value = value });
      }

  unfoldable pub update_json : Text → Sync T → Sync T
  update_json text s = record s {
    is_json_dirty = true;
    sync_source = some json;
    json_text = text;
    last_json = text;
    json_timer = some (record { seen_source = s.sync_source; seen_error = s.error; value = text });
  }

  -- The form timer runs.
  unfoldable pub fire_form : Option (Timer T) → Sync T → Sync T
  unfolding sync_form_to_json
  fire_form none s = s
  fire_form (some t) s =
      let s' = record s { form_timer = none } in
      if is_form t.seen_source
      then record (sync_form_to_json t.seen_error t.value s') { is_form_dirty = false }
      else s'

  unfoldable pub fire_json : Option (Timer Text) → Sync T → Sync T
  unfolding sync_json_to_form
  fire_json none s = s
  fire_json (some t) s =
      let s' = record s { json_timer = none } in
      if is_json t.seen_source
      then record (sync_json_to_form t.seen_error t.value s') { is_json_dirty = false }
      else s'

  unfoldable pub force_sync : Source → Sync T → Sync T
  unfolding sync_form_to_json sync_json_to_form
  force_sync form s =
      record (sync_form_to_json s.error s.form_data
        (record (no_timers s) { sync_source = some form })) { is_form_dirty = false }
  force_sync json s =
      record (sync_json_to_form s.error s.json_text
        (record (no_timers s) { sync_source = some json })) { is_json_dirty = false }

  -- `initial_text` is `formToJson(initialData)`, which the first render needs as well.
  unfoldable pub reset_sync : T → Text → Sync T → Sync T
  reset_sync initial_data initial_text s = record (no_timers s) {
    form_data = initial_data;
    json_text = initial_text;
    error = none;
    sync_source = none;
    is_form_dirty = false;
    is_json_dirty = false;
    last_form = initial_data;
    last_json = initial_text;
  }

abbrev pub initial : {T : Type 0} → T → Text → Sync T
initial data' text = record {
  form_data = data';
  json_text = text;
  error = none;
  sync_source = none;
  is_form_dirty = false;
  is_json_dirty = false;
  form_timer = none;
  json_timer = none;
  last_form = data';
  last_json = text;
  reported = [];
}
