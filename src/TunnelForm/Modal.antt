-- ===== src/TunnelForm/Modal.antt =====
-- The modal around the form: its load effect, split at each `await`, and `submit`, in
-- web/src/components/tunnels/simple-create-tunnel-modal.tsx.
use nowhere_dash.Base.{
  ℕ, ◌+◌, Bool, true, false, not, ◌||◌, List, [], ◌∷◌, ◌++◌, Option, none, some, ◌==◌,
  if◌then◌else◌, Text, truthy,
}
use nowhere_dash.Portal.Endpoint.{ServiceEndpoint}
use nowhere_dash.TunnelForm.Fields.{PortalForm, Web, Loaded, initial_form, new_form, edit_form}
use nowhere_dash.TunnelForm.Check.{Payload, Checked, passed, thrown, Problem, prepare}

pub data Mode : Type 0 where
  create : Mode
  edit : Text → Mode

pub data Notice : Type 0 where
  success : Notice
  refused : Problem → Notice
  failed : Text → Notice

-- `current` is the run of the effect whose controller was not aborted, with a number for each run;
-- `nodes` holds the ids of the nodes, `closings` and `savings` count the calls of the props.
pub record Modal : Type 0 where
  pub mode : Mode
  pub nodes : List Text
  pub form : PortalForm
  pub real_tunnel_id : Text
  pub loading : Bool
  pub submitting : Bool
  pub advanced_open : Bool
  pub show_shared_key : Bool
  pub current : Option ℕ
  pub made : ℕ
  pub notices : List Notice
  pub closings : ℕ
  pub savings : ℕ

-- The effect on an open modal, up to its first `await`, and its cleanup.
unfoldable pub load : Modal → Modal
load m = record m {
  form = initial_form;
  real_tunnel_id = [];
  loading = true;
  advanced_open = false;
  show_shared_key = false;
  current = some m.made;
  made = m.made + 1;
}

unfoldable pub abort : Modal → Modal
abort m = record m { current = none }

-- `!signal.aborted`.
abbrev pub is_current : Option ℕ → ℕ → Bool
is_current none run = false
is_current (some k) run = k == run

-- The `catch` and `finally` of a run that was not aborted.
unfoldable pub load_failed : Text → Modal → Modal
load_failed message m = record m { notices = m.notices ++ failed message ∷ []; loading = false }

-- An answer that is ok, or the message of the error.
pub data Answer {ℓ} (A : Type ℓ) : Type ℓ where
  arrived : A → Answer A
  broken : Text → Answer A

-- What the random numbers were for a new form.
pub record Random : Type 0 where
  pub port : ℕ
  pub bytes : List ℕ

abbrev pub after_nodes : Mode → Random → List Text → Modal → Modal
after_nodes create r nodes m = record m {
  nodes = nodes;
  form = new_form nodes r.port r.bytes;
  loading = false;
}
after_nodes (edit []) r nodes m = record m {
  nodes = nodes;
  form = new_form nodes r.port r.bytes;
  loading = false;
}
after_nodes (edit (c ∷ id)) r nodes m = record m { nodes = nodes }

-- The answer to the request for the nodes.
unfoldable pub nodes_answered : ℕ → Random → Answer (List Text) → Modal → Modal
unfolding load_failed
nodes_answered run r answer m = if not (is_current m.current run) then m else elim answer [
  | broken message ↦ load_failed message m
  | arrived nodes ↦ after_nodes m.mode r nodes m
]

-- A loaded tunnel: its id, its fields, its listener and the text of its tags.
pub record Details : Type 0 where
  pub id : Text
  pub loaded : Loaded
  pub endpoint : ServiceEndpoint
  pub tags_text : Text

module _ (web : Web) where
  -- The answer to the request for the tunnel.
  unfoldable pub details_answered : ℕ → Answer Details → Modal → Modal
  unfolding load_failed edit_form
  details_answered run answer m = if not (is_current m.current run) then m else elim answer [
    | broken message ↦ load_failed message m
    | arrived d ↦ record m {
      real_tunnel_id = d.id;
      form = edit_form web d.loaded d.endpoint d.tags_text;
      loading = false;
    }
  ]

  abbrev pub lacks_tunnel : Mode → Text → Bool
  lacks_tunnel create id = false
  lacks_tunnel (edit instance_id) id = not (truthy id)

  -- `submit` up to its `await`, with the body that it sends.
  unfoldable pub submit_checked : Checked Payload → Modal → Modal × Option Payload
  submit_checked (thrown p) m =
      (record m { notices = m.notices ++ refused p ∷ []; submitting = false }, none)
  submit_checked (passed body) m = (record m { submitting = true }, some body)

  unfoldable pub submit : Modal → Modal × Option Payload
  unfolding submit_checked
  submit m =
      if m.loading || m.submitting || lacks_tunnel m.mode m.real_tunnel_id
      then (m, none)
      else submit_checked (prepare web m.form) m

-- The rest of `submit`: `none` is an answer that is ok, `some` the message of an error.
unfoldable pub answered : Option Text → Modal → Modal
answered none m = record m {
  notices = m.notices ++ success ∷ [];
  closings = m.closings + 1;
  savings = m.savings + 1;
  submitting = false;
}
answered (some message) m = record m {
  notices = m.notices ++ failed message ∷ [];
  submitting = false;
}
