-- ===== src/Auth/Gate.antt =====
-- `SetupGate` of web/src/components/setup/setup-gate.tsx.
use nowhere_dash.Base.{Bool, true, false, not, [], if◌then◌else◌, Text, codes, text_eq}

pub data Phase : Type 0 where
  checking ready needs_setup failed : Phase

pub record Gate : Type 0 where
  pub phase : Phase
  pub message : Text
  pub pathname : Text

-- The answer to `fetchSetupStatus`: whether the server is in setup mode, or an error's message.
pub data Status : Type 0 where
  setup_mode : Bool → Status
  broken : Text → Status

-- `runCheck` up to its `await`.
unfoldable pub run_check : Gate → Gate
run_check g = record g { phase = checking; message = [] }

-- The rest of `runCheck`; the path is the one that its closure holds.
unfoldable pub checked : Text → Status → Gate → Gate
unfolding text_eq
checked path (setup_mode true) g = record g {
  phase = needs_setup;
  pathname = (if not (text_eq path (codes "/setup")) then codes "/setup" else g.pathname);
}
checked path (setup_mode false) g = record g {
  phase = ready;
  pathname = (if text_eq path (codes "/setup") then codes "/login" else g.pathname);
}
checked path (broken message) g = record g { phase = failed; message = message }
