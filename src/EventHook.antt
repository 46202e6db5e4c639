-- ===== src/EventHook.antt =====
-- `useTunnelSSE` and `useSSE` of web/src/lib/hooks/use-sse.ts: the effect, its cleanup and the
-- handlers of its `EventSource`. React runs the cleanup of an effect before the effect runs again.
pub mod Leaks
mod Tests
use nowhere_dash.Base.{
  remove, held, mem, ℕ, ◌+◌, Bool, true, false, not, ◌&&◌, List, [], ◌∷◌, ◌++◌, Option, none, some,
  ◌==◌, if◌then◌else◌, Text, codes, text_eq, truthy,
}

-- The data of an event: no JSON, the JSON `null`, or another value with its text and its `type`.
pub data Payload : Type 0 where
  unreadable : Payload
  null_json : Text → Payload
  value : (raw kind : Text) → Payload

pub data Call : Type 0 where
  on_connected on_error : Call
  on_message : Text → Call

-- `source` is `eventSourceRef`; `cleanup` is the interval that the cleanup of the last effect holds,
-- if that effect returned one. `open_sources` and `timers` are those not closed or cleared.
pub record Hook : Type 0 where
  pub source : Option ℕ
  pub mounted : Bool
  pub cleanup : Option ℕ
  pub made : ℕ
  pub open_sources : List ℕ
  pub timers : List ℕ
  pub calls : List Call

abbrev pub initial : Hook
initial = record {
  source = none;
  mounted = true;
  cleanup = none;
  made = 0;
  open_sources = [];
  timers = [];
  calls = [];
}

-- `eventSourceRef.current.close(); eventSourceRef.current = null;`, if there is a source.
unfoldable pub close_source : Option ℕ → Hook → Hook
unfolding remove
close_source none h = h
close_source (some k) h = record h { source = none; open_sources = remove k h.open_sources }

-- The function that the effect returned.
unfoldable pub run_cleanup : Option ℕ → Hook → Hook
unfolding close_source remove
run_cleanup none h = h
run_cleanup (some k) h =
    close_source h.source (record h { mounted = false; cleanup = none; timers = remove k h.timers })

-- `!instanceId || options.enabled === false`.
abbrev pub is_off : Text → Option Bool → Bool
is_off instance_id (some false) = true
is_off instance_id _ = not (truthy instance_id)

-- The effect of `useTunnelSSE`.
unfoldable pub tunnel_effect : Text → Option Bool → Hook → Hook
unfolding close_source
tunnel_effect instance_id enabled h =
    if is_off instance_id enabled then close_source h.source h else record h {
      source = some h.made;
      mounted = true;
      cleanup = some h.made;
      made = h.made + 1;
      open_sources = h.made ∷ h.open_sources;
      timers = h.made ∷ h.timers;
    }

-- The effect of `useSSE`, which has no interval: the number in `cleanup` is that of the source.
unfoldable pub endpoint_effect : Hook → Hook
endpoint_effect h = record h {
  source = some h.made;
  mounted = true;
  cleanup = some h.made;
  made = h.made + 1;
  open_sources = h.made ∷ h.open_sources;
}

-- A render with other dependencies.
unfoldable pub rerun_tunnel : Text → Option Bool → Hook → Hook
unfolding run_cleanup tunnel_effect
rerun_tunnel instance_id enabled h = tunnel_effect instance_id enabled (run_cleanup h.cleanup h)

unfoldable pub rerun_endpoint : Hook → Hook
unfolding run_cleanup endpoint_effect
rerun_endpoint h = endpoint_effect (run_cleanup h.cleanup h)

abbrev pub call : Call → Hook → Hook
call c h = record h { calls = h.calls ++ c ∷ [] }

-- `onmessage` of `useTunnelSSE`. An exception, of `JSON.parse`, of `data.type` on `null` or of a
-- callback, is only logged.
unfoldable pub tunnel_message : Payload → Hook → Hook
tunnel_message unreadable h = h
tunnel_message (null_json raw) h = h
tunnel_message (value raw kind) h =
    if not h.mounted
    then h
    else if text_eq kind (codes "connected")
    then call on_connected h
    else call (on_message raw) h

-- `onmessage` of `useSSE`, which does not look into the value.
unfoldable pub endpoint_message : Payload → Hook → Hook
endpoint_message unreadable h = h
endpoint_message (null_json raw) h = if h.mounted then call (on_message raw) h else h
endpoint_message (value raw kind) h = if h.mounted then call (on_message raw) h else h

-- `onopen` of `useSSE`.
unfoldable pub endpoint_open : Hook → Hook
endpoint_open h = if h.mounted then call on_connected h else h

-- `onerror`.
unfoldable pub handle_error : Hook → Hook
handle_error h = if h.mounted then call on_error h else h
