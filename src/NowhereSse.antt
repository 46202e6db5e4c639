-- ===== src/NowhereSse.antt =====
-- The hook `useNowhereSSE` of web/src/lib/hooks/use-nowhere-sse.ts. A callback reads
-- `isConnecting` and `endpoint` as they were when it was created, which is the state in which the
-- user's action is handled: each callback takes them from the state at its start.
pub mod Sources
mod Tests
use nowhere_dash.Base.{
  remove, held, mem, ℕ, ◌+◌, Bool, true, false, not, ◌&&◌, ◌||◌, List, [], ◌∷◌, ◌++◌, Option, none,
  some, ◌==◌, if◌then◌else◌, Text, codes, text_eq, truthy,
}

pub record Endpoint : Type 0 where
  pub url : Text
  pub api_path : Text
  pub api_key : Text

pub data Problem : Type 0 where
  invalid_endpoint connection_failed : Problem
  reported : Text → Problem

-- The data of an event: no JSON, the JSON `null`, or a value with its `type` and `message`. The
-- flag of a value tells whether the caller's `onMessage` throws on it.
pub data Payload : Type 0 where
  unreadable null_json : Text → Payload
  value : (raw kind message : Text) (throws : Bool) → Payload

pub data Call : Type 0 where
  on_connected on_disconnected on_error : Call
  on_value on_log : Text → Call

-- `source` is `eventSourceRef`, `controller` the source that `abortControllerRef` closes, and
-- `listeners` the keys of `eventListenersRef`. `open_sources` are those not closed yet.
pub record Stream : Type 0 where
  pub endpoint : Option Endpoint
  pub is_connected : Bool
  pub is_connecting : Bool
  pub error : Option Problem
  pub source : Option ℕ
  pub controller : Option ℕ
  pub listeners : List Text
  pub made : ℕ
  pub open_sources : List ℕ
  pub calls : List Call

abbrev pub initial : Option Endpoint → Stream
initial endpoint = record {
  endpoint = endpoint;
  is_connected = false;
  is_connecting = false;
  error = none;
  source = none;
  controller = none;
  listeners = [];
  made = 0;
  open_sources = [];
  calls = [];
}

abbrev pub call : Call → Stream → Stream
call c s = record s { calls = s.calls ++ c ∷ [] }

-- The first two steps of `cleanup`: the listeners, if there is a source, and the source.
unfoldable pub close_source : Option ℕ → Stream → Stream
unfolding remove
close_source none s = s
close_source (some k) s = record s {
  listeners = [];
  source = none;
  open_sources = remove k s.open_sources;
}

-- The last step of `cleanup`.
unfoldable pub abort : Option ℕ → Stream → Stream
unfolding remove
abort none s = s
abort (some k) s = record s { controller = none; open_sources = remove k s.open_sources }

unfoldable pub cleanup : Stream → Stream
unfolding close_source abort
cleanup s = let s' = close_source s.source s in abort s'.controller s'

abbrev pub custom_event_types : List Text
custom_event_types = codes "instance" ∷ codes "tunnel" ∷ codes "stats" ∷ []

-- The `try` block of `connect` from `new EventSource` on, or its `catch` with the error's text.
unfoldable pub open_source : Option Text → Stream → Stream
open_source none s = record s {
  source = some s.made;
  controller = some s.made;
  listeners = custom_event_types;
  made = s.made + 1;
  open_sources = s.made ∷ s.open_sources;
}
open_source (some message) s =
    call on_error
      (record s { is_connecting = false; is_connected = false; error = some (reported message) })

abbrev pub is_some {ℓ} : {A : Type ℓ} → Option A → Bool
is_some none = false
is_some (some a) = true

-- `connect`; the first argument is `isConnecting` as the closure holds it, the second the error of
-- the `try` block, if it throws.
unfoldable pub connect : Bool → Option Text → Endpoint → Stream → Stream
unfolding cleanup open_source
connect seen failure e s =
    if seen || is_some s.source
    then s
    else if not (truthy e.url) || not (truthy e.api_path) || not (truthy e.api_key)
    then record s { error = some invalid_endpoint }
    else open_source failure (record (cleanup s) { is_connecting = true; error = none })

unfoldable pub handle_open : Stream → Stream
handle_open s =
    call on_connected (record s { is_connected = true; is_connecting = false; error = none })

-- What `processEvent` does behind a call of `onMessage` that returned.
unfoldable pub handle_kind : Text → Text → Stream → Stream
handle_kind kind message s =
    if text_eq kind (codes "connected")
    then record s { is_connected = true; is_connecting = false; error = none }
    else if text_eq kind (codes "error")
    then record s { is_connected = false; is_connecting = false; error = some (reported message) }
    else s

-- `processEvent`. An exception inside the `try` block, be it of `JSON.parse`, of `data.type` on
-- `null` or of the caller's `onMessage`, leads to a call with the raw text as a log.
unfoldable pub process_event : Payload → Stream → Stream
unfolding handle_kind
process_event (unreadable raw) s = call (on_log raw) s
process_event (null_json raw) s = call (on_log raw) s
process_event (value raw kind message throws) s =
    let told = call (on_value raw) s in
    if throws then call (on_log raw) told else handle_kind kind message told

unfoldable pub handle_error : Stream → Stream
unfolding cleanup
handle_error s = call on_disconnected (
    call on_error (
      cleanup
        (record s { is_connecting = false; is_connected = false; error = some connection_failed })))

unfoldable pub connect_manually : Option Text → Option Endpoint → Stream → Stream
unfolding connect
connect_manually failure none s = s
connect_manually failure (some e) s =
    if s.is_connecting then s else connect s.is_connecting failure e s

unfoldable pub disconnect : Stream → Stream
unfolding cleanup
disconnect s = record (cleanup s) { is_connected = false; is_connecting = false; error = none }

-- `connect` is called with `isConnecting` as it was when `reconnect` was created.
unfoldable pub reconnect : Option Text → Option Endpoint → Stream → Stream
unfolding connect cleanup
reconnect failure none s = s
reconnect failure (some e) s =
    if s.is_connecting
    then s
    else connect s.is_connecting failure e (record (cleanup s) { error = none })

unfoldable pub unmount : Stream → Stream
unfolding cleanup
unmount s = record (cleanup s) { is_connected = false }
