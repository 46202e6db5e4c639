-- ===== src/NowhereSse/Sources.antt =====
-- Theorems on the sources of `useNowhereSSE` over every sequence of actions and events.
use nowhere_dash.Base.{
  remove, held, mem, ℕ, true, false, ◌&&◌, List, [], ◌∷◌, Option, none, some, ◌≡◌, ◌≢◌, arith, Text,
  truthy,
}
use nowhere_dash.NowhereSse.{
  Stream, Endpoint, Payload, initial, custom_event_types, handle_open, process_event, handle_error,
  connect_manually, disconnect, reconnect, unmount,
}

abbrev pub registered : Option ℕ → List Text
registered none = []
registered (some k) = custom_event_types

-- No source but the current one is open, the abort controller and the listener table go with the
-- source, and a hook that is connecting has a source.
pub record IsOwned (s : Stream) : Type 0 where
  pub owned : s.open_sources ≡ held s.source
  pub aborts : s.controller ≡ s.source
  pub listening : s.listeners ≡ registered s.source
  pub pending : s.is_connecting ≡ true → s.source ≢ none

-- An event reaches the hook only from a source that is not closed.
pub data Step (s : Stream) : Stream → Type 0 where
  endpoint_given : (e : Option Endpoint) → Step s (record s { endpoint = e })
  connect_called : (failure : Option Text) → Step s (connect_manually failure s.endpoint s)
  disconnect_called : Step s (disconnect s)
  reconnect_called : (failure : Option Text) → Step s (reconnect failure s.endpoint s)
  opened : (k : ℕ) → mem k s.open_sources ≡ true → Step s (handle_open s)
  received : (k : ℕ) (p : Payload) → mem k s.open_sources ≡ true → Step s (process_event p s)
  failed : (k : ℕ) → mem k s.open_sources ≡ true → Step s (handle_error s)

pub data Reach (s : Stream) : Stream → Type 0 where
  here : Reach s s
  next : {t u : Stream} → Reach s t → Step t u → Reach s u

connect_manually-IsOwned :
    (failure : Option Text) (e : Option Endpoint) {s : Stream}
    → IsOwned s
    → IsOwned (connect_manually failure e s)
unfolding connect_manually remove
connect_manually-IsOwned failure none h = h
connect_manually-IsOwned failure (some e) h = ground arith

reconnect-IsOwned :
    (failure : Option Text) (e : Option Endpoint) {s : Stream}
    → IsOwned s
    → IsOwned (reconnect failure e s)
unfolding reconnect remove
reconnect-IsOwned failure none h = h
reconnect-IsOwned failure (some e) h = ground arith

process_event-IsOwned :
    (k : ℕ) (p : Payload) {s : Stream}
    → mem k s.open_sources ≡ true
    → IsOwned s
    → IsOwned (process_event p s)
unfolding process_event
process_event-IsOwned k p m h = ground arith

Step-IsOwned : {s t : Stream} → Step s t → IsOwned s → IsOwned t
unfolding disconnect handle_open handle_error remove
Step-IsOwned (endpoint_given e) h = ground arith
Step-IsOwned {s} (connect_called failure) h = connect_manually-IsOwned failure s.endpoint h
Step-IsOwned disconnect_called h = ground arith
Step-IsOwned {s} (reconnect_called failure) h = reconnect-IsOwned failure s.endpoint h
Step-IsOwned (opened k m) h = ground arith
Step-IsOwned (received k p m) h = process_event-IsOwned k p m h
Step-IsOwned (failed k m) h = ground arith

-- In every state that a mounted hook can reach, no source but the current one is open, the controller
-- and the listeners go with it, and a hook that is connecting has a source.
pub Reach-IsOwned : {e : Option Endpoint} {s : Stream} → Reach (initial e) s → IsOwned s
Reach-IsOwned here = ground arith
Reach-IsOwned (next r step) = Step-IsOwned step (Reach-IsOwned r)

-- Unmounting closes whatever source is left and empties the listener table.
pub unmount_releases :
    {e : Option Endpoint} {s : Stream}
    → Reach (initial e) s
    → ((unmount s).open_sources ≡ []) × ((unmount s).listeners ≡ []) × ((unmount s).source ≡ none)
unfolding unmount remove
unmount_releases r = let h = Reach-IsOwned r in ground arith

-- In every reachable state that is not connecting, `reconnect` on a complete endpoint ends in one
-- fresh open source; if creating it throws, it ends in an error with no source and nothing open.
pub reconnect_fresh :
    {e : Option Endpoint} {s : Stream} (x : Endpoint) (failure : Text)
    → Reach (initial e) s
    → s.is_connecting ≡ false
    → (truthy x.url && truthy x.api_path && truthy x.api_key) ≡ true
    → ((reconnect none (some x) s).source ≡ some s.made)
      × ((reconnect none (some x) s).open_sources ≡ s.made ∷ [])
      × ((reconnect none (some x) s).is_connecting ≡ true)
      × ((reconnect (some failure) (some x) s).source ≡ none)
      × ((reconnect (some failure) (some x) s).open_sources ≡ [])
      × ((reconnect (some failure) (some x) s).error ≢ none)
unfolding reconnect remove
reconnect_fresh x failure r idle full = let h = Reach-IsOwned r in ground arith

-- `reconnect` does not take back `isConnected`. A connected hook in a reachable state whose key
-- has become empty closes its source and still says that it is connected.
pub reconnect_incomplete :
    {e : Option Endpoint} {s : Stream} (x : Endpoint) (failure : Option Text)
    → Reach (initial e) s
    → s.is_connected ≡ true
    → s.is_connecting ≡ false
    → truthy x.api_key ≡ false
    → ((reconnect failure (some x) s).is_connected ≡ true)
      × ((reconnect failure (some x) s).source ≡ none)
      × ((reconnect failure (some x) s).open_sources ≡ [])
unfolding reconnect remove
reconnect_incomplete x failure r up idle lacks = let h = Reach-IsOwned r in ground arith
