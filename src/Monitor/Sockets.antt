-- ===== src/Monitor/Sockets.antt =====
-- Theorems on the sockets of `useTunnelMonitorWS` under its callbacks and the socket's events.
use nowhere_dash.Base.{
  remove, held, mem, ℕ, Bool, true, false, ◌&&◌, [], ◌∷◌, Option, none, some, ◌≡◌, ◌≢◌, arith, Text,
  truthy,
}
use nowhere_dash.Monitor.{
  Monitor, Message, initial, disconnect, connect, reconnect, handle_open, handle_message,
  handle_error, handle_close, instance_effect, unmount,
}

-- Every socket on which `close` was not called is the one in the ref, the two flags exclude each
-- other, and a connected hook has a socket.
pub record IsSound (m : Monitor) : Type 0 where
  pub owned : m.open_sockets ≡ held m.socket
  pub exclusive : (m.is_connected && m.is_connecting) ≡ false
  pub backed : m.is_connected ≡ true → m.socket ≢ none

-- What the component, the user and the browser can do. A socket opens only while it is not closed;
-- messages, errors and closings of old sockets may arrive at any time.
pub data Step (m : Monitor) : Monitor → Type 0 where
  effect_run : (created : Bool) → Step m (instance_effect created m)
  id_given : (id : Text) → Step m (record m { instance_id = id })
  connect_called : (created : Bool) → Step m (connect created m)
  disconnect_called : Step m (disconnect m)
  reconnect_called : (created : Bool) → Step m (reconnect created m)
  opened : (k : ℕ) → mem k m.open_sockets ≡ true → Step m (handle_open m)
  received : (d : Option Message) → Step m (handle_message d m)
  failed : Step m (handle_error m)
  closed : (clean : Bool) → Step m (handle_close clean m)
  unmounted : Step m (unmount m)

pub data Reach (m : Monitor) : Monitor → Type 0 where
  here : Reach m m
  next : {n o : Monitor} → Reach m n → Step n o → Reach m o

initial-IsSound : (id : Text) → IsSound (initial id)
initial-IsSound id = ground arith

disconnect-IsSound : {m : Monitor} → IsSound m → IsSound (disconnect m)
unfolding disconnect remove
disconnect-IsSound s = ground arith

connect-IsSound : (created : Bool) {m : Monitor} → IsSound m → IsSound (connect created m)
unfolding connect remove
connect-IsSound created s = ground arith

instance_effect-IsSound :
    (created : Bool) {m : Monitor} → IsSound m → IsSound (instance_effect created m)
unfolding instance_effect remove
instance_effect-IsSound created s = ground arith

handle_message-IsSound :
    (d : Option Message) {m : Monitor} → IsSound m → IsSound (handle_message d m)
unfolding handle_message
handle_message-IsSound d s = ground arith

Step-IsSound : {m n : Monitor} → Step m n → IsSound m → IsSound n
unfolding reconnect handle_open handle_error handle_close unmount remove
Step-IsSound (effect_run created) s = instance_effect-IsSound created s
Step-IsSound (id_given id) s = ground arith
Step-IsSound (connect_called created) s = connect-IsSound created s
Step-IsSound disconnect_called s = disconnect-IsSound s
Step-IsSound (reconnect_called created) s = ground arith
Step-IsSound (opened k h) s = ground arith
Step-IsSound (received d) s = handle_message-IsSound d s
Step-IsSound failed s = ground arith
Step-IsSound (closed clean) s = ground arith
Step-IsSound unmounted s = ground arith

-- In every state that can be reached from a fresh hook, no socket but the one in `websocketRef` is
-- left without a call of `close`, the hook is not connected and connecting at once, and it is
-- connected only while it holds a socket.
pub Reach-IsSound : {id : Text} {m : Monitor} → Reach (initial id) m → IsSound m
Reach-IsSound {id} here = initial-IsSound id
Reach-IsSound (next r step) = Step-IsSound step (Reach-IsSound r)

-- After a hook in a reachable state is unmounted, every socket that it ever made has been closed.
pub unmount-open_sockets :
    {id : Text} {m : Monitor} → Reach (initial id) m → (unmount m).open_sockets ≡ []
unfolding unmount remove
unmount-open_sockets r = let s = Reach-IsSound r in ground arith

-- The handlers do not check that the socket of an event is the current one. When the `close` event
-- of an old socket comes after `reconnect`, on a reachable hook with an id, has opened a new one,
-- the hook says that it is not connected, and the new socket stays open in `websocketRef`.
pub reconnect-handle_close :
    {id : Text} {m : Monitor} (clean : Bool)
    → Reach (initial id) m
    → truthy m.instance_id ≡ true
    → ((handle_open (reconnect true m)).is_connected ≡ true)
      × ((handle_close clean (handle_open (reconnect true m))).is_connected ≡ false)
      × ((handle_close clean (handle_open (reconnect true m))).socket ≡ some m.made)
      × ((handle_close clean (handle_open (reconnect true m))).open_sockets ≡ m.made ∷ [])
unfolding reconnect handle_open handle_close remove
reconnect-handle_close clean r given = let s = Reach-IsSound r in ground arith
