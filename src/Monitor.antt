-- ===== src/Monitor.antt =====
-- The hook `useTunnelMonitorWS` of web/src/lib/hooks/use-tunnel-monitor-ws.ts: its refs and React
-- state as one record, each callback and each WebSocket handler as a function on it.
pub mod Sockets
mod Tests
use nowhere_dash.Base.{
  remove, held, mem, ℕ, ◌+◌, Bool, true, false, not, ◌&&◌, ◌||◌, List, [], ◌∷◌, ◌++◌, Option, none,
  some, ◌==◌, if◌then◌else◌, Text, codes, text_eq, truthy, text_or,
}

pub record MonitorData : Type 0 where
  pub instance_id : Text
  pub timestamp : ℕ
  pub tcp_rx : ℕ
  pub tcp_tx : ℕ
  pub udp_rx : ℕ
  pub udp_tx : ℕ
  pub pool : ℕ
  pub ping : ℕ
  pub tcps : ℕ
  pub udps : ℕ
  pub status : Text
  pub kind : Text

-- The `info` object of a message; a missing counter is `none`, a missing text empty.
pub record Info : Type 0 where
  pub tcprx : Option ℕ
  pub tcptx : Option ℕ
  pub udprx : Option ℕ
  pub udptx : Option ℕ
  pub pool : Option ℕ
  pub ping : Option ℕ
  pub tcps : Option ℕ
  pub udps : Option ℕ
  pub status : Text
  pub kind : Text

-- What the handler reads of a parsed message; a missing text is empty, a missing time 0.
pub record Message : Type 0 where
  pub instance_id : Text
  pub info : Option Info
  pub timestamp : ℕ
  pub status : Text
  pub kind : Text
  pub payload : Option MonitorData
  pub message : Text

pub data Problem : Type 0 where
  connection_failed closed_unexpectedly create_failed server_error : Problem
  reported : Text → Problem

pub data Call : Type 0 where
  on_connected on_disconnected : Call
  on_data : MonitorData → Call
  on_error : Problem → Call

-- `socket` is `websocketRef`, with a number for each `WebSocket` made; `open_sockets` are those on
-- which `close` was not called. `target` is the instance that the socket was opened for, and
-- `calls` the callbacks made so far.
pub record Monitor : Type 0 where
  pub instance_id : Text
  pub is_connected : Bool
  pub is_connecting : Bool
  pub error : Option Problem
  pub latest : Option MonitorData
  pub socket : Option ℕ
  pub attempted : Bool
  pub target : Text
  pub made : ℕ
  pub open_sockets : List ℕ
  pub calls : List Call

abbrev pub initial : Text → Monitor
initial instance_id = record {
  instance_id = instance_id;
  is_connected = false;
  is_connecting = false;
  error = none;
  latest = none;
  socket = none;
  attempted = false;
  target = [];
  made = 0;
  open_sockets = [];
  calls = [];
}

-- A callback.
abbrev pub call : Call → Monitor → Monitor
call c m = record m { calls = m.calls ++ c ∷ [] }

-- `websocketRef.current.close(); websocketRef.current = null;`, if there is a socket.
unfoldable pub release : Option ℕ → Monitor → Monitor
release none m = m
release (some k) m = record m { socket = none; open_sockets = remove k m.open_sockets }

unfoldable pub disconnect : Monitor → Monitor
unfolding release
disconnect m = call on_disconnected (record (release m.socket m) {
  is_connected = false;
  is_connecting = false;
  error = none;
  attempted = false;
})

-- `if (websocketRef.current) disconnect();`.
unfoldable pub disconnect_current : Option ℕ → Monitor → Monitor
unfolding disconnect
disconnect_current none m = m
disconnect_current (some k) m = disconnect m

-- The `try` block of `connect`; the flag tells whether `new WebSocket` returned.
unfoldable pub open_socket : Bool → Monitor → Monitor
open_socket true m = record m {
  socket = some m.made;
  target = m.instance_id;
  made = m.made + 1;
  open_sockets = m.made ∷ m.open_sockets;
}
open_socket false m =
    call (on_error create_failed) (record m { is_connecting = false; error = some create_failed })

unfoldable pub connect : Bool → Monitor → Monitor
unfolding disconnect_current open_socket
connect created m =
    if not (truthy m.instance_id)
    then m
    else open_socket created
        (record (disconnect_current m.socket m) { is_connecting = true; error = none })

unfoldable pub reconnect : Bool → Monitor → Monitor
unfolding connect
reconnect created m = connect created (record m { attempted = false })

unfoldable pub handle_open : Monitor → Monitor
handle_open m =
    call on_connected (record m { is_connected = true; is_connecting = false; error = none })

-- `info.field || 0`.
abbrev pub counter : Option ℕ → ℕ
counter none = 0
counter (some n) = n

unfoldable pub normalize_info : Message → Info → MonitorData
normalize_info d info = record {
  instance_id = d.instance_id;
  timestamp = d.timestamp;
  tcp_rx = counter info.tcprx;
  tcp_tx = counter info.tcptx;
  udp_rx = counter info.udprx;
  udp_tx = counter info.udptx;
  pool = counter info.pool;
  ping = counter info.ping;
  tcps = counter info.tcps;
  udps = counter info.udps;
  status = text_or d.status (text_or info.status (codes "unknown"));
  kind = text_or info.kind (codes "unknown");
}

unfoldable pub deliver : MonitorData → Monitor → Monitor
deliver d m = call (on_data d) (record m { latest = some d })

-- `data.message || "服务器错误"`.
abbrev pub problem_of : Text → Problem
problem_of [] = server_error
problem_of (c ∷ s) = reported (c ∷ s)

unfoldable pub report : Problem → Monitor → Monitor
report p m = call (on_error p) (record m { error = some p })

-- The branches on the old message formats.
unfoldable pub handle_other : Message → Option MonitorData → Monitor → Monitor
unfolding deliver report
handle_other d payload m =
    if text_eq d.kind (codes "tunnel_monitor")
    then elim payload [ some data' ↦ deliver data' m | none ↦ m ]
    else if text_eq d.kind (codes "error")
    then report (problem_of d.message) m
    else m

unfoldable pub handle_parsed : Message → Option Info → Monitor → Monitor
unfolding handle_other normalize_info deliver
handle_parsed d none m = handle_other d d.payload m
handle_parsed d (some info) m =
    if truthy d.instance_id && not (d.timestamp == 0)
    then deliver (normalize_info d info) m
    else handle_other d d.payload m

-- `none` is a text that `JSON.parse` refuses.
unfoldable pub handle_message : Option Message → Monitor → Monitor
unfolding handle_parsed
handle_message none m = m
handle_message (some d) m = handle_parsed d d.info m

unfoldable pub handle_error : Monitor → Monitor
unfolding report
handle_error m = report connection_failed (record m { is_connected = false; is_connecting = false })

unfoldable pub handle_close : Bool → Monitor → Monitor
unfolding report
handle_close was_clean m =
    let m' = record m { is_connected = false; is_connecting = false } in
    call on_disconnected (if was_clean then m' else report closed_unexpectedly m')

-- The effect on `[instanceId, connect, disconnect]`.
unfoldable pub instance_effect : Bool → Monitor → Monitor
unfolding connect disconnect
instance_effect created m =
    if truthy m.instance_id && not m.attempted
    then connect created (record m { attempted = true })
    else if not (truthy m.instance_id)
    then disconnect m
    else m

-- The cleanup when the component unmounts.
unfoldable pub unmount : Monitor → Monitor
unfolding disconnect
unmount m = disconnect (record m { latest = none; error = none })
