-- ===== src/Trend.antt =====
-- The hook `useMetricsTrend` of web/src/lib/hooks/use-metrics-trend.ts: requests and interval
-- timers are numbered, and `await` splits `fetchTrendData` into its start and its settling.
pub mod Timers
pub mod Summary
mod Tests
use nowhere_dash.Base.{
  remove, held, mem, ℕ, ◌+◌, ◌*◌, ◌-◌, Bool, true, false, not, ◌&&◌, ◌||◌, List, [], ◌∷◌, ◌++◌,
  Option, none, some, ◌==◌, if◌then◌else◌, Text, codes, truthy, trim, ltb, leb, length, text_or,
}

-- The part of a response that the hook reads: the times of the traffic series.
pub record Response : Type 0 where
  pub times : List ℕ

pub data Problem : Type 0 where
  invalid_id unknown_error : Problem
  message : Text → Problem

-- How a request ends: by an abort, by an HTTP status that is not ok, with the `error` of the body
-- and the status line, by a body with `success` false and the text of its `data`, by another
-- `Error`, by a thrown value that is none, or with a response.
pub data Ending : Type 0 where
  aborted threw_other : Ending
  not_ok : (body_error status_line : Text) → Ending
  no_success : Text → Ending
  failed : Text → Ending
  arrived : Response → Ending

pub data Call : Type 0 where
  on_success : Response → Call
  on_error : Problem → Call

-- `timer` is `intervalRef` and `running` the intervals not cleared; `controller` is the request of
-- `abortControllerRef` and `in_flight` the requests neither settled nor aborted.
pub record Trend : Type 0 where
  pub tunnel_id : Text
  pub payload : Option Response
  pub loading : Bool
  pub error : Option Problem
  pub last_update : Option ℕ
  pub is_auto_refresh_enabled : Bool
  pub timer : Option ℕ
  pub mounted : Bool
  pub controller : Option ℕ
  pub made : ℕ
  pub running : List ℕ
  pub in_flight : List ℕ
  pub calls : List Call

abbrev pub initial : Text → Bool → Trend
initial tunnel_id auto_refresh = record {
  tunnel_id = tunnel_id;
  payload = none;
  loading = true;
  error = none;
  last_update = none;
  is_auto_refresh_enabled = auto_refresh;
  timer = none;
  mounted = true;
  controller = none;
  made = 0;
  running = [];
  in_flight = [];
  calls = [];
}

-- `tunnelId && tunnelId.trim() !== ""`.
abbrev pub is_valid_id : Text → Bool
is_valid_id id = truthy id && truthy (trim id)

abbrev pub remove_held : Option ℕ → List ℕ → List ℕ
remove_held none ks = ks
remove_held (some k) ks = remove k ks

-- `finally`.
unfoldable pub end_loading : Bool → Trend → Trend
end_loading show t = if t.mounted && show then record t { loading = false } else t

-- `fetchTrendData` up to the `await` of `fetch`.
unfoldable pub fetch_start : Bool → Trend → Trend
unfolding end_loading remove
fetch_start show t =
    if not (is_valid_id t.tunnel_id)
    then end_loading show (record t { loading = false; error = some invalid_id })
    else record t {
      controller = some t.made;
      made = t.made + 1;
      in_flight = t.made ∷ remove_held t.controller t.in_flight;
      loading = (if show then true else t.loading);
      error = none;
    }

unfoldable pub report : Problem → Trend → Trend
report p t =
    if t.mounted then record t { error = some p; calls = t.calls ++ on_error p ∷ [] } else t

-- The rest of the `try` block and the `catch`; the number is the time of the update.
unfoldable pub settle_body : ℕ → Ending → Trend → Trend
unfolding report
settle_body now aborted t = t
settle_body now threw_other t = report unknown_error t
settle_body now (not_ok body_error status_line) t =
    report (message (text_or body_error status_line)) t
settle_body now (no_success text) t = report (message (text_or text (codes "获取趋势数据失败"))) t
settle_body now (failed text) t = report (message text) t
settle_body now (arrived r) t =
    if t.mounted
    then record t { payload = some r; last_update = some now; calls = t.calls ++ on_success r ∷ [] }
    else t

-- Request `k` settles.
unfoldable pub settle : ℕ → ℕ → Bool → Ending → Trend → Trend
unfolding settle_body end_loading remove
settle now k show ending t =
    end_loading show (settle_body now ending (record t { in_flight = remove k t.in_flight }))

unfoldable pub start_auto_refresh : Trend → Trend
unfolding remove
start_auto_refresh t = record t {
  timer = some t.made;
  made = t.made + 1;
  running = t.made ∷ remove_held t.timer t.running;
  is_auto_refresh_enabled = true;
}

unfoldable pub stop_auto_refresh : Trend → Trend
unfolding remove
stop_auto_refresh t = record t {
  running = remove_held t.timer t.running;
  timer = none;
  is_auto_refresh_enabled = false;
}

unfoldable pub toggle_auto_refresh : Trend → Trend
unfolding start_auto_refresh stop_auto_refresh
toggle_auto_refresh t =
    if t.is_auto_refresh_enabled then stop_auto_refresh t else start_auto_refresh t

-- An interval elapses.
unfoldable pub tick : Trend → Trend
unfolding fetch_start
tick t = if t.mounted then fetch_start false t else t

unfoldable pub refresh : Trend → Trend
unfolding fetch_start
refresh t = fetch_start true t

-- The effect on `[tunnelId, fetchTrendData]`.
unfoldable pub tunnel_effect : Trend → Trend
unfolding fetch_start
tunnel_effect t =
    if is_valid_id t.tunnel_id
    then fetch_start true t
    else record t { payload = none; error = none; loading = false }

-- The effect on `autoRefresh`; its cleanup is `stop_auto_refresh`.
unfoldable pub auto_effect : Bool → Trend → Trend
unfolding start_auto_refresh stop_auto_refresh
auto_effect auto_refresh t =
    if auto_refresh && is_valid_id t.tunnel_id then start_auto_refresh t else stop_auto_refresh t

-- The effect on `refreshInterval`.
unfoldable pub interval_effect : Trend → Trend
unfolding start_auto_refresh stop_auto_refresh
interval_effect t =
    if t.is_auto_refresh_enabled then start_auto_refresh (stop_auto_refresh t) else t

-- The cleanup of the mount effect.
unfoldable pub unmount : Trend → Trend
unfolding remove
unmount t = record t {
  mounted = false;
  running = remove_held t.timer t.running;
  timer = none;
  in_flight = remove_held t.controller t.in_flight;
}

-- `getDataPointsCount`.
unfoldable pub data_points_count : Option Response → ℕ
data_points_count none = 0
data_points_count (some r) = length r.times

-- `getLatestDataTime`: the last element.
unfoldable pub last_time : List ℕ → Option ℕ
last_time [] = none
last_time (n ∷ []) = some n
last_time (n ∷ m ∷ ns) = last_time (m ∷ ns)

unfoldable pub latest_data_time : Option Response → Option ℕ
unfolding last_time
latest_data_time none = none
latest_data_time (some r) = last_time r.times
