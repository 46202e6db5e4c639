-- ===== src/Trend/Timers.antt =====
-- Theorems on the timers and requests of `useMetricsTrend`.
use nowhere_dash.Base.{
  held, ℕ, ◌<◌, Bool, true, false, [], none, some, ◌≡◌, refl, arith, Text, ◌⊎◌, inl,
}
use nowhere_dash.Trend.{
  Trend, Ending, initial, is_valid_id, fetch_start, settle, start_auto_refresh, stop_auto_refresh,
  toggle_auto_refresh, tick, refresh, tunnel_effect, auto_effect, interval_effect, unmount, aborted,
}

-- The intervals that run are the one in `intervalRef`, and no request is in flight but the one in
-- `abortControllerRef`.
pub record IsTidy (t : Trend) : Type 0 where
  pub one_timer : t.running ≡ held t.timer
  pub one_request : (t.in_flight ≡ []) ⊎ (t.in_flight ≡ held t.controller)

pub data Step (t : Trend) : Trend → Type 0 where
  id_given : (id : Text) → Step t (record t { tunnel_id = id })
  tunnel_effect_run : Step t (tunnel_effect t)
  auto_effect_run : (auto_refresh : Bool) → Step t (auto_effect auto_refresh t)
  interval_effect_run : Step t (interval_effect t)
  refreshed : Step t (refresh t)
  started : Step t (start_auto_refresh t)
  stopped : Step t (stop_auto_refresh t)
  toggled : Step t (toggle_auto_refresh t)
  ticked : Step t (tick t)
  settled : (now k : ℕ) (show : Bool) (ending : Ending) → Step t (settle now k show ending t)

pub data Reach (t : Trend) : Trend → Type 0 where
  here : Reach t t
  next : {u v : Trend} → Reach t u → Step u v → Reach t v

fetch_start-IsTidy : (show : Bool) {t : Trend} → IsTidy t → IsTidy (fetch_start show t)
unfolding fetch_start
fetch_start-IsTidy show h = ground arith

settle-IsTidy :
    (now k : ℕ) (show : Bool) (ending : Ending) {t : Trend}
    → IsTidy t
    → IsTidy (settle now k show ending t)
unfolding settle
settle-IsTidy now k show ending h = ground arith

Step-IsTidy : {t u : Trend} → Step t u → IsTidy t → IsTidy u
unfolding tunnel_effect auto_effect interval_effect refresh toggle_auto_refresh tick
Step-IsTidy (id_given id) h = ground arith
Step-IsTidy tunnel_effect_run h = ground arith
Step-IsTidy (auto_effect_run auto_refresh) h = ground arith
Step-IsTidy interval_effect_run h = ground arith
Step-IsTidy refreshed h = ground arith
Step-IsTidy started h = ground arith
Step-IsTidy stopped h = ground arith
Step-IsTidy toggled h = ground arith
Step-IsTidy ticked h = ground arith
Step-IsTidy (settled now k show ending) h = settle-IsTidy now k show ending h

-- In every state that a mounted hook can reach, at most one interval runs and it is the one in
-- `intervalRef`, and at most one request is in flight and it is that of `abortControllerRef`.
pub Reach-IsTidy : {id : Text} {auto : Bool} {t : Trend} → Reach (initial id auto) t → IsTidy t
Reach-IsTidy here = record { one_timer = refl; one_request = inl refl }
Reach-IsTidy (next r step) = Step-IsTidy step (Reach-IsTidy r)

-- Unmounting a hook in a reachable state stops the interval and aborts the request in flight, and
-- nothing that settles later changes the data, the error, `loading` or the calls, and no tick
-- changes anything.
pub unmount_quiet :
    {id : Text} {auto : Bool} {t : Trend} (now k : ℕ) (show : Bool) (ending : Ending)
    → Reach (initial id auto) t
    → ((unmount t).running ≡ [])
      × ((unmount t).in_flight ≡ [])
      × ((settle now k show ending (unmount t)).payload ≡ t.payload)
      × ((settle now k show ending (unmount t)).error ≡ t.error)
      × ((settle now k show ending (unmount t)).loading ≡ t.loading)
      × ((settle now k show ending (unmount t)).calls ≡ t.calls)
      × (tick (unmount t) ≡ unmount t)
unfolding unmount settle tick
unmount_quiet now k show ending r = let h = Reach-IsTidy r in ground arith

-- An aborted request still runs `finally`: when, on a mounted hook with a valid id, a shown
-- request replaces an earlier shown one, the settling of the earlier one takes back `loading`
-- while the new request is that of the controller.
pub aborted_ends_loading :
    (now k : ℕ) (t : Trend)
    → t.mounted ≡ true
    → is_valid_id t.tunnel_id ≡ true
    → k < t.made
    → ((refresh t).loading ≡ true)
      × ((settle now k true aborted (refresh t)).loading ≡ false)
      × ((settle now k true aborted (refresh t)).controller ≡ some t.made)
      × ((settle now k true aborted (refresh t)).error ≡ none)
unfolding refresh settle
aborted_ends_loading now k t m v lt = ground arith
