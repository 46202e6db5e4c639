-- ===== src/Trend/Tests.antt =====
-- Runs of `useMetricsTrend` on concrete events, and its theorems at them.
use nowhere_dash.Base.{◌<◌, true, [], ◌∷◌, some, codes, ◌≡◌, refl, trim, arith}
use nowhere_dash.Trend.{
  Trend, initial, arrived, is_valid_id, settle, tick, tunnel_effect, auto_effect, unmount,
}
use nowhere_dash.Trend.Timers.{
  IsTidy, Reach, here, next, tunnel_effect_run, auto_effect_run, Reach-IsTidy, unmount_quiet,
}

abbrev shown : Trend
shown = auto_effect true (tunnel_effect (initial (codes "a1") true))

shown-Reach : Reach (initial (codes "a1") true) shown
shown-Reach = next (next here tunnel_effect_run) (auto_effect_run true)

shown_running : (shown.timer ≡ some 1) × (shown.running ≡ 1 ∷ []) × (shown.in_flight ≡ 0 ∷ [])
unfolding auto_effect tunnel_effect trim
shown_running = (refl, refl, refl)

Reach-IsTidy_example : IsTidy shown
Reach-IsTidy_example = Reach-IsTidy shown-Reach

unmount_quiet_example :
    ((unmount shown).running ≡ [])
    × ((unmount shown).in_flight ≡ [])
    × ((settle 5 0 true (arrived (record { times = [] })) (unmount shown)).payload ≡ shown.payload)
    × ((settle 5 0 true (arrived (record { times = [] })) (unmount shown)).error ≡ shown.error)
    × ((settle 5 0 true (arrived (record { times = [] })) (unmount shown)).loading ≡ shown.loading)
    × ((settle 5 0 true (arrived (record { times = [] })) (unmount shown)).calls ≡ shown.calls)
    × (tick (unmount shown) ≡ unmount shown)
unmount_quiet_example = unmount_quiet 5 0 true (arrived (record { times = [] })) shown-Reach

shown_facts : (shown.mounted ≡ true) × (is_valid_id shown.tunnel_id ≡ true) × (0 < shown.made)
unfolding auto_effect tunnel_effect trim
shown_facts = (refl, refl, omega arith)
