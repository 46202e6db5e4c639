-- ===== src/Monitor/Tests.antt =====
-- Runs of `useTunnelMonitorWS` on concrete events, and its theorems at them.
use nowhere_dash.Base.{true, [], ◌∷◌, Text, codes, ◌≡◌, refl}
use nowhere_dash.Monitor.{Monitor, initial, handle_open, instance_effect, unmount}
use nowhere_dash.Monitor.Sockets.{
  IsSound, Reach, here, next, effect_run, opened, Reach-IsSound, unmount-open_sockets,
}

abbrev instance_text : Text
instance_text = codes "a1"

-- The hook after its first effect, and then connected.
abbrev started : Monitor
started = instance_effect true (initial instance_text)

abbrev connected : Monitor
connected = handle_open started

started_open : started.open_sockets ≡ 0 ∷ []
unfolding instance_effect
started_open = refl

connected-Reach : Reach (initial instance_text) connected
unfolding instance_effect
connected-Reach = next (next here (effect_run true)) (opened 0 refl)

connected_given : connected.instance_id ≡ instance_text
unfolding instance_effect handle_open
connected_given = refl

Reach-IsSound_example : IsSound connected
Reach-IsSound_example = Reach-IsSound connected-Reach

unmount-open_sockets_example : (unmount connected).open_sockets ≡ []
unmount-open_sockets_example = unmount-open_sockets connected-Reach
