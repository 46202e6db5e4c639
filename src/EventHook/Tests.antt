-- ===== src/EventHook/Tests.antt =====
-- Runs of `useTunnelSSE` on concrete events, and the theorem at them.
use nowhere_dash.Base.{true, [], ◌∷◌, some, none, Option, codes, ◌≡◌, ◌≢◌, refl, arith}
use nowhere_dash.EventHook.{
  Hook, Payload, value, initial, rerun_tunnel, run_cleanup, tunnel_message, handle_error,
}
use nowhere_dash.EventHook.Leaks.{Reach, here, next, rerun, received, run_cleanup_quiet}

abbrev data_payload : Payload
data_payload = value (codes "{}") []

abbrev watching : Hook
watching =
    tunnel_message data_payload
      (rerun_tunnel (codes "b") none (rerun_tunnel (codes "a") none initial))

watching-Reach : Reach initial watching
watching-Reach =
    next (next (next here (rerun (codes "a") none)) (rerun (codes "b") none))
      (received data_payload)

watching_open : (watching.open_sources ≡ 1 ∷ []) × (watching.source ≢ none)
unfolding tunnel_message rerun_tunnel nowhere_dash.Base.text_eq
watching_open = (refl, ground arith)

run_cleanup_quiet_example :
    ((run_cleanup watching.cleanup watching).open_sources ≡ [])
    × ((run_cleanup watching.cleanup watching).timers ≡ [])
    × (tunnel_message data_payload (run_cleanup watching.cleanup watching)
        ≡ run_cleanup watching.cleanup watching)
    × (handle_error (run_cleanup watching.cleanup watching) ≡ run_cleanup watching.cleanup watching)
run_cleanup_quiet_example = run_cleanup_quiet data_payload watching-Reach watching_open.1
