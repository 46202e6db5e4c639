-- ===== src/EventHook/Leaks.antt =====
-- Theorems on the sources and the interval of `useTunnelSSE`, and on the source of `useSSE`.
use nowhere_dash.Base.{remove, held, Bool, [], ◌∷◌, Option, none, some, ◌≡◌, ◌≢◌, arith, Text}
use nowhere_dash.EventHook.{
  Hook, Payload, initial, run_cleanup, tunnel_effect, rerun_tunnel, rerun_endpoint, tunnel_message,
  handle_error, close_source,
}

-- The open sources are the one in the ref, the intervals the one that the cleanup will clear, and
-- both are there or neither is.
pub record IsTidy (h : Hook) : Type 0 where
  pub one_source : h.open_sources ≡ held h.source
  pub one_timer : h.timers ≡ held h.cleanup
  pub together : h.source ≡ h.cleanup

pub data Step (h : Hook) : Hook → Type 0 where
  rerun : (instance_id : Text) (enabled : Option Bool) → Step h (rerun_tunnel instance_id enabled h)
  received : (p : Payload) → Step h (tunnel_message p h)
  failed : Step h (handle_error h)
  unmounted : Step h (run_cleanup h.cleanup h)

pub data Reach (h : Hook) : Hook → Type 0 where
  here : Reach h h
  next : {i j : Hook} → Reach h i → Step i j → Reach h j

run_cleanup-IsTidy : {h : Hook} → IsTidy h → IsTidy (run_cleanup h.cleanup h)
unfolding run_cleanup remove close_source
run_cleanup-IsTidy t = ground arith

tunnel_effect-IsTidy :
    (instance_id : Text) (enabled : Option Bool) {h : Hook}
    → h.cleanup ≡ none
    → IsTidy h
    → IsTidy (tunnel_effect instance_id enabled h)
unfolding tunnel_effect close_source
tunnel_effect-IsTidy instance_id enabled fresh t = ground arith

run_cleanup-cleanup : (h : Hook) → (run_cleanup h.cleanup h).cleanup ≡ none
unfolding run_cleanup close_source
run_cleanup-cleanup h = ground arith

Step-IsTidy : {h i : Hook} → Step h i → IsTidy h → IsTidy i
unfolding rerun_tunnel tunnel_message handle_error
Step-IsTidy {h} (rerun instance_id enabled) t =
    tunnel_effect-IsTidy instance_id enabled (run_cleanup-cleanup h) (run_cleanup-IsTidy t)
Step-IsTidy (received p) t = ground arith
Step-IsTidy failed t = ground arith
Step-IsTidy unmounted t = run_cleanup-IsTidy t

-- However often `useTunnelSSE` is rendered with other ids, switched off and on, or sent events,
-- the open sources are the one in the ref and the intervals the one that the cleanup will clear.
pub Reach-IsTidy_hook : {h : Hook} → Reach initial h → IsTidy h
Reach-IsTidy_hook here = ground arith
Reach-IsTidy_hook (next r step) = Step-IsTidy step (Reach-IsTidy_hook r)

-- After the cleanup of a hook in a reachable state that had a source, nothing is open, no interval
-- runs, and a late message or error changes nothing.
pub run_cleanup_quiet :
    {h : Hook} (p : Payload)
    → Reach initial h
    → h.source ≢ none
    → ((run_cleanup h.cleanup h).open_sources ≡ [])
      × ((run_cleanup h.cleanup h).timers ≡ [])
      × (tunnel_message p (run_cleanup h.cleanup h) ≡ run_cleanup h.cleanup h)
      × (handle_error (run_cleanup h.cleanup h) ≡ run_cleanup h.cleanup h)
unfolding run_cleanup remove close_source tunnel_message handle_error
run_cleanup_quiet p r on = let t = Reach-IsTidy_hook r in ground arith

-- Where the open sources of `useSSE` are the one in its ref, and its cleanup is for that one, the
-- next effect closes it before it makes its own, which is then the only one open.
pub rerun_endpoint-open_sources :
    (h : Hook)
    → h.open_sources ≡ held h.source
    → h.source ≡ h.cleanup
    → ((rerun_endpoint h).open_sources ≡ h.made ∷ [])
      × ((rerun_endpoint h).source ≡ some h.made)
      × ((rerun_endpoint h).cleanup ≡ some h.made)
unfolding rerun_endpoint run_cleanup remove close_source
rerun_endpoint-open_sources h one together = ground arith
