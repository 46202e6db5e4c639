-- ===== src/TunnelForm/Requests.antt =====
-- Theorems on when the tunnel modal loads and sends.
use mathlib.Core.Option.{some-injective}
use nowhere_dash.Base.{
  ◌==◌, ◌<◌, ℕ, Bool, true, false, ◌||◌, List, none, some, Text, ◌≡◌, refl, ap, arith, inl, inr,
  Bool-cases,
}
use nowhere_dash.TunnelForm.Fields.{Web}
use nowhere_dash.TunnelForm.Tags.{tags_read, text_to_tags}
use nowhere_dash.TunnelForm.Check.{Payload, Checked, passed, thrown, prepare}
use nowhere_dash.TunnelForm.Sent.{IsPayload, prepare-IsPayload}
use nowhere_dash.TunnelForm.Modal.{
  Modal, Answer, Random, Details, load, abort, is_current, nodes_answered, details_answered,
  lacks_tunnel, submit, submit_checked,
}

late_answer :
    (web : Web) (m : Modal) (run : ℕ) (r : Random) (nodes : Answer (List Text))
    (details : Answer Details)
    → is_current m.current run ≡ false
    → (nodes_answered run r nodes m ≡ m) × (details_answered web run details m ≡ m)
unfolding nodes_answered details_answered
late_answer web m run r nodes details h = rw h (refl, refl)

-- An answer to an older run of the load effect, an error included, changes nothing, neither after
-- the modal was closed nor after it was opened again.
pub aborted_load :
    (web : Web) (m : Modal) (run : ℕ) (r : Random) (nodes : Answer (List Text))
    (details : Answer Details)
    → run < m.made
    → (nodes_answered run r nodes (abort m) ≡ abort m)
      × (details_answered web run details (abort m) ≡ abort m)
      × (nodes_answered run r nodes (load (abort m)) ≡ load (abort m))
      × (details_answered web run details (load (abort m)) ≡ load (abort m))
unfolding abort load
aborted_load web m run r nodes details h =
    let (a, b) = late_answer web (abort m) run r nodes details refl in
    let (c, d) = late_answer web (load (abort m)) run r nodes details (older m.made h) in
    (a, b, c, d)
  where
    older : (n : ℕ) → run < n → (n == run) ≡ false
    older n k = ground arith

checked_sends :
    (web : Web) (m : Modal) (c : Checked Payload) (body : Payload)
    → (submit_checked web c m).1 ≡ some body
    → (c ≡ passed body) × ((submit_checked web c m).0.submitting ≡ true)
unfolding submit_checked
checked_sends web m (thrown p) body h = cc
checked_sends web m (passed sent) body h = (ap passed (some-injective sent body h), refl)

busy : (web : Web) (m : Modal) → m.submitting ≡ true → (submit web m).1 ≡ none
unfolding submit
busy web m h = rw (waiting m.loading m.submitting _ h) refl
  where
    waiting : (a b c : Bool) → b ≡ true → (a || b || c) ≡ true
    waiting a b c k = ground arith

idle : (a b c : Bool) → (a || b || c) ≡ false → (a ≡ false) × (b ≡ false)
idle a b c h = ground arith

-- A body is sent only while the modal neither loads nor sends, and it passes the checks of the form.
-- Its name is trimmed and not empty, its listener is a valid service, its key has 1 to 255 bytes,
-- both paths of a certificate are there in TLS mode 2 and empty in the others, a rate that is sent is
-- at most 2147483647, and mux is 0 or 1, and 0 if `up` and `down` are both udp. A SOCKS address that
-- is not the word none, in whatever case, passes `validateSocksEndpoint`, and then next is none. A
-- next that is not none can be read by `parseNextEndpoint` and has the ports that the carriers chosen
-- need; besides it a name for TLS passes `validatePortalSni` and a pin that is not none is 64
-- lower-case hexadecimal digits. Nothing is said of the node, morph, dial and the log level. The tags
-- are those of the form's text, and until an answer comes a second `submit` sends nothing.
pub submit_sends_checked :
    (web : Web) (m : Modal) (body : Payload)
    → (submit web m).1 ≡ some body
    → (m.loading ≡ false)
      × (m.submitting ≡ false)
      × IsPayload web body
      × (text_to_tags m.form.tags_text ≡ tags_read body.tags)
      × ((submit web (submit web m).0).1 ≡ none)
unfolding submit
submit_sends_checked web m body h =
    elim (Bool-cases (m.loading || m.submitting || lacks_tunnel web m.mode m.real_tunnel_id)) [
      | inl b ↦ let bad : none ≡ some body = rw b at h in cc
      | inr b ↦
          let (loading, submitting) = idle m.loading m.submitting _ b in
          let (prepared, started) = checked_sends web m (prepare web m.form) body (rw b at h) in
          let (valid, tags) = prepare-IsPayload web m.form body prepared in
          rw b (
            loading,
            submitting,
            valid,
            tags,
            busy web (submit_checked web (prepare web m.form) m).0 started,
          )
    ]
