-- ===== src/App/Executions.antt =====
-- What happens while the program of src/main.cpp runs: frames, connections, messages, and the rounds
-- of its threads, in any order.
use native.Mathlib.Omega.{arith}
use ioh_robodog_webrtc.Prelude.{
  ℕ, ◌≤◌, ◌≡◌, refl, sym, ap, ◌∙◌, String, Bool, Option, none, some, List, [], ◌∷◌, ◌++◌, length,
  length-append, Option-cases, inl, inr,
}
use ioh_robodog_webrtc.Prelude.Results.{Result}
use ioh_robodog_webrtc.Peer.{Rtc, RtcState, TrackAnswer}
use ioh_robodog_webrtc.Rtsp.Description.{Build}
use ioh_robodog_webrtc.Rtsp
use ioh_robodog_webrtc.Signaling
use ioh_robodog_webrtc.Signaling.Executions.{
  Event, connects, messages, disconnects, broadcast, cleanup, peer_state, peer_track,
}
use ioh_robodog_webrtc.Signaling.Executions.{step as step_signaling, run as run_signaling}
use ioh_robodog_webrtc.App.{App, on_sample, on_message, watchdog}
use ioh_robodog_webrtc.App.Watching.{watchdog-some}
use ioh_robodog_webrtc.WebRtc.Ops

-- A frame comes from the camera; a client connects, sends a message, or is gone; the library reports
-- on a peer; the cleanup thread makes a pass; the pipeline's thread makes rounds; the watchdog looks.
pub data Happening : Type 0 where
  frame : (String → TrackAnswer) → ℕ → Option (Option (Option Rtsp.Sample)) → Happening
  client : ℕ → Signaling.Calls → ℕ → Happening
  message : Signaling.Calls → String → ℕ → String → Happening
  gone : String → Happening
  state : String → RtcState → Happening
  track : String → Happening
  pass : Happening
  rounds : Build → List (Bool × Rtsp.Round) → Happening
  watch : ℕ → ℕ → Bool → Happening

abbrev looked : App → Option App → App
looked a none = a
looked a (some b) = b

module _ (rtc : Rtc) (json : Signaling.JsonLibrary) (send : ℕ → String → Result (Unit {0})) where
  -- The signaling server after one of its own events.
  abbrev signaled : Event → App → App
  signaled e a = record a { signaling = step_signaling rtc json send e a.signaling }

  unfoldable pub step : Happening → App → App
  step (frame taken now m) a = (on_sample rtc taken now m a).0
  step (client draw calls ws) a = signaled (connects draw calls ws) a
  step (message calls id ws text) a = (on_message json send calls id ws text a).0
  step (gone id) a = signaled (disconnects id) a
  step (state id t) a = signaled (peer_state id t) a
  step (track id) a = signaled (peer_track id) a
  step pass a = signaled cleanup a
  step (rounds build rs) a = record a { rtsp = (Rtsp.pipeline_thread build rs a.rtsp).0 }
  step (watch last now shutdown) a = looked a (watchdog last now shutdown a).1

  unfoldable pub run : List Happening → App → App
  run [] a = a
  run (h ∷ hs) a = run hs (step h a)

  -- From s to t at most one event of the signaling server happens.
  abbrev Signals : Signaling.SignalingServer → Signaling.SignalingServer → Type 0
  Signals s t = (es : List Event) × (t ≡ run_signaling rtc json send es s) × (length es ≤ 1)

  quiet-Signals : (s t : Signaling.SignalingServer) → t ≡ s → Signals s t
  unfolding run_signaling
  quiet-Signals s t e = ([], e, omega arith)

  event-Signals :
      (e : Event) (s : Signaling.SignalingServer) → Signals s (step_signaling rtc json send e s)
  unfolding run_signaling
  event-Signals e s = (e ∷ [], refl, omega arith)

  frame-Signals :
      (taken : String → TrackAnswer) (now : ℕ) (m : Option (Option (Option Rtsp.Sample))) (a : App)
      → Signals a.signaling (on_sample rtc taken now m a).0.signaling
  unfolding on_sample step_signaling Ops.step
  frame-Signals taken now m a = elim (Option-cases (Rtsp.on_new_sample now m a.rtsp).1) [
    | inl e ↦ rw (e, on_sample) (quiet-Signals a.signaling a.signaling refl)
    | inr ((bytes, ts), e) ↦
        rw (e, on_sample) (event-Signals (broadcast taken bytes ts) a.signaling)
  ]

  watch-signaling :
      (last now : ℕ) (shutdown : Bool) (a : App)
      → (looked a (watchdog last now shutdown a).1).signaling ≡ a.signaling
  watch-signaling last now shutdown a =
      let (b, e, kept) = watchdog-some last now shutdown a in
      ap (λ x. (looked a x).signaling) e ∙ kept

  step-Signals : (h : Happening) (a : App) → Signals a.signaling (step h a).signaling
  unfolding step on_message step_signaling
  step-Signals (frame taken now m) a = frame-Signals taken now m a
  step-Signals (client draw calls ws) a = event-Signals (connects draw calls ws) a.signaling
  step-Signals (message calls id ws text) a = event-Signals (messages calls id ws text) a.signaling
  step-Signals (gone id) a = event-Signals (disconnects id) a.signaling
  step-Signals (state id t) a = event-Signals (peer_state id t) a.signaling
  step-Signals (track id) a = event-Signals (peer_track id) a.signaling
  step-Signals pass a = event-Signals cleanup a.signaling
  step-Signals (rounds build rs) a = quiet-Signals a.signaling a.signaling refl
  step-Signals (watch last now shutdown) a =
      quiet-Signals a.signaling _ (watch-signaling last now shutdown a)

  -- What happens in the program does to the signaling server what some of its own events do, one for
  -- each happening at most.
  pub run-Signals :
      (hs : List Happening) (a : App)
      → (es : List Event) × ((run hs a).signaling ≡ run_signaling rtc json send es a.signaling)
        × (length es ≤ length hs)
  unfolding run run_signaling
  run-Signals [] a = ([], refl, omega arith)
  run-Signals (h ∷ hs) a =
      let (es, e, n) = step-Signals h a in
      let (us, f, k) = run-Signals hs (step h a) in
      (
        es ++ us,
        f ∙ ap (run_signaling rtc json send us) e ∙ sym (appended es us a.signaling),
        omega (arith, length-append es us),
      )
    where
      appended :
          (es us : List Event) (s : Signaling.SignalingServer)
          → run_signaling rtc json send (es ++ us) s
            ≡ run_signaling rtc json send us (run_signaling rtc json send es s)
      appended [] us s = refl
      appended (e ∷ es) us s = appended es us (step_signaling rtc json send e s)
