-- ===== src/App/Soundness.antt =====
-- The running program of src/main.cpp as a whole: the invariants of its components hold together.
use native.Mathlib.Omega.{arith}
use ioh_robodog_webrtc.Prelude.{
  ℕ, ◌+◌, ◌*◌, ◌<◌, ◌^◌, ◌≡◌, sym, ap, ◌∙◌, subst, String, ◌∷◌, List, length,
}
use ioh_robodog_webrtc.Prelude.Int.{IsInt32}
use ioh_robodog_webrtc.Prelude.Results.{Result}
use ioh_robodog_webrtc.Config.{AppConfig}
use ioh_robodog_webrtc.Peer.{Rtc}
use ioh_robodog_webrtc.WebRtc
use ioh_robodog_webrtc.WebRtc.Ops
use ioh_robodog_webrtc.WebRtc.Ops.{starts}
use ioh_robodog_webrtc.WebRtc.Invariant.{IsConsistent, run-IsConsistent}
use ioh_robodog_webrtc.Signaling
use ioh_robodog_webrtc.Signaling.Routes.{IsRouted}
use ioh_robodog_webrtc.Signaling.Executions.{Event, run-IsRouted}
use ioh_robodog_webrtc.Signaling.Executions.{run as run_signaling}
use ioh_robodog_webrtc.Signaling.Factors.{run-Operates}
use ioh_robodog_webrtc.Http
use ioh_robodog_webrtc.App.{App, startup, operational, components}
use ioh_robodog_webrtc.App.Life.{ready, startup-signaling}
use ioh_robodog_webrtc.App.Executions.{Happening, run, run-Signals}

-- The names of the peers are distinct, each peer signals to the socket of its session, no two share
-- an SSRC, and there are at most `max_peers`.
pub record IsSound (c : AppConfig) (a : App) : Type 0 where
  pub routed : IsRouted a.signaling
  pub consistent : IsConsistent c a.signaling.webrtc_server

module _ (rtc : Rtc) (json : Signaling.JsonLibrary) (send : ℕ → String → Result (Unit {0})) where
  -- Operations on the server that `start` leaves.
  started-IsConsistent :
      (os : List Ops.Op) (c : AppConfig)
      → IsInt32 c.webrtc.max_peers
      → 43 + length os < 2 ^ 32
      → IsConsistent c (Ops.run rtc os (ready c).signaling.webrtc_server)
  unfolding Ops.run Ops.step WebRtc.start WebRtc.init components Signaling.init
      Signaling.set_bitrate_callback
  started-IsConsistent os c i fits = run-IsConsistent rtc (starts ∷ os) c i (omega arith)

  signaled-IsSound :
      (es : List Event) (c : AppConfig) (s : Signaling.SignalingServer)
      → IsInt32 c.webrtc.max_peers
      → 43 + 2 * length es < 2 ^ 32
      → s ≡ (ready c).signaling
      → IsRouted (run_signaling rtc json send es s)
        × IsConsistent c (run_signaling rtc json send es s).webrtc_server
  unfolding components WebRtc.init Signaling.init Signaling.set_bitrate_callback
  signaled-IsSound es c s i fits e =
      let (os, f, n) = run-Operates rtc json send es s in
      (
        run-IsRouted rtc json send es s (ap (λ x. x.webrtc_server.peers) e),
        subst (IsConsistent c) (sym (f ∙ ap (λ x. Ops.run rtc os x.webrtc_server) e))
            (started-IsConsistent os c i (omega arith)),
      )

  -- Whatever happens in a program that has started (frames, connections, messages, disconnections,
  -- reports on peers, cleanups, rounds of the pipeline and of the watchdog), few enough times for the
  -- 32-bit SSRCs not to repeat: the names of the peers are distinct, each peer is kept under its own
  -- identifier and, while the signaling server runs, signals to the socket of the session under it, no
  -- two peers share an SSRC, and there are at most `max_peers` of them.
  pub run-IsSound :
      (listen : ℕ → Result (Unit {0})) (l : Http.Listening) (c : AppConfig) (a : App)
      (hs : List Happening)
      → IsInt32 c.webrtc.max_peers
      → 43 + 2 * length hs < 2 ^ 32
      → startup listen l c ≡ operational a
      → IsSound c (run rtc json send hs a)
  run-IsSound listen l c a hs i fits started =
      let (es, e, n) = run-Signals rtc json send hs a in
      let sound =
        signaled-IsSound es c a.signaling i (omega arith)
          (startup-signaling listen l c a started) in
      record {
        routed = subst IsRouted (sym e) sound.0;
        consistent = subst (λ s. IsConsistent c s.webrtc_server) (sym e) sound.1;
      }
