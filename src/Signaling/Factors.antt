-- ===== src/Signaling/Factors.antt =====
-- src/signaling_server.cpp uses the server of the peers by its operations only.
use native.Mathlib.Omega.{arith}
use ioh_robodog_webrtc.Prelude.{
  ℕ, ◌+◌, ◌*◌, ◌≤◌, ◌≡◌, refl, sym, ap, ◌∙◌, subst, String, some, List, [], ◌∷◌, ◌++◌, length,
  length-append, text_empty, Bool-cases, inl, inr,
}
use ioh_robodog_webrtc.Prelude.Results.{Result}
use ioh_robodog_webrtc.Peer.{Rtc}
use ioh_robodog_webrtc.WebRtc.{Server, create_peer}
use ioh_robodog_webrtc.WebRtc.Ops
use ioh_robodog_webrtc.WebRtc.Ops.{
  Op, creates, offers, removes, broadcasts, cleans, state_changes, track_opens, stops,
}
use ioh_robodog_webrtc.Signaling.{
  SignalingServer, JsonLibrary, Calls, admit, stop, on_client_connected, on_client_disconnected,
}
use ioh_robodog_webrtc.Signaling.Routes.{open_session-step}
use ioh_robodog_webrtc.Signaling.Message.{Acts, on_client_message-Acts}
use ioh_robodog_webrtc.Signaling.Executions.{
  Event, connects, messages, disconnects, broadcast, cleanup, peer_state, peer_track, server_stops,
  signaling_stops, step, run,
}

-- From s to t operations of the server happen, n at most.
abbrev pub Operates : Rtc → ℕ → Server → Server → Type 0
Operates rtc n s t = (os : List Op) × (t ≡ Ops.run rtc os s) × (length os ≤ n)

run-append :
    (rtc : Rtc) (os us : List Op) (s : Server)
    → Ops.run rtc (os ++ us) s ≡ Ops.run rtc us (Ops.run rtc os s)
unfolding Ops.run
run-append rtc [] us s = refl
run-append rtc (o ∷ os) us s = run-append rtc os us (Ops.step rtc o s)

pub Operates-refl : (rtc : Rtc) (n : ℕ) (s : Server) → Operates rtc n s s
unfolding Ops.run
Operates-refl rtc n s = ([], refl, omega arith)

pub Operates-one :
    (rtc : Rtc) (n : ℕ) (o : Op) (s : Server) → 1 ≤ n → Operates rtc n s (Ops.step rtc o s)
unfolding Ops.run
Operates-one rtc n o s h = (o ∷ [], refl, omega arith)

pub Operates-trans :
    (rtc : Rtc) (m n : ℕ) (s t u : Server)
    → Operates rtc m s t
    → Operates rtc n t u
    → Operates rtc (m + n) s u
Operates-trans rtc m n s t u (os, e, h) (us, f, k) = (
  os ++ us,
  f ∙ ap (Ops.run rtc us) e ∙ sym (run-append rtc os us s),
  omega (arith, length-append os us),
)

module _ (rtc : Rtc) (json : JsonLibrary) (send : ℕ → String → Result (Unit {0})) where
  admit-Operates :
      (calls : Calls) (ws : ℕ) (id : String) (s : SignalingServer)
      → Operates rtc 1 s.webrtc_server (admit json send calls ws id s).0.webrtc_server
  unfolding admit
  admit-Operates calls ws id s = elim (Bool-cases (text_empty id)) [
    | inl empty ↦ rw empty (Operates-refl rtc 1 s.webrtc_server)
    | inr given ↦
        rw (given, open_session-step rtc json send calls.offer ws id s)
          (Operates-one rtc 1 (offers calls.offer id) s.webrtc_server (omega arith))
  ]

  connected-Operates :
      (draw : ℕ) (calls : Calls) (ws : ℕ) (s : SignalingServer)
      → Operates rtc 2 s.webrtc_server
          (on_client_connected json send rtc draw calls ws s).0.webrtc_server
  unfolding on_client_connected Ops.step
  connected-Operates draw calls ws s =
      let (id, t) = create_peer rtc draw (some ws) s.webrtc_server in
      Operates-trans rtc 1 1 s.webrtc_server t _
        (Operates-one rtc 1 (creates draw (some ws)) s.webrtc_server (omega arith))
        (admit-Operates calls ws id (record s { webrtc_server = t }))

  message-Operates :
      (id : String) (s t : SignalingServer)
      → Acts rtc id s t
      → Operates rtc 2 s.webrtc_server t.webrtc_server
  message-Operates id s t (inl e) =
      subst (Operates rtc 2 s.webrtc_server) (sym (ap (λ u. u.webrtc_server) e))
        (Operates-refl rtc 2 s.webrtc_server)
  message-Operates id s t (inr (o, (named, calm), e)) =
      subst (Operates rtc 2 s.webrtc_server) (sym (ap (λ u. u.webrtc_server) e))
        (Operates-one rtc 2 o s.webrtc_server (omega arith))

  step-Operates :
      (e : Event) (s : SignalingServer)
      → Operates rtc 2 s.webrtc_server (step rtc json send e s).webrtc_server
  unfolding step on_client_disconnected stop Ops.step
  step-Operates (connects draw calls ws) s = connected-Operates draw calls ws s
  step-Operates (messages calls id ws message) s =
      message-Operates id s _ (on_client_message-Acts rtc json send calls id ws message s)
  step-Operates (disconnects id) s = Operates-one rtc 2 (removes id) s.webrtc_server (omega arith)
  step-Operates (broadcast taken bytes ts) s =
      Operates-one rtc 2 (broadcasts taken bytes ts) s.webrtc_server (omega arith)
  step-Operates cleanup s = Operates-one rtc 2 cleans s.webrtc_server (omega arith)
  step-Operates (peer_state id t) s =
      Operates-one rtc 2 (state_changes id t) s.webrtc_server (omega arith)
  step-Operates (peer_track id) s =
      Operates-one rtc 2 (track_opens id) s.webrtc_server (omega arith)
  step-Operates server_stops s = Operates-one rtc 2 stops s.webrtc_server (omega arith)
  step-Operates signaling_stops s = Operates-refl rtc 2 s.webrtc_server

  -- Any events of the signaling server do to the server of the peers what some sequence of its
  -- operations does, two for each event at most.
  pub run-Operates :
      (es : List Event) (s : SignalingServer)
      → Operates rtc (2 * length es) s.webrtc_server (run rtc json send es s).webrtc_server
  unfolding run
  run-Operates [] s = Operates-refl rtc 0 s.webrtc_server
  run-Operates (e ∷ es) s =
      let (os, f, h) =
        Operates-trans rtc 2 (2 * length es) s.webrtc_server _ _ (step-Operates e s)
          (run-Operates es (step rtc json send e s)) in
      (os, f, omega (arith, h))
