-- ===== src/Signaling/Uninterrupted.antt =====
-- The steps of the handlers of src/signaling_server.cpp, one after the other, and the whole handlers.
use ioh_robodog_webrtc.Prelude.{
  ℕ, ◌≡◌, ◌≢◌, refl, String, some, text_empty, text_eq_iff, Bool-cases, inl, inr,
}
use ioh_robodog_webrtc.Prelude.Results.{Result}
use ioh_robodog_webrtc.Peer.{Rtc}
use ioh_robodog_webrtc.WebRtc.{create_peer}
use ioh_robodog_webrtc.WebRtc.Ops.{step as step_server}
use ioh_robodog_webrtc.Signaling.{
  SignalingServer, JsonLibrary, Calls, admit, on_client_connected, on_client_disconnected, stop,
}
use ioh_robodog_webrtc.Signaling.Routes.{open_session-step}
use ioh_robodog_webrtc.Signaling.Handlers.{
  idle, begin_connect, store_session, call_offer, erase_session, drop_peer, stop_running,
  close_sessions,
}

module _ (rtc : Rtc) (json : JsonLibrary) (send : ℕ → String → Result (Unit {0})) where
  admit-named :
      (calls : Calls) (ws : ℕ) (id : String) (s : SignalingServer)
      → id ≢ ""
      → (admit json send calls ws id s).0
        ≡ (call_offer calls.offer id (store_session id ws (idle s))).server
  unfolding admit call_offer store_session step_server
  admit-named calls ws id s named = elim (Bool-cases (text_empty id)) [
    | inl empty ↦ absurd (named ((text_eq_iff id "").0 empty))
    | inr given ↦ rw given (open_session-step rtc json send calls.offer ws id s)
  ]

  -- A handler that nothing interrupts does what its steps do one after the other: a connection that
  -- gets a peer, a disconnection, and the stop.
  steps_uninterrupted :
      (draw ws : ℕ) (calls : Calls) (s : SignalingServer) (left : String)
      → (create_peer rtc draw (some ws) s.webrtc_server).0 ≢ ""
      → let id = (create_peer rtc draw (some ws) s.webrtc_server).0 in
        ((on_client_connected json send rtc draw calls ws s).0
          ≡ (call_offer calls.offer id
              (store_session id ws (begin_connect rtc draw ws (idle s)))).server)
        × (on_client_disconnected left s ≡ (drop_peer left (erase_session left (idle s))).server)
        × ((stop s).0 ≡ (close_sessions (stop_running (idle s))).server)
  unfolding on_client_connected begin_connect call_offer store_session on_client_disconnected
      drop_peer erase_session stop_running close_sessions stop
  steps_uninterrupted draw ws calls s left named =
      let (id, t) = create_peer rtc draw (some ws) s.webrtc_server in
      (admit-named calls ws id (record s { webrtc_server = t }) named, refl, refl)
