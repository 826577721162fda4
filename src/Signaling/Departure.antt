-- ===== src/Signaling/Departure.antt =====
-- A client of src/signaling_server.cpp that has gone, while other clients come, send their messages
-- and go.
use ioh_robodog_webrtc.Prelude.{
  ℕ, ◌≡◌, ◌≢◌, refl, sym, ap, ◌∙◌, String, Bool, true, false, some, none, List, [], ◌∷◌, All, ◌⊎◌,
  Option, if◌then◌else◌, text_eq, text_eq_iff, text_empty, if_taken, if_left, Bool-cases, inl, inr,
}
use ioh_robodog_webrtc.Prelude.Map.{find, find-insert, find-erase}
use ioh_robodog_webrtc.Prelude.Results.{Result}
use ioh_robodog_webrtc.Peer.{Rtc, TrackAnswer}
use ioh_robodog_webrtc.WebRtc.{Server, create_peer, broadcast_nal}
use ioh_robodog_webrtc.WebRtc.PeerId.{generate_peer_id}
use ioh_robodog_webrtc.WebRtc.Ops.{offers, broadcasts, cleans, state_changes, track_opens, stops}
use ioh_robodog_webrtc.WebRtc.Create.{create_peer-cases}
use ioh_robodog_webrtc.WebRtc.Lookups.{find-remove_peer, text_ne}
use ioh_robodog_webrtc.WebRtc.Absent.{
  Lacks, create_peer-Lacks, named-Lacks, step-Lacks, broadcast_nal-Lacks,
}
use ioh_robodog_webrtc.Signaling.{
  SignalingServer, JsonLibrary, Calls, admit, stop, on_client_connected, on_client_disconnected,
}
use ioh_robodog_webrtc.Signaling.Routes.{IsRouted, open_session-step}
use ioh_robodog_webrtc.Signaling.Message.{Acts, on_client_message-Acts}
use ioh_robodog_webrtc.Signaling.Executions.{
  Event, connects, messages, disconnects, broadcast, cleanup, peer_state, peer_track, server_stops,
  signaling_stops, step, run, step-IsRouted,
}

-- Neither a session nor a peer of this name is there.
abbrev pub IsGone : String → SignalingServer → Type 0
IsGone id s = (find id s.clients ≡ none) × Lacks s.webrtc_server id

-- An event in which no new client gets this name.
abbrev pub AvoidsEvent : String → Event → Type 0
AvoidsEvent id (connects draw calls ws) = generate_peer_id draw ≢ id
AvoidsEvent id _ = Unit

Acts-IsGone :
    (rtc : Rtc) (j id : String) (s t : SignalingServer) → Acts rtc j s t → IsGone id s → IsGone id t
Acts-IsGone rtc j id s t (inl e) g = rw e g
Acts-IsGone rtc j id s t (inr (o, (named, calm), e)) g =
    rw e (g.0, named-Lacks rtc o s.webrtc_server j id named g.1)

disconnected-IsGone : (id : String) (s : SignalingServer) → IsGone id (on_client_disconnected id s)
unfolding on_client_disconnected
disconnected-IsGone id s =
    let same = (text_eq_iff id id).1 refl in
    (
      find-erase id id s.clients ∙ if_taken _ _ same,
      find-remove_peer id id s.webrtc_server ∙ if_taken _ _ same,
    )

none_either : {A : Type 0} → (b : Bool) (o : Option A) → o ≡ none → (if b then none else o) ≡ none
none_either true o e = refl
none_either false o e = e

-- When anyone goes.
leaves-IsGone :
    (j id : String) (s : SignalingServer) → IsGone id s → IsGone id (on_client_disconnected j s)
unfolding on_client_disconnected
leaves-IsGone j id s g = (
  find-erase j id s.clients ∙ none_either (text_eq j id) _ g.0,
  find-remove_peer j id s.webrtc_server ∙ none_either (text_eq j id) _ g.1,
)

module _ (rtc : Rtc) (json : JsonLibrary) (send : ℕ → String → Result (Unit {0})) where
  admit-IsGone :
      (calls : Calls) (ws : ℕ) (j id : String) (s : SignalingServer)
      → text_empty j ≡ true ⊎ j ≢ id
      → IsGone id s
      → IsGone id (admit json send calls ws j s).0
  unfolding admit
  admit-IsGone calls ws j id s (inl empty) g = rw empty g
  admit-IsGone calls ws j id s (inr n) g = elim (Bool-cases (text_empty j)) [
    | inl empty ↦ rw empty g
    | inr given ↦
        rw (given, open_session-step rtc json send calls.offer ws j s)
          (
            find-insert j id (record { ws = ws; peer_id = j }) s.clients
                ∙ if_left _ _ (text_ne j id n)
                ∙ g.0,
            named-Lacks rtc (offers calls.offer j) s.webrtc_server j id refl g.1,
          )
  ]

  -- The name that a new client gets is empty or the one that was drawn.
  created-name :
      (draw : ℕ) (ws : ℕ) (s : Server) (id : String)
      → generate_peer_id draw ≢ id
      → let j = (create_peer rtc draw (some ws) s).0 in text_empty j ≡ true ⊎ j ≢ id
  created-name draw ws s id n = elim (create_peer-cases rtc draw (some ws) s) [
    | inl (full, (name, e)) ↦ inl (ap text_empty name)
    | inr (inl (free, why, (name, e))) ↦ inl (ap text_empty name)
    | inr (inr (free, ready, (name, stored, found))) ↦ inr (λ e. n (sym name ∙ e))
  ]

  connected-IsGone :
      (draw : ℕ) (calls : Calls) (ws : ℕ) (id : String) (s : SignalingServer)
      → generate_peer_id draw ≢ id
      → IsGone id s
      → IsGone id (on_client_connected json send rtc draw calls ws s).0
  unfolding on_client_connected
  connected-IsGone draw calls ws id s n g =
      let (j, t) = create_peer rtc draw (some ws) s.webrtc_server in
      admit-IsGone calls ws j id (record s { webrtc_server = t })
        (created-name draw ws s.webrtc_server id n)
        (g.0, create_peer-Lacks rtc draw (some ws) s.webrtc_server id n g.1)

  step-IsGone :
      (e : Event) (id : String) (s : SignalingServer)
      → IsRouted s
      → AvoidsEvent id e
      → IsGone id s
      → IsGone id (step rtc json send e s)
  unfolding step stop find
  step-IsGone (connects draw calls ws) id s r n g = connected-IsGone draw calls ws id s n g
  step-IsGone (messages calls j ws message) id s r n g =
      Acts-IsGone rtc j id s _ (on_client_message-Acts rtc json send calls j ws message s) g
  step-IsGone (disconnects j) id s r n g = leaves-IsGone j id s g
  step-IsGone (broadcast taken bytes ts) id s r n g =
      (g.0, step-Lacks rtc (broadcasts taken bytes ts) s.webrtc_server id r.names tt g.1)
  step-IsGone cleanup id s r n g = (g.0, step-Lacks rtc cleans s.webrtc_server id r.names tt g.1)
  step-IsGone (peer_state j t) id s r n g =
      (g.0, step-Lacks rtc (state_changes j t) s.webrtc_server id r.names tt g.1)
  step-IsGone (peer_track j) id s r n g =
      (g.0, step-Lacks rtc (track_opens j) s.webrtc_server id r.names tt g.1)
  step-IsGone server_stops id s r n g =
      (g.0, step-Lacks rtc stops s.webrtc_server id r.names tt g.1)
  step-IsGone signaling_stops id s r n g = (refl, g.1)

  run-IsGone :
      (es : List Event) (id : String) (s : SignalingServer)
      → IsRouted s
      → All (AvoidsEvent id) es
      → IsGone id s
      → IsGone id (run rtc json send es s)
  unfolding run
  run-IsGone [] id s r n g = g
  run-IsGone (e ∷ es) id s r n g =
      run-IsGone es id (step rtc json send e s) (step-IsRouted rtc json send e s r) n.1
        (step-IsGone e id s r n.0 g)

  -- After its WebSocket is closed a client has neither a session nor a peer and gets no frame, and
  -- nothing brings it back, its late messages and reports about its connection included, as long as
  -- no new client gets its name.
  pub on_client_disconnected-silences :
      (id : String) (es : List Event) (taken : String → TrackAnswer) (bytes : List ℕ) (ts : ℕ)
      (s : SignalingServer)
      → IsRouted s
      → All (AvoidsEvent id) es
      → let t = run rtc json send es (on_client_disconnected id s) in
        (find id t.clients ≡ none)
        × (find id t.webrtc_server.peers ≡ none)
        × (find id (broadcast_nal rtc taken bytes ts t.webrtc_server).1 ≡ none)
  unfolding step
  on_client_disconnected-silences id es taken bytes ts s r avoids =
      let gone =
        run-IsGone es id (on_client_disconnected id s)
          (step-IsRouted rtc json send (disconnects id) s r) avoids (disconnected-IsGone id s) in
      (
        gone.0,
        gone.1,
        broadcast_nal-Lacks rtc taken bytes ts
            (run rtc json send es (on_client_disconnected id s)).webrtc_server id gone.1,
      )
