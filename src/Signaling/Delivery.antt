-- ===== src/Signaling/Delivery.antt =====
-- From a WebSocket's connection in src/signaling_server.cpp to the frames of its peer, while other
-- clients come, send their messages and go.
use ioh_robodog_webrtc.Prelude.{
  ℕ, ◌≡◌, ◌≢◌, sym, subst, String, Bool, true, false, some, List, [], ◌∷◌, All, ◌⊎◌, text_empty,
  Bool-cases, inl, inr,
}
use ioh_robodog_webrtc.Prelude.Map.{find}
use ioh_robodog_webrtc.Prelude.Results.{Result, ok}
use ioh_robodog_webrtc.Peer.{Rtc, RtcState, TrackAnswer, is_up, is_final}
use ioh_robodog_webrtc.WebRtc.{is_full, create_peer, broadcast_nal}
use ioh_robodog_webrtc.WebRtc.PeerId.{generate_peer_id}
use ioh_robodog_webrtc.WebRtc.Ops
use ioh_robodog_webrtc.WebRtc.Ops.{
  Op, creates, offers, removes, broadcasts, cleans, state_changes, track_opens, stops,
}
use ioh_robodog_webrtc.WebRtc.Create.{admission}
use ioh_robodog_webrtc.WebRtc.Broadcast.{broadcast_stamp}
use ioh_robodog_webrtc.WebRtc.Order.{IsNamed, create-IsNamed}
use ioh_robodog_webrtc.WebRtc.Viewers.{IsWatching, create-IsWatching, step-IsWatching}
use ioh_robodog_webrtc.WebRtc.Delivery.{
  creates-IsWatching, connects-IsWatching, broadcast_nal-found,
}
use ioh_robodog_webrtc.Signaling.{
  SignalingServer, JsonLibrary, Calls, admit, stop, on_client_connected, on_client_disconnected,
}
use ioh_robodog_webrtc.Signaling.Routes.{IsRouted, open_session-step}
use ioh_robodog_webrtc.Signaling.Message.{Acts, on_client_message-Acts}
use ioh_robodog_webrtc.Signaling.Executions.{
  Event, connects, messages, disconnects, broadcast, cleanup, peer_state, peer_track, server_stops,
  signaling_stops, step, run, step-IsRouted, run_keeps,
}

-- What leaves the client of this name in its place: all but the end of its own WebSocket, a report
-- that its connection is over, or that it is up or not against b, a new client under its name, and
-- the stop of the server of the peers. Every message leaves it there, whoever sends it.
abbrev pub SparesEvent : Bool → String → Event → Type 0
SparesEvent b id (connects draw calls ws) = generate_peer_id draw ≢ id
SparesEvent b id (disconnects j) = j ≢ id
SparesEvent b id (peer_state j t) = (j ≢ id) ⊎ ((is_up t ≡ b) × (is_final t ≡ false))
SparesEvent b id server_stops = ⊥
SparesEvent b id _ = Unit

abbrev Watches : Bool → String → SignalingServer → Type 0
Watches b id s = IsWatching b s.webrtc_server.peers id

Acts-Watches :
    {b : Bool} (rtc : Rtc) (j id : String) (s t : SignalingServer)
    → IsNamed s.webrtc_server
    → Acts rtc j s t
    → Watches b id s
    → Watches b id t
Acts-Watches {b = b} rtc j id s t a (inl e) w = subst (Watches b id) (sym e) w
Acts-Watches {b = b} rtc j id s t a (inr (o, (named, calm), e)) w =
    subst (Watches b id) (sym e) (step-IsWatching rtc o s.webrtc_server id a (calm b id) w)

module _ (rtc : Rtc) (json : JsonLibrary) (send : ℕ → String → Result (Unit {0})) where
  -- The offer to a new client.
  admit-Watches :
      {b : Bool} (calls : Calls) (ws : ℕ) (j id : String) (s : SignalingServer)
      → IsNamed s.webrtc_server
      → Watches b id s
      → Watches b id (admit json send calls ws j s).0
  unfolding admit
  admit-Watches calls ws j id s a w = elim (Bool-cases (text_empty j)) [
    | inl empty ↦ rw empty w
    | inr given ↦
        rw (given, open_session-step rtc json send calls.offer ws j s)
          (step-IsWatching rtc (offers calls.offer j) s.webrtc_server id a tt w)
  ]

  connected-Watches :
      {b : Bool} (draw : ℕ) (calls : Calls) (ws : ℕ) (id : String) (s : SignalingServer)
      → IsNamed s.webrtc_server
      → IsWatching b (create_peer rtc draw (some ws) s.webrtc_server).1.peers id
      → Watches b id (on_client_connected json send rtc draw calls ws s).0
  unfolding on_client_connected
  connected-Watches draw calls ws id s a w =
      let (j, t) = create_peer rtc draw (some ws) s.webrtc_server in
      admit-Watches calls ws j id (record s { webrtc_server = t })
        (create-IsNamed rtc draw (some ws) s.webrtc_server a) w

  step-Watches :
      {b : Bool} (e : Event) (id : String) (s : SignalingServer)
      → IsNamed s.webrtc_server
      → SparesEvent b id e
      → Watches b id s
      → Watches b id (step rtc json send e s)
  unfolding step on_client_disconnected stop Ops.step
  step-Watches (connects draw calls ws) id s a n w =
      connected-Watches draw calls ws id s a
        (create-IsWatching rtc draw (some ws) s.webrtc_server id n w)
  step-Watches (messages calls j ws message) id s a n w =
      Acts-Watches rtc j id s _ a (on_client_message-Acts rtc json send calls j ws message s) w
  step-Watches (disconnects j) id s a n w = step-IsWatching rtc (removes j) s.webrtc_server id a n w
  step-Watches (broadcast taken bytes ts) id s a n w =
      step-IsWatching rtc (broadcasts taken bytes ts) s.webrtc_server id a n w
  step-Watches cleanup id s a n w = step-IsWatching rtc cleans s.webrtc_server id a n w
  step-Watches (peer_state j t) id s a n w =
      step-IsWatching rtc (state_changes j t) s.webrtc_server id a n w
  step-Watches (peer_track j) id s a n w =
      step-IsWatching rtc (track_opens j) s.webrtc_server id a n w
  step-Watches server_stops id s a n w = absurd n
  step-Watches signaling_stops id s a n w = w

  run-Watches :
      {b : Bool} (es : List Event) (id : String) (s : SignalingServer)
      → IsRouted s
      → All (SparesEvent b id) es
      → Watches b id s
      → Watches b id (run rtc json send es s)
  unfolding run
  run-Watches [] id s r n w = w
  run-Watches (e ∷ es) id s r n w =
      run-Watches es id (step rtc json send e s) (step-IsRouted rtc json send e s r) n.1
        (step-Watches e id s r.names n.0 w)

  -- A client that finds room, whose peer the library makes, and whose connection comes up, gets a
  -- frame whole under its broadcast's stamp, whatever happened before and since that left the client
  -- in its place: others that came, failed, sent anything and went, and every message of its own.
  -- In the server before it each peer has its session, as after any events; the client's track
  -- has to be open and to take the frame.
  pub on_client_connected-delivers :
      (draw : ℕ) (calls : Calls) (ws : ℕ) (before since : List Event) (taken : String → TrackAnswer)
      (bytes : List ℕ) (ts : ℕ) (s : SignalingServer)
      → IsRouted s
      → is_full s.webrtc_server ≡ false
      → admission rtc s.webrtc_server ≡ ok tt
      → All (SparesEvent false (generate_peer_id draw)) before
      → All (SparesEvent true (generate_peer_id draw)) since
      → (taken (generate_peer_id draw)).is_open ≡ true
      → (taken (generate_peer_id draw)).send ≡ ok tt
      → let id = generate_peer_id draw in
        let accepted = (on_client_connected json send rtc draw calls ws s).0 in
        let waiting = run rtc json send before accepted in
        let up = step rtc json send (peer_state id RtcState.connected) waiting in
        let server = (run rtc json send since up).webrtc_server in
        find id (broadcast_nal rtc taken bytes ts server).1
        ≡ some (
            some (record {
              timestamp = broadcast_stamp rtc taken bytes ts server.globals;
              bytes = bytes;
            }))
  unfolding step
  on_client_connected-delivers draw calls ws before since taken bytes ts s r free ready early late
        opened sent =
      let id = generate_peer_id draw in
      let accepted = (on_client_connected json send rtc draw calls ws s).0 in
      let waiting = run rtc json send before accepted in
      let comes_up = peer_state id RtcState.connected in
      let up = step rtc json send comes_up waiting in
      let r₁ = step-IsRouted rtc json send (connects draw calls ws) s r in
      let r₂ = run_keeps rtc json send before accepted r₁ in
      let waits = run-Watches before id accepted r₁ early (
        connected-Watches draw calls ws id s r.names
          (creates-IsWatching rtc draw (some ws) s.webrtc_server free ready)) in
      broadcast_nal-found rtc taken bytes ts (run rtc json send since up).webrtc_server id opened
        sent
        (run-Watches since id up (step-IsRouted rtc json send comes_up waiting r₂) late
          (connects-IsWatching rtc waiting.webrtc_server id waits))
