-- ===== src/Signaling.antt =====
-- src/signaling_server.hpp and src/signaling_server.cpp: the WebSocket server that introduces
-- browsers to peers. The JSON library is the parameter `JsonLibrary`, what libdatachannel answers
-- are `Calls` and `send`; a WebSocket is its handle, and what happens outside is a list of `Effect`s.
-- Here a handler is one function; Signaling.Handlers has it step by step.
mod State
pub mod Routes
pub mod Connect
pub mod Message
pub mod Executions
pub mod Handlers
pub mod Coherent
pub mod Interleaving
pub mod Uninterrupted
pub mod Factors
pub mod Delivery
pub mod Departure
pub mod Bounds
pub mod Fixtures
mod Tests
unfoldable pub use State.*
use ioh_robodog_webrtc.Prelude.{
  ℕ, String, Bool, ◌&&◌, ◌||◌, Option, none, some, List, [], ◌∷◌, ◌++◌, if◌then◌else◌, text_eq,
  text_empty,
}
use ioh_robodog_webrtc.Prelude.Int.{pos, ltb_ℤ}
use ioh_robodog_webrtc.Prelude.Map.{insert}
use ioh_robodog_webrtc.Prelude.Results.{Result, ok, err, ◌>>=◌}
use ioh_robodog_webrtc.Config.{WebRtcConfig}
use ioh_robodog_webrtc.Peer.{Rtc, Signal}
use ioh_robodog_webrtc.WebRtc.{Server, create_peer, start_offer, handle_answer, handle_candidate}

module _ (json : JsonLibrary) (send : ℕ → String → Result (Unit {0})) where
  open json use {Json, parse, value_text, value_int, value_json, text, array, object, dump}

  -- `ws->send(msg.dump())`.
  unfoldable pub send_message : ℕ → Json → Result (List Effect)
  send_message ws msg = do s ← dump msg; _ ← send ws s; ok (sent ws s ∷ [])

  -- The callback that a peer signals through; `alive` is what `ws_weak.lock()` says.
  unfoldable pub on_signal : Bool → Signal → List Effect
  unfolding send_message
  on_signal alive m =
      let data_field =
        if text_eq m.kind "offer" || text_eq m.kind "answer"
        then ("sdp", text m.payload) ∷ []
        else if text_eq m.kind "candidate"
        then ("data", elim (parse m.payload) [ ok v ↦ v | err what ↦ text m.payload ]) ∷ []
        else [] in
      if alive
      then or_nothing (send_message m.target (object (("type", text m.kind) ∷ data_field)))
      else []

  -- `json ice_servers`.
  unfoldable pub ice_servers : WebRtcConfig → List Json
  ice_servers c =
      (if text_empty c.stun_server then [] else object (("urls", text c.stun_server) ∷ []) ∷ [])
      ++ (if text_empty c.turn_server
          then []
          else object (
              ("urls", text c.turn_server)
              ∷ ("username", text c.turn_username)
              ∷ ("credential", text c.turn_credential)
              ∷ [])
            ∷ [])

  unfoldable pub reject : ℕ → List Effect
  unfolding send_message
  reject ws = or_nothing (do
    effects ←
        send_message ws (
          object (("type", text "error") ∷ ("message", text "Server full, max peers reached") ∷ []))
    ok (effects ++ closed_socket ws ∷ []))

  unfoldable pub welcome : ℕ → String → WebRtcConfig → List Effect
  unfolding send_message ice_servers
  welcome ws id c = or_nothing (
      send_message ws (
        object (
          ("type", text "welcome")
          ∷ ("peerId", text id)
          ∷ ("iceServers", array (ice_servers c))
          ∷ [])))

  -- After the welcome: the session, the handlers, the offer, which may throw.
  unfoldable pub open_session :
      Result (Unit {0})
      → ℕ
      → String
      → SignalingServer
      → SignalingServer × List Effect × Option String
  open_session offer ws id s =
      let t : SignalingServer = record s {
        clients = insert id (record { ws = ws; peer_id = id }) s.clients;
      } in
      elim (start_offer offer id t.webrtc_server) [
        | ok server ↦ (record t { webrtc_server = server }, subscribed ws id ∷ [], none)
        | err what ↦ (t, subscribed ws id ∷ [], some what)
      ]

  -- From the name that `create_peer` returns on.
  unfoldable pub admit :
      Calls → ℕ → String → SignalingServer → SignalingServer × List Effect × Option String
  unfolding reject welcome open_session
  admit calls ws id s =
      let (t, effects, escaped) = open_session calls.offer ws id s in
      if text_empty id
      then (s, reject ws, none)
      else (t, welcome ws id s.config.webrtc ++ effects, escaped)

  unfoldable pub on_client_connected :
      Rtc → ℕ → Calls → ℕ → SignalingServer → SignalingServer × List Effect × Option String
  unfolding admit
  on_client_connected rtc draw calls ws s =
      let (id, server) = create_peer rtc draw (some ws) s.webrtc_server in
      admit calls ws id (record s { webrtc_server = server })

  -- The branches of `on_client_message`.
  unfoldable pub on_answer : Calls → String → Json → SignalingServer → Caught
  on_answer calls id msg s = from_json (value_text msg "sdp" "") (λ sdp.
      if text_empty sdp
      then done s []
      else from_call (handle_answer (calls.answer sdp) id s.webrtc_server)
          (λ server. done (record s { webrtc_server = server }) []))

  unfoldable pub on_candidate : Calls → String → Json → SignalingServer → Caught
  on_candidate calls id msg s = from_json (value_json msg "data" (object [])) (λ data_field.
      from_json (value_text data_field "candidate" "") (λ candidate.
        from_json (value_text data_field "sdpMid" "0") (λ mid.
          if text_empty candidate
          then done s []
          else from_call (handle_candidate (calls.candidate candidate mid) id s.webrtc_server)
              (λ server. done (record s { webrtc_server = server }) []))))

  unfoldable pub on_ping : ℕ → SignalingServer → Caught
  on_ping ws s =
      from_json (dump (object (("type", text "pong") ∷ [])))
        (λ pong. from_call (send ws pong) (λ _. done s (sent ws pong ∷ [])))

  unfoldable pub on_set_bitrate : Json → SignalingServer → Caught
  on_set_bitrate msg s = from_json (value_int msg "bitrate_kbps" (pos 0)) (λ bitrate.
      if ltb_ℤ (pos 0) bitrate && s.bitrate_cb
      then done s (bitrate_requested bitrate ∷ [])
      else done s [])

  unfoldable pub handle_message : Calls → String → ℕ → String → SignalingServer → Caught
  unfolding on_answer on_candidate on_ping on_set_bitrate
  handle_message calls id ws message s = from_json (parse message) (λ msg.
      from_json (value_text msg "type" "") (λ kind.
        if text_eq kind "answer"
        then on_answer calls id msg s
        else if text_eq kind "candidate"
        then on_candidate calls id msg s
        else if text_eq kind "ping"
        then on_ping ws s
        else if text_eq kind "set_bitrate"
        then on_set_bitrate msg s
        else done s []))

  unfoldable pub on_client_message :
      Calls → String → ℕ → String → SignalingServer → SignalingServer × List Effect × Option String
  unfolding handle_message settle
  on_client_message calls id ws message s = settle s (handle_message calls id ws message s)

  -- `send_json`.
  unfoldable pub send_json : ℕ → String → String → String → List Effect
  unfolding send_message
  send_json ws kind id payload = or_nothing (
      send_message ws
        (object (("type", text kind) ∷ ("peerId", text id) ∷ ("data", text payload) ∷ [])))
