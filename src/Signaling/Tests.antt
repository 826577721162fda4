-- ===== src/Signaling/Tests.antt =====
-- Runs of the signaling server.
use ioh_robodog_webrtc.Prelude.{
  String, ◌≡◌, ◌≢◌, refl, ap, true, false, All, inl, inr, some, none, List, [], ◌∷◌, text_eq,
}
use mathlib.Core.Bool.{true≢false}
use ioh_robodog_webrtc.Prelude.Map.{find, insert}
use ioh_robodog_webrtc.Config.{default_config}
use ioh_robodog_webrtc.Peer.{RtcState}
use ioh_robodog_webrtc.WebRtc.{init as init_server}
use ioh_robodog_webrtc.Signaling.{
  SignalingServer, sent, closed_socket, subscribed, init, set_bitrate_callback, on_client_connected,
  on_client_message,
}
use ioh_robodog_webrtc.Signaling.Routes.{IsRouted}
use ioh_robodog_webrtc.Signaling.Message.{on_client_message-other}
use ioh_robodog_webrtc.Signaling.Connect.{
  IsKnown, on_client_connected-refused, on_client_connected-accepted,
}
use ioh_robodog_webrtc.Signaling.Executions.{
  Event, messages, disconnects, peer_state, cleanup, broadcast, step, run, run-IsRouted,
}
use ioh_robodog_webrtc.WebRtc.{is_full, create_peer, broadcast_nal}
use ioh_robodog_webrtc.WebRtc.Broadcast.{broadcast_stamp}
use ioh_robodog_webrtc.Signaling.Delivery.{SparesEvent, on_client_connected-delivers}
use ioh_robodog_webrtc.Signaling.{on_client_disconnected}
use ioh_robodog_webrtc.Signaling.Handlers.{
  Busy, idle, begin_connect, store_session, stop_running, close_sessions, Reach, here, next,
  connects, stores, stops, closes,
}
use ioh_robodog_webrtc.Signaling.Coherent.{IsCoherent}
use ioh_robodog_webrtc.Signaling.Interleaving.{Reach-IsCoherent}
use ioh_robodog_webrtc.Signaling.Bounds.{Reach-IsConsistent}
use ioh_robodog_webrtc.WebRtc.Invariant.{IsConsistent}
use native.Mathlib.Omega.{arith}
use ioh_robodog_webrtc.WebRtc.PeerId.{generate_peer_id}
use ioh_robodog_webrtc.Peer.{construct}
use ioh_robodog_webrtc.Signaling.Fixtures.{json, sends, taken, calls, library, broken, empty}
use ioh_robodog_webrtc.Signaling.Departure.{on_client_disconnected-silences}

abbrev history : List Event
history =
    Event.connects 42 calls 7
    ∷ Event.connects 43 calls 8
    ∷ messages calls "peer-0000002a" 7 "answer"
    ∷ peer_state "peer-0000002b" RtcState.failed
    ∷ cleanup
    ∷ disconnects "peer-0000002a"
    ∷ []

run-IsRouted_example : IsRouted (run library json sends history empty)
unfolding set_bitrate_callback init init_server
run-IsRouted_example = run-IsRouted library json sends history empty refl

names_differ : ◌≢◌ {A = String} "peer-0000002a" "peer-0000002b"
names_differ e = true≢false (ap (text_eq "peer-0000002a") e)

abbrev two_clients : SignalingServer
two_clients =
    run library json sends (Event.connects 42 calls 7 ∷ Event.connects 43 calls 8 ∷ []) empty

on_client_message-other_example :
    let t = (on_client_message json sends calls "peer-0000002a" 7 "answer" two_clients).0 in
    (t.clients ≡ two_clients.clients)
    × (find "peer-0000002b" t.webrtc_server.peers
        ≡ find "peer-0000002b" two_clients.webrtc_server.peers)
on_client_message-other_example =
    on_client_message-other library json sends calls "peer-0000002a" "peer-0000002b" 7 "answer"
      two_clients names_differ

on_client_connected-refused_example :
    let (t, effects, escaped) = on_client_connected json sends broken 42 calls 7 empty in
    (effects ≡ sent 7 "{}" ∷ closed_socket 7 ∷ [])
    × (t.clients ≡ [])
    × (t.webrtc_server.peers ≡ [])
    × (escaped ≡ none)
unfolding set_bitrate_callback init init_server
on_client_connected-refused_example =
    on_client_connected-refused broken json sends 42 calls 7 "{}" empty (omega arith)
      (inr ("no network", refl)) refl refl

on_client_connected-accepted_example :
    let (t, effects, escaped) = on_client_connected json sends library 42 calls 7 empty in
    (effects ≡ sent 7 "{}" ∷ subscribed 7 "peer-0000002a" ∷ []) × IsKnown 7 "peer-0000002a" t
unfolding set_bitrate_callback init init_server generate_peer_id
on_client_connected-accepted_example =
    on_client_connected-accepted library json sends 42 calls 7 "{}" empty (omega arith)
      (omega arith) refl refl refl

-- A session that is stored between the halves of the stop.
abbrev overtaken : Busy
overtaken =
    close_sessions
      (store_session "peer-0000002a" 7 (stop_running (begin_connect library 42 7 (idle empty))))

overtaken-Reach : Reach library json sends (idle empty) overtaken
unfolding find stop_running begin_connect create_peer set_bitrate_callback init init_server
    construct generate_peer_id insert store_session
overtaken-Reach =
    next
      (next (next (next here (connects 42 7 refl refl)) (stops refl))
        (stores "peer-0000002a" 7 refl refl))
      (closes refl refl)

Reach-IsCoherent_example : IsCoherent overtaken
unfolding set_bitrate_callback init init_server
Reach-IsCoherent_example = Reach-IsCoherent library json sends empty overtaken refl overtaken-Reach

Reach-IsConsistent_example : IsConsistent default_config overtaken.server.webrtc_server
unfolding set_bitrate_callback init init_server overtaken-Reach
Reach-IsConsistent_example =
    Reach-IsConsistent library json sends default_config empty overtaken (omega arith) refl
      overtaken-Reach (omega arith)

-- While the first client waits, another one comes and the first one answers; once the first one is
-- up, the other one fails, sends a message and goes.
abbrev while_waiting : List Event
while_waiting =
    Event.connects 43 calls 8
    ∷ peer_state "peer-0000002a" RtcState.connecting
    ∷ messages calls "peer-0000002a" 7 "answer"
    ∷ []

abbrev while_up : List Event
while_up =
    broadcast taken (1 ∷ []) 1000
    ∷ peer_state "peer-0000002b" RtcState.failed
    ∷ messages calls "peer-0000002b" 8 "{"
    ∷ disconnects "peer-0000002b"
    ∷ cleanup
    ∷ []

other_name : ◌≢◌ {A = String} "peer-0000002b" "peer-0000002a"
other_name e = true≢false (ap (text_eq "peer-0000002b") e)

while_waiting-SparesEvent : All (SparesEvent false "peer-0000002a") while_waiting
unfolding generate_peer_id
while_waiting-SparesEvent = (other_name, (inr (refl, refl), (tt, tt)))

while_up-SparesEvent : All (SparesEvent true "peer-0000002a") while_up
while_up-SparesEvent = (tt, (inl other_name, (tt, (other_name, (tt, tt)))))

on_client_connected-delivers_example :
    let accepted = (on_client_connected json sends library 42 calls 7 empty).0 in
    let waiting = run library json sends while_waiting accepted in
    let up = step library json sends (peer_state "peer-0000002a" RtcState.connected) waiting in
    let server = (run library json sends while_up up).webrtc_server in
    find "peer-0000002a" (broadcast_nal library taken (5 ∷ 6 ∷ []) 41000 server).1
    ≡ some (
        some (record {
          timestamp = broadcast_stamp library taken (5 ∷ 6 ∷ []) 41000 server.globals;
          bytes = 5 ∷ 6 ∷ [];
        }))
unfolding generate_peer_id is_full set_bitrate_callback init init_server
on_client_connected-delivers_example =
    on_client_connected-delivers library json sends 42 calls 7 while_waiting while_up taken
      (5 ∷ 6 ∷ []) 41000 empty (record { names = tt; led = tt }) refl refl while_waiting-SparesEvent
      while_up-SparesEvent refl refl

third_name : ◌≢◌ {A = String} "peer-0000002c" "peer-0000002a"
third_name e = true≢false (ap (text_eq "peer-0000002c") e)

-- The first client goes, its late message and a report about its connection come, and so does
-- another client.
abbrev afterwards : List Event
afterwards =
    messages calls "peer-0000002a" 7 "answer"
    ∷ peer_state "peer-0000002a" RtcState.connected
    ∷ Event.connects 44 calls 9
    ∷ cleanup
    ∷ []

on_client_disconnected-silences_example :
    let t =
      run library json sends afterwards (on_client_disconnected "peer-0000002a" two_clients) in
    (find "peer-0000002a" t.clients ≡ none)
    × (find "peer-0000002a" t.webrtc_server.peers ≡ none)
    × (find "peer-0000002a" (broadcast_nal library taken (5 ∷ []) 41000 t.webrtc_server).1 ≡ none)
unfolding generate_peer_id set_bitrate_callback init init_server
on_client_disconnected-silences_example =
    on_client_disconnected-silences library json sends "peer-0000002a" afterwards taken (5 ∷ [])
      41000 two_clients
      (run-IsRouted library json sends (Event.connects 42 calls 7 ∷ Event.connects 43 calls 8 ∷ [])
        empty refl)
      (tt, (tt, (third_name, (tt, tt))))
