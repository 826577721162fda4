-- ===== src/Signaling/Executions.antt =====
-- Executions of src/signaling_server.cpp: its handlers, and between them the operations of the
-- server behind it that need no handler, in any order.
use ioh_robodog_webrtc.Prelude.{
  ℕ, ◌≡◌, ◌≢◌, refl, sym, arith, String, false, none, some, List, [], ◌∷◌, map, All, text_eq,
  text_eq_iff, Bool-cases, Option-cases, inl, inr,
}
use ioh_robodog_webrtc.Prelude.Map.{find, erase, find-erase}
use ioh_robodog_webrtc.Prelude.Thins.{Thins-Apart}
use ioh_robodog_webrtc.Prelude.Results.{Result}
use ioh_robodog_webrtc.Peer.{Rtc, RtcState, Peer, TrackAnswer}
use ioh_robodog_webrtc.WebRtc.{Server, remove_peer}
use ioh_robodog_webrtc.WebRtc.Ops.{
  Op, broadcasts, cleans, state_changes, track_opens, starts, stops, removes, answers, offers,
  candidates, creates,
}
use ioh_robodog_webrtc.WebRtc.Ops.{step as step_server}
use ioh_robodog_webrtc.WebRtc.Idents.{Ident, ident, step-idents, IsCreate}
use ioh_robodog_webrtc.WebRtc.Isolation.{target}
use ioh_robodog_webrtc.Signaling.{
  SignalingServer, JsonLibrary, Calls, stop, on_client_disconnected, on_client_connected,
  on_client_message,
}
use ioh_robodog_webrtc.Signaling.Routes.{IsLed, IsRouted, Thins-IsRouted, connected-IsRouted}
use ioh_robodog_webrtc.Signaling.Message.{Acts, on_client_message-Acts}

-- What can happen, with the libraries' answers.
pub data Event : Type 0 where
  connects : ℕ → Calls → ℕ → Event
  messages : Calls → String → ℕ → String → Event
  disconnects : String → Event
  broadcast : (String → TrackAnswer) → List ℕ → ℕ → Event
  cleanup : Event
  peer_state : String → RtcState → Event
  peer_track : String → Event
  server_stops : Event
  signaling_stops : Event

-- An operation of the server behind the handlers.
abbrev by_server : Rtc → Op → SignalingServer → SignalingServer
by_server rtc o s = record s { webrtc_server = step_server rtc o s.webrtc_server }

module _ (rtc : Rtc) (json : JsonLibrary) (send : ℕ → String → Result (Unit {0})) where
  unfoldable pub step : Event → SignalingServer → SignalingServer
  step (connects draw calls ws) s = (on_client_connected json send rtc draw calls ws s).0
  step (messages calls id ws message) s = (on_client_message json send calls id ws message s).0
  step (disconnects id) s = on_client_disconnected id s
  step (broadcast taken bytes ts) s = by_server rtc (broadcasts taken bytes ts) s
  step cleanup s = by_server rtc cleans s
  step (peer_state id t) s = by_server rtc (state_changes id t) s
  step (peer_track id) s = by_server rtc (track_opens id) s
  step server_stops s = by_server rtc stops s
  step signaling_stops s = (stop s).0

  unfoldable pub run : List Event → SignalingServer → SignalingServer
  run [] s = s
  run (e ∷ es) s = run es (step e s)

-- Erasing a session leaves the peers of other names led.
erase-IsLed :
    (s : SignalingServer) (id : String) (k : Ident)
    → id ≢ k.name
    → IsLed s k
    → IsLed (record s { clients = erase id s.clients }) k
erase-IsLed s id k ne led = ground (arith, text_eq_iff id k.name, find-erase id k.name s.clients)

erased-IsLed :
    (s : SignalingServer) (id : String) (m : List (String × Peer))
    → All (IsLed s) (map ident m)
    → All (IsLed (record s { clients = erase id s.clients })) (map ident (erase id m))
unfolding erase
erased-IsLed s id [] led = tt
erased-IsLed s id ((j, p) ∷ m) led = elim (Bool-cases (text_eq j id)) [
  | inl e ↦ rw (e, erase) (erased-IsLed s id m led.1)
  | inr e ↦
      rw (e, erase)
        (
          erase-IsLed s id (ident (j, p)) (λ d. ground (arith, (text_eq_iff j id).1 (sym d))) led.0,
          erased-IsLed s id m led.1,
        )
]

erase_missing : (id : String) (m : List (String × Peer)) → find id m ≡ none → erase id m ≡ m
unfolding erase find
erase_missing id [] e = refl
erase_missing id ((j, p) ∷ m) e = ground (arith, erase_missing id m)

pub remove_peer-peers : (id : String) (s : Server) → (remove_peer id s).peers ≡ erase id s.peers
unfolding remove_peer
remove_peer-peers id s = elim (Option-cases (find id s.peers)) [
  | inl e ↦ rw (e, remove_peer) (sym (erase_missing id s.peers e))
  | inr (p, e) ↦ rw (e, remove_peer) refl
]

disconnected-IsRouted :
    (rtc : Rtc) (id : String) (s : SignalingServer)
    → IsRouted s
    → IsRouted (on_client_disconnected id s)
unfolding on_client_disconnected step_server
disconnected-IsRouted rtc id s r = record {
  names = Thins-Apart (λ i. i.name) (step-idents rtc (removes id) s.webrtc_server (λ h. h)) r.names;
  led = rw (remove_peer-peers id s.webrtc_server) (erased-IsLed s id s.webrtc_server.peers r.led);
}

-- Without sessions, and after the stop, every peer is led.
unled :
    (s : SignalingServer) (is : List Ident) → s.clients ≡ [] → s.running ≡ false → All (IsLed s) is
unfolding find
unled s [] e d = tt
unled s (i ∷ is) e d = (rw e d, unled s is e d)

pub named-ne-IsCreate : (o : Op) (id : String) → target o ≡ some id → ¬ IsCreate o
named-ne-IsCreate (creates draw cb) id e = λ h. cc
named-ne-IsCreate (offers a k) id e = λ h. h
named-ne-IsCreate (answers a k) id e = λ h. h
named-ne-IsCreate (candidates a k) id e = λ h. h
named-ne-IsCreate (removes k) id e = λ h. h
named-ne-IsCreate (broadcasts taken bytes ts) id e = λ h. h
named-ne-IsCreate cleans id e = λ h. h
named-ne-IsCreate (state_changes k t) id e = λ h. h
named-ne-IsCreate (track_opens k) id e = λ h. h
named-ne-IsCreate starts id e = λ h. h
named-ne-IsCreate stops id e = λ h. h

Acts-IsRouted :
    (rtc : Rtc) (id : String) (s t : SignalingServer) → Acts rtc id s t → IsRouted s → IsRouted t
Acts-IsRouted rtc id s t (inl e) r = rw e r
Acts-IsRouted rtc id s t (inr (o, (named, calm), e)) r = rw e (
    Thins-IsRouted s (step_server rtc o s.webrtc_server)
      (step-idents rtc o s.webrtc_server (named-ne-IsCreate o id named)) r)

module _ (rtc : Rtc) (json : JsonLibrary) (send : ℕ → String → Result (Unit {0})) where
  by_server-IsRouted :
      (o : Op) (s : SignalingServer) → ¬ IsCreate o → IsRouted s → IsRouted (by_server rtc o s)
  by_server-IsRouted o s h r = Thins-IsRouted s _ (step-idents rtc o s.webrtc_server h) r

  pub step-IsRouted :
      (e : Event) (s : SignalingServer) → IsRouted s → IsRouted (step rtc json send e s)
  unfolding step stop
  step-IsRouted (connects draw calls ws) s r = connected-IsRouted rtc json send draw calls ws s r
  step-IsRouted (messages calls id ws message) s r =
      Acts-IsRouted rtc id s _ (on_client_message-Acts rtc json send calls id ws message s) r
  step-IsRouted (disconnects id) s r = disconnected-IsRouted rtc id s r
  step-IsRouted (broadcast taken bytes ts) s r =
      by_server-IsRouted (broadcasts taken bytes ts) s (λ h. h) r
  step-IsRouted cleanup s r = by_server-IsRouted cleans s (λ h. h) r
  step-IsRouted (peer_state id t) s r = by_server-IsRouted (state_changes id t) s (λ h. h) r
  step-IsRouted (peer_track id) s r = by_server-IsRouted (track_opens id) s (λ h. h) r
  step-IsRouted server_stops s r = by_server-IsRouted stops s (λ h. h) r
  step-IsRouted signaling_stops s r = record { names = r.names; led = unled (stop s).0 _ refl refl }

  pub run_keeps :
      (es : List Event) (s : SignalingServer) → IsRouted s → IsRouted (run rtc json send es s)
  unfolding run
  run_keeps [] s r = r
  run_keeps (e ∷ es) s r = run_keeps es (step rtc json send e s) (step-IsRouted e s r)

  -- After any events on a server without peers, the names of the peers are distinct, and each peer
  -- has a session under its name and signals to the WebSocket of that session; only while the server
  -- is not running may a peer be without a session.
  pub run-IsRouted :
      (es : List Event) (s : SignalingServer)
      → s.webrtc_server.peers ≡ []
      → IsRouted (run rtc json send es s)
  run-IsRouted es s none_yet =
      run_keeps es s (record { names = rw none_yet tt; led = rw none_yet tt })
