-- ===== src/Signaling/Handlers.antt =====
-- The handlers of src/signaling_server.cpp step by step, as the threads of the library run them:
-- between two steps of one handler, steps of others and operations of the server of the peers happen.
-- A step holds at most one of the mutexes `clients_mutex_` and `peers_mutex_`.
use ioh_robodog_webrtc.Prelude.{
  ℕ, ◌+◌, ◌-◌, ◌<◌, ◌≡◌, String, false, none, some, List, [], text_eq, text_empty, if◌then◌else◌,
}
use ioh_robodog_webrtc.Prelude.Map.{find, insert, erase}
use ioh_robodog_webrtc.Prelude.Results.{Result}
use ioh_robodog_webrtc.Peer.{Rtc}
use ioh_robodog_webrtc.WebRtc.{Server, create_peer, start_offer, remove_peer}
use ioh_robodog_webrtc.WebRtc.Ops.{Op, settled}
use ioh_robodog_webrtc.WebRtc.Ops.{step as step_server}
use ioh_robodog_webrtc.WebRtc.Idents.{IsCreate}
use ioh_robodog_webrtc.Signaling.{SignalingServer, JsonLibrary, Calls, stop, on_client_message}

-- The server with the handlers that are under way: by peer name the socket of a connection whose
-- session is not stored yet, how many handlers are about to call `start_offer`, and how many have
-- erased the session and are about to remove the peer.
pub record Busy : Type 0 where
  pub server : SignalingServer
  pub welcoming : List (String × ℕ)
  pub offering : String → ℕ
  pub leaving : String → ℕ

abbrev pub idle : SignalingServer → Busy
idle s = record { server = s; welcoming = []; offering = λ id. 0; leaving = λ id. 0 }

abbrev pub raised : String → (String → ℕ) → String → ℕ
raised id count j = if text_eq id j then count j + 1 else count j

abbrev pub lowered : String → (String → ℕ) → String → ℕ
lowered id count j = if text_eq id j then count j - 1 else count j

abbrev with_peers : Server → SignalingServer → SignalingServer
with_peers t s = record s { webrtc_server = t }

-- `on_client_connected` up to the welcome: a refusal ends the handler.
unfoldable pub begin_connect : Rtc → ℕ → ℕ → Busy → Busy
begin_connect rtc draw ws s =
    let (id, t) = create_peer rtc draw (some ws) s.server.webrtc_server in
    record s {
      server = with_peers t s.server;
      welcoming = if text_empty id then s.welcoming else insert id ws s.welcoming;
    }

-- The session is stored and the handlers of the socket are set.
unfoldable pub store_session : String → ℕ → Busy → Busy
store_session id ws s = record s {
  server = record (s.server) {
    clients = insert id (record { ws = ws; peer_id = id }) s.server.clients;
  };
  welcoming = erase id s.welcoming;
  offering = raised id s.offering;
}

-- The offer, which may throw.
unfoldable pub call_offer : Result (Unit {0}) → String → Busy → Busy
unfolding start_offer
call_offer answer id s = record s {
  server =
      with_peers (settled s.server.webrtc_server (start_offer answer id s.server.webrtc_server))
        s.server;
  offering = lowered id s.offering;
}

-- The two halves of `on_client_disconnected`.
unfoldable pub erase_session : String → Busy → Busy
erase_session id s = record s {
  server = record (s.server) { clients = erase id s.server.clients };
  leaving = raised id s.leaving;
}

unfoldable pub drop_peer : String → Busy → Busy
drop_peer id s = record s {
  server = with_peers (remove_peer id s.server.webrtc_server) s.server;
  leaving = lowered id s.leaving;
}

-- The two halves of `stop`.
unfoldable pub stop_running : Busy → Busy
stop_running s = record s { server = record (s.server) { running = false } }

unfoldable pub close_sessions : Busy → Busy
close_sessions s = record s { server = (stop s.server).0 }

-- The steps. The names of the handlers under way differ: `create_peer` draws none of them again.
pub data Step (rtc : Rtc) (json : JsonLibrary) (send : ℕ → String → Result (Unit {0})) (s t : Busy)
    : Type 0 where
  connects :
      (draw ws : ℕ)
      → find (create_peer rtc draw (some ws) s.server.webrtc_server).0 s.welcoming ≡ none
      → t ≡ begin_connect rtc draw ws s
      → Step rtc json send s t
  stores :
      (id : String) (ws : ℕ)
      → find id s.welcoming ≡ some ws
      → t ≡ store_session id ws s
      → Step rtc json send s t
  calls_offer :
      (answer : Result (Unit {0})) (id : String)
      → 0 < s.offering id
      → t ≡ call_offer answer id s
      → Step rtc json send s t
  hears :
      (calls : Calls) (id : String) (ws : ℕ) (message : String)
      → t ≡ record s { server = (on_client_message json send calls id ws message s.server).0 }
      → Step rtc json send s t
  erases : (id : String) → t ≡ erase_session id s → Step rtc json send s t
  drops : (id : String) → 0 < s.leaving id → t ≡ drop_peer id s → Step rtc json send s t
  behind :
      (o : Op)
      → ¬ IsCreate o
      → t ≡ record s { server = with_peers (step_server rtc o s.server.webrtc_server) s.server }
      → Step rtc json send s t
  stops : t ≡ stop_running s → Step rtc json send s t
  closes : s.server.running ≡ false → t ≡ close_sessions s → Step rtc json send s t

-- What can be reached by any steps in any order.
pub data Reach (rtc : Rtc) (json : JsonLibrary) (send : ℕ → String → Result (Unit {0})) (s : Busy)
    : Busy → Type 0 where
  here : Reach rtc json send s s
  next : {t u : Busy} → Reach rtc json send s t → Step rtc json send t u → Reach rtc json send s u
