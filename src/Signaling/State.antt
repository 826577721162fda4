-- ===== src/Signaling/State.antt =====
-- The state of src/signaling_server.hpp, the libraries it uses, and the operations without messages.
use ioh_robodog_webrtc.Prelude.{ℕ, String, Bool, true, false, Option, none, some, List, [], map}
use ioh_robodog_webrtc.Prelude.Int.{ℤ}
use ioh_robodog_webrtc.Prelude.Map.{erase}
use ioh_robodog_webrtc.Prelude.Results.{Result, ok, err}
use ioh_robodog_webrtc.Config.{AppConfig}
use ioh_robodog_webrtc.WebRtc.{Server, remove_peer}

pub record ClientSession : Type 0 where
  pub ws : ℕ
  pub peer_id : String

-- `ws_server` says that there is a listening server, `bitrate_cb` that a callback is set.
pub record SignalingServer : Type 0 where
  pub config : AppConfig
  pub webrtc_server : Server
  pub ws_server : Bool
  pub clients : List (String × ClientSession)
  pub running : Bool
  pub bitrate_cb : Bool

pub data Effect : Type 0 where
  sent : ℕ → String → Effect
  closed_socket : ℕ → Effect
  subscribed : ℕ → String → Effect
  bitrate_requested : ℤ → Effect

-- What the program calls of nlohmann::json; `value_…` is `value(key, fallback)`, which throws on a
-- value of another type, and `dump` throws on a text that is not UTF-8.
pub record JsonLibrary : Type 1 where
  pub Json : Type 0
  pub parse : String → Result Json
  pub value_text : Json → String → String → Result String
  pub value_int : Json → String → ℤ → Result ℤ
  pub value_json : Json → String → Json → Result Json
  pub text : String → Json
  pub array : List Json → Json
  pub object : List (String × Json) → Json
  pub dump : Json → Result String

-- What libdatachannel answers to an offer, an answer and a candidate.
pub record Calls : Type 0 where
  pub offer : Result (Unit {0})
  pub answer : String → Result (Unit {0})
  pub candidate : String → String → Result (Unit {0})

-- How the body of a `try` block ends.
pub data Caught : Type 0 where
  done : SignalingServer → List Effect → Caught
  json_exception : String → Caught
  other_exception : String → Caught

abbrev pub from_json {ℓ} : {A : Type ℓ} → Result A → (A → Caught) → Caught
from_json (ok a) f = f a
from_json (err what) f = json_exception what

abbrev pub from_call {ℓ} : {A : Type ℓ} → Result A → (A → Caught) → Caught
from_call (ok a) f = f a
from_call (err what) f = other_exception what

-- `catch (const json::exception&)`: the last part is an exception that leaves the handler.
unfoldable pub settle : SignalingServer → Caught → SignalingServer × List Effect × Option String
settle s (done t effects) = (t, effects, none)
settle s (json_exception what) = (s, [], none)
settle s (other_exception what) = (s, [], some what)

-- `catch (...) {}`.
abbrev pub or_nothing : Result (List Effect) → List Effect
or_nothing (ok effects) = effects
or_nothing (err what) = []

unfoldable pub init : AppConfig → Server → SignalingServer
init c server = record {
  config = c;
  webrtc_server = server;
  ws_server = false;
  clients = [];
  running = false;
  bitrate_cb = false;
}

unfoldable pub set_bitrate_callback : SignalingServer → SignalingServer
set_bitrate_callback s = record s { bitrate_cb = true }

-- The argument is what the constructor of the library's server does with the port.
unfoldable pub start : (ℕ → Result (Unit {0})) → SignalingServer → Bool × SignalingServer
start listen s = elim (listen s.config.server.signaling_port) [
  | ok listening ↦ (true, record s { ws_server = true; running = true })
  | err what ↦ (false, s)
]

unfoldable pub stop : SignalingServer → SignalingServer × List Effect
stop s = (
  record s { running = false; clients = []; ws_server = false },
  map (λ e. closed_socket e.1.ws) s.clients,
)

unfoldable pub on_client_disconnected : String → SignalingServer → SignalingServer
on_client_disconnected id s = record s {
  clients = erase id s.clients;
  webrtc_server = remove_peer id s.webrtc_server;
}
