-- ===== src/Signaling/Fixtures.antt =====
-- What the tests of src/signaling_server.cpp stand on: a JSON library in memory, and the answers of
-- the other libraries.
use ioh_robodog_webrtc.Prelude.{ℕ, String, true, if◌then◌else◌, text_eq}
use ioh_robodog_webrtc.Prelude.Int.{pos}
use ioh_robodog_webrtc.Prelude.Results.{Result, ok, err}
use ioh_robodog_webrtc.Config.{default_config}
use ioh_robodog_webrtc.Peer.{Rtc, TrackAnswer}
use ioh_robodog_webrtc.WebRtc.{init as init_server}
use ioh_robodog_webrtc.Signaling.{JsonLibrary, Calls, SignalingServer, init, set_bitrate_callback}

-- A message is its own type; every number in it is 1500, and every text "x".
abbrev pub json : JsonLibrary
json = record {
  Json = String;
  parse = λ s. if text_eq s "{" then err "parse error" else ok s;
  value_text = λ j key fallback. if text_eq key "type" then ok j else ok "x";
  value_int = λ j key fallback. ok (pos 1500);
  value_json = λ j key fallback. ok fallback;
  text = λ s. s;
  array = λ js. "[]";
  object = λ fields. "{}";
  dump = λ j. ok j;
}

abbrev pub sends : ℕ → String → Result (Unit {0})
sends ws s = ok tt

abbrev pub taken : String → TrackAnswer
taken id = record { is_open = true; send = ok tt }

abbrev pub calls : Calls
calls = record {
  offer = ok tt;
  answer = λ sdp. ok tt;
  candidate = λ c mid. err "no such candidate";
}

abbrev pub library : Rtc
library = record { default_clock_rate = 90000; make_connection = λ s. ok tt }

abbrev pub broken : Rtc
broken = record { default_clock_rate = 90000; make_connection = λ s. err "no network" }

abbrev pub empty : SignalingServer
empty = record (set_bitrate_callback (init default_config (init_server default_config))) {
  running = true;
}
