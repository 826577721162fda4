-- ===== src/App/Tests.antt =====
-- A start, a restart and a shutdown of the program.
use ioh_robodog_webrtc.Prelude.{ℕ, String, ◌≡◌, refl, true, false, none, some, List, [], ◌∷◌}
use ioh_robodog_webrtc.Prelude.Results.{Result, ok}
use ioh_robodog_webrtc.Config.{default_config}
use ioh_robodog_webrtc.Prelude.{arith, All, map}
use ioh_robodog_webrtc.Prelude.Int.{pos}
use ioh_robodog_webrtc.Config.{default_webrtc}
use ioh_robodog_webrtc.Peer.{Rtc, TrackAnswer, fresh_peer}
use ioh_robodog_webrtc.Rtsp
use ioh_robodog_webrtc.WebRtc.Broadcast.{broadcast_stamp, packet_for, peer_after}
use ioh_robodog_webrtc.App.{on_sample, on_message}
use ioh_robodog_webrtc.App.Wiring.{IsWithin, on_message-IsWithin, on_sample-delivers}
use ioh_robodog_webrtc.Http
use ioh_robodog_webrtc.Signaling
use ioh_robodog_webrtc.App.{App, components, parse_arguments, startup, shutdown}
use ioh_robodog_webrtc.App.Main.{Tick, main, returned, destroy}
use ioh_robodog_webrtc.App.Life.{ready}
use ioh_robodog_webrtc.App.{startup, operational}
use ioh_robodog_webrtc.Peer.{RtcState}
use ioh_robodog_webrtc.App.Executions.{Happening, client, state, frame, message, watch, gone, run}
use ioh_robodog_webrtc.App.Soundness.{IsSound, run-IsSound}
use ioh_robodog_webrtc.App.Exits.{Ends, main-cases}
use ioh_robodog_webrtc.Config.Load.{Yaml}
use Rtsp.{set_nal_callback}
use Rtsp.{init}
use ioh_robodog_webrtc.Config.Load.{load_config}
use ioh_robodog_webrtc.App.{init_logger}
use ioh_robodog_webrtc.WebRtc.{start}
use Signaling.{set_bitrate_callback}
use ioh_robodog_webrtc.App.{watchdog}

arguments_test : parse_arguments ("-v" ∷ "--config" ∷ "a.yaml" ∷ []) "config.yaml" ≡ some "a.yaml"
unfolding parse_arguments
arguments_test = refl

-- The HTTP port is another program's.
abbrev taken_port : Http.Listening
taken_port = record { socket = some 5; bind = false; listen = true }

abbrev listens : ℕ → Result (Unit {0})
listens port = ok tt

-- A program whose encoder runs, with one peer that is connected.
abbrev json : Signaling.JsonLibrary
json = record {
  Json = String;
  parse = λ s. ok s;
  value_text = λ j key fallback. ok j;
  value_int = λ j key fallback. ok (pos 99999);
  value_json = λ j key fallback. ok fallback;
  text = λ s. s;
  array = λ js. "[]";
  object = λ fields. "{}";
  dump = λ j. ok j;
}

abbrev sends : ℕ → String → Result (Unit {0})
sends ws s = ok tt

abbrev calls : Signaling.Calls
calls = record { offer = ok tt; answer = λ sdp. ok tt; candidate = λ c mid. ok tt }

abbrev library : Rtc
library = record { default_clock_rate = 90000; make_connection = λ s. ok tt }

abbrev taken : String → TrackAnswer
taken id = record { is_open = true; send = ok tt }

abbrev streaming : App
streaming = record (components default_config) {
  rtsp = record (Rtsp.set_nal_callback (Rtsp.init default_config)) {
    encoder = some 3;
    running = true;
  };
  signaling = record ((components default_config).signaling) {
    webrtc_server = record ((components default_config).signaling.webrtc_server) {
      peers =
          (
            "peer-0000002a",
            record (fresh_peer library "peer-0000002a" default_webrtc (some 7) 42) {
              connected = true;
            },
          )
          ∷ [];
    };
  };
}

on_message-IsWithin_example :
    let (b, set) = on_message json sends calls "peer-0000002a" 7 "set_bitrate" streaming in
    All (IsWithin streaming.rtsp) set × (b.rtsp ≡ streaming.rtsp)
unfolding set_nal_callback init
on_message-IsWithin_example =
    on_message-IsWithin json sends calls "peer-0000002a" 7 "set_bitrate" streaming (omega arith)
      (omega arith) (omega arith)

on_sample-delivers_example :
    let m : Rtsp.Sample = record { pts = some 40000000; bytes = 0 ∷ 0 ∷ [] } in
    let (t, packets) = on_sample library taken 9 (some (some (some m))) streaming in
    let s = streaming.signaling.webrtc_server in
    let stamp = broadcast_stamp library taken (0 ∷ 0 ∷ []) 40000 s.globals in
    (packets ≡ map (packet_for taken (0 ∷ 0 ∷ []) stamp) s.peers)
    × (t.signaling.webrtc_server.peers ≡ map (peer_after taken (0 ∷ 0 ∷ []) stamp) s.peers)
    × (t.signaling.clients ≡ streaming.signaling.clients)
    × (t.rtsp.stats ≡ record (streaming.rtsp.stats) {
      frames_received = 1;
      bytes_received = 2;
      connected = true;
    })
unfolding set_nal_callback init
on_sample-delivers_example =
    on_sample-delivers library taken 9 0 (0 ∷ []) (some 40000000) streaming refl

abbrev bare_yaml : Yaml
bare_yaml = record {
  Node = Unit {0};
  load_file = λ path. ok tt;
  get = λ node key. ok tt;
  present = λ node. false;
  as_u16 = λ node n. n;
  as_int = λ node n. n;
  as_text = λ node s. s;
  as_bool = λ node b. b;
}

-- A signal in the second round, after a time in which the pipeline has come up.
abbrev rounds : List Tick
rounds =
    record {
      signal = false;
      dies = false;
      meanwhile = λ a. streaming;
      now = 11000000000;
      later_signal = false;
    }
    ∷ record {
      signal = true;
      dies = false;
      meanwhile = λ a. a;
      now = 11500000000;
      later_signal = false;
    }
    ∷ []

main-cases_example :
    Ends bare_yaml
      (λ name. none)
      (λ sink. ok tt)
      listens
      ("-c" ∷ "a.yaml" ∷ [])
      rounds
      (main bare_yaml
        (λ name. none)
        (λ sink. ok tt)
        listens
        taken_port
        ("-c" ∷ "a.yaml" ∷ [])
        rounds
        0)
main-cases_example =
    main-cases bare_yaml (λ name. none) (λ sink. ok tt) listens taken_port ("-c" ∷ "a.yaml" ∷ [])
      rounds 0

-- The run is the one that the signal ends.
main_test :
    main bare_yaml (λ name. none) (λ sink. ok tt) listens taken_port ("-c" ∷ "a.yaml" ∷ []) rounds 0
    ≡ returned 0 (destroy (shutdown streaming).0)
unfolding main parse_arguments load_config init_logger startup start set_bitrate_callback
    Signaling.init ioh_robodog_webrtc.WebRtc.init Signaling.start Rtsp.start set_nal_callback init
    Http.start watchdog
main_test = refl

-- A client comes, the camera sends a frame, the client asks for a rate and leaves.
abbrev afternoon : List Happening
afternoon =
    client 42 calls 7
    ∷ state "peer-0000002a" RtcState.connected
    ∷ frame taken 9 (some (some (some (record { pts = some 40000000; bytes = 0 ∷ 0 ∷ [] }))))
    ∷ message calls "peer-0000002a" 7 "set_bitrate"
    ∷ watch 0 11000000000 false
    ∷ gone "peer-0000002a"
    ∷ []

-- The components when all have started but the HTTP server, whose port is taken.
abbrev started : App
started = record (ready default_config) {
  http = record ((components default_config).http) { server_fd = none };
}

startup_test : startup listens taken_port default_config ≡ operational started
unfolding startup start set_bitrate_callback Signaling.init ioh_robodog_webrtc.WebRtc.init
    Signaling.start Rtsp.start set_nal_callback init Http.start
startup_test = refl

run-IsSound_example : IsSound default_config (run library json sends afternoon started)
run-IsSound_example =
    run-IsSound library json sends listens taken_port default_config started afternoon (omega arith)
      (omega arith) startup_test
