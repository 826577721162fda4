-- ===== src/App.antt =====
-- src/main.cpp: the arguments, the start of the components, their wiring, the watchdog and the
-- shutdown.
mod Logging
pub mod Life
pub mod Wiring
pub mod Arguments
pub mod Main
pub mod Watching
pub mod Exits
pub mod Executions
pub mod Soundness
mod Tests
unfoldable pub use Logging.*
use ioh_robodog_webrtc.Prelude.{
  ℕ, ◌+◌, ◌*◌, ◌^◌, String, Bool, not, ◌&&◌, ◌||◌, Option, none, some, List, [], ◌∷◌, codes, leb,
  if◌then◌else◌, text_eq,
}
use ioh_robodog_webrtc.Prelude.Results.{Result}
use ioh_robodog_webrtc.Config.{AppConfig}
use ioh_robodog_webrtc.Peer.{Rtc, TrackAnswer, Packet}
use ioh_robodog_webrtc.WebRtc
use ioh_robodog_webrtc.Signaling
use ioh_robodog_webrtc.Rtsp
use ioh_robodog_webrtc.Http

-- The server of the peers is part of the signaling server, which refers to it.
pub record App : Type 0 where
  pub signaling : Signaling.SignalingServer
  pub rtsp : Rtsp.RtspPipeline
  pub http : Http.HttpServer

abbrev pub is_config : String → Bool
is_config arg = text_eq arg "--config" || text_eq arg "-c"

abbrev pub is_help : String → Bool
is_help arg = text_eq arg "--help" || text_eq arg "-h"

-- The arguments after the program's name: the path of the configuration, or `none` for the help.
unfoldable pub parse_arguments : List String → String → Option String
parse_arguments [] path = some path
parse_arguments (arg ∷ []) path = if is_help arg then none else some path
parse_arguments (arg ∷ next ∷ rest) path =
    let after_path = parse_arguments rest next in
    let after_other = parse_arguments (next ∷ rest) path in
    if is_config arg then after_path else if is_help arg then none else after_other

-- The start ends in an exit code, with the components as they then are, in the end of the process by
-- a thread that is assigned over a joinable one, or in a program that runs.
pub data Startup : Type 0 where
  exits : ℕ → App → Startup
  terminates : Startup
  operational : App → Startup

unfoldable pub start_http : Http.Listening → App → Startup
start_http l a = elim (Http.start l a.http) [
  | none ↦ terminates
  | some (started, http, closed) ↦ operational (record a { http = http })
]

unfoldable pub start_rtsp : Http.Listening → App → Startup
unfolding start_http
start_rtsp l a = elim (Rtsp.start a.rtsp) [
  | none ↦ terminates
  | some (started, rtsp) ↦
      (let b : App = record a { rtsp = rtsp } in if started then start_http l b else exits 1 b)
]

unfoldable pub start_signaling : (ℕ → Result (Unit {0})) → Http.Listening → App → Startup
unfolding start_rtsp
start_signaling listen l a =
    let (started, signaling) = Signaling.start listen a.signaling in
    let b : App = record a { signaling = signaling } in
    if started then start_rtsp l b else exits 1 b

-- The components as `main` makes and wires them.
unfoldable pub components : AppConfig → App
components c = record {
  signaling = Signaling.set_bitrate_callback (Signaling.init c (WebRtc.init c));
  rtsp = Rtsp.set_nal_callback (Rtsp.init c);
  http = Http.init c.server.http_port (codes c.server.web_root);
}

unfoldable pub startup : (ℕ → Result (Unit {0})) → Http.Listening → AppConfig → Startup
unfolding start_signaling components
startup listen l c =
    let a = components c in
    elim (WebRtc.start a.signaling.webrtc_server) [
      | none ↦ terminates
      | some server ↦
          start_signaling listen l
            (record a { signaling = record (a.signaling) { webrtc_server = server } })
    ]

-- The callback that `main` gives the pipeline: a frame goes to the peers. The second part is what
-- each peer's track took.
unfoldable pub on_sample :
    Rtc
    → (String → TrackAnswer)
    → ℕ
    → Option (Option (Option Rtsp.Sample))
    → App
    → App × List (String × Option Packet)
on_sample rtc answers now m a =
    let (rtsp, call) = Rtsp.on_new_sample now m a.rtsp in
    elim call [
      | none ↦ (record a { rtsp = rtsp }, [])
      | some (bytes, ts) ↦
          (let (server, packets) =
              WebRtc.broadcast_nal rtc answers bytes ts a.signaling.webrtc_server in
            (
              record a { rtsp = rtsp; signaling = record (a.signaling) { webrtc_server = server } },
              packets,
            ))
    ]

-- The callback that `main` gives the signaling server: a bit rate goes to the encoder.
unfoldable pub settings : Rtsp.RtspPipeline → List Signaling.Effect → List Rtsp.Setting
settings p [] = []
settings p (Signaling.bitrate_requested n ∷ effects) =
    let rest = settings p effects in elim (Rtsp.set_bitrate n p) [ none ↦ rest | some g ↦ g ∷ rest ]
settings p (Signaling.sent ws message ∷ effects) = settings p effects
settings p (Signaling.closed_socket ws ∷ effects) = settings p effects
settings p (Signaling.subscribed ws id ∷ effects) = settings p effects

-- A message of a client, with what the encoder then gets.
unfoldable pub on_message :
    Signaling.JsonLibrary
    → (ℕ → String → Result (Unit {0}))
    → Signaling.Calls
    → String
    → ℕ
    → String
    → App
    → App × List Rtsp.Setting
unfolding settings
on_message json send calls id ws message a =
    let (signaling, effects, escaped) =
      Signaling.on_client_message json send calls id ws message a.signaling in
    (record a { signaling = signaling }, settings a.rtsp effects)

-- The restart of the pipeline; `none` is the end of the process.
unfoldable pub restart : App → Option App
restart a = elim (Rtsp.start (Rtsp.stop a.rtsp)) [
  | none ↦ none
  | some (started, rtsp) ↦ some (record a { rtsp = rtsp })
]

-- One round of the watchdog's loop: the time, in nanoseconds, when statistics were last logged,
-- the time now, and what the second test of `g_shutdown` reads.
unfoldable pub watchdog : ℕ → ℕ → Bool → App → ℕ × Option App
unfolding restart
watchdog last now shutdown a =
    if leb (last + 10 * 10 ^ 9) now
    then (now, if not a.rtsp.running && not shutdown then restart a else some a)
    else (last, some a)

-- The end of `main`: the components in the order of the code, and what is closed on the way.
unfoldable pub shutdown : App → App × List ℕ × List Signaling.Effect
shutdown a =
    let rtsp = Rtsp.stop a.rtsp in
    let (http, descriptors) = Http.stop a.http in
    let (signaling, effects) = Signaling.stop a.signaling in
    (
      record {
        signaling = record signaling { webrtc_server = WebRtc.stop signaling.webrtc_server };
        rtsp = rtsp;
        http = http;
      },
      descriptors,
      effects,
    )
