-- ===== src/App/Main.antt =====
-- `main` of src/main.cpp from the arguments to the exit code.
use ioh_robodog_webrtc.Prelude.{
  ℕ, String, Bool, true, false, none, some, List, [], ◌∷◌, if◌then◌else◌,
}
use ioh_robodog_webrtc.Prelude.Results.{Result, ok, err}
use ioh_robodog_webrtc.Config.Load.{Yaml, Env, load_config}
use ioh_robodog_webrtc.WebRtc
use ioh_robodog_webrtc.Signaling
use ioh_robodog_webrtc.Rtsp
use ioh_robodog_webrtc.Http
use ioh_robodog_webrtc.App.{
  App, Startup, exits, terminates, operational, parse_arguments, startup, watchdog, shutdown,
  FileSink, init_logger,
}

-- The handler of SIGINT and SIGTERM, on `g_shutdown`.
unfoldable pub signal_handler : Bool → Bool
signal_handler g_shutdown = true

-- `g_shutdown` after a moment in which a signal came, or none.
abbrev pub signalled : Bool → Bool → Bool
signalled came g_shutdown = if came then signal_handler g_shutdown else g_shutdown

-- One round of the watchdog's loop: whether a signal comes before the test of the loop, whether
-- another thread ends the process in the round, as one of the HTTP server may (`Http.terminated`),
-- or else what the other threads do in it, the time, and whether a signal comes before the second
-- test. The first round begins with the start of the components, and the last one, which a signal
-- ends, lasts until `main` has returned.
pub record Tick : Type 0 where
  pub signal : Bool
  pub dies : Bool
  pub meanwhile : App → App
  pub now : ℕ
  pub later_signal : Bool

-- The destructors of the components, in the reverse order of their construction: each stops.
unfoldable pub destroy : App → App
destroy a =
    let http = (Http.stop a.http).0 in
    let rtsp = Rtsp.stop a.rtsp in
    let signaling = (Signaling.stop a.signaling).0 in
    record {
      signaling = record signaling { webrtc_server = WebRtc.stop signaling.webrtc_server };
      rtsp = rtsp;
      http = http;
    }

-- What has become of the program: it has returned before there were components, it has returned
-- with the components as their destructors leave them, `std::terminate` has ended it (in whatever
-- thread), or it is in
-- the watchdog's loop.
pub data Ending : Type 0 where
  returned_early : ℕ → Ending
  returned : ℕ → App → Ending
  terminated : Ending
  watching : App → Ending

-- The watchdog's loop and the end of `main`.
unfoldable pub watch : List Tick → Bool → ℕ → App → Ending
unfolding signal_handler destroy
watch [] g_shutdown last a = watching a
watch (t ∷ ticks) g_shutdown last a =
    let g = signalled t.signal g_shutdown in
    let h = signalled t.later_signal g in
    let (logged, b) = watchdog last t.now h (t.meanwhile a) in
    elim t.dies [
      | true ↦ terminated
      | false ↦ elim g [
        | true ↦ returned 0 (destroy (shutdown a).0)
        | false ↦ elim b [ none ↦ terminated | some c ↦ watch ticks h logged c ]
      ]
    ]

unfoldable pub proceed : List Tick → ℕ → Startup → Ending
unfolding watch destroy
proceed ticks began (exits code a) = returned code (destroy a)
proceed ticks began terminates = terminated
proceed ticks began (operational a) = watch ticks false began a

module _ (yaml : Yaml) (env : Env) (open_file : FileSink → Result (Unit {0}))
    (listen : ℕ → Result (Unit {0})) (l : Http.Listening) where
  -- `began` is the time when the loop is entered.
  unfoldable pub main : List String → List Tick → ℕ → Ending
  unfolding proceed
  main arguments ticks began = elim (parse_arguments arguments "config.yaml") [
    | none ↦ returned_early 0
    | some config_path ↦ elim (load_config yaml env config_path) [
      | err what ↦ returned_early 1
      | ok config ↦ elim (init_logger open_file config.logging) [
        | err what ↦ terminated
        | ok logger ↦ proceed ticks began (startup listen l config)
      ]
    ]
  ]
