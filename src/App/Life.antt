-- ===== src/App/Life.antt =====
-- From the start to the shutdown of src/main.cpp.
use ioh_robodog_webrtc.Prelude.{
  ℕ, ◌≡◌, refl, sym, ap, ◌∙◌, String, true, false, none, some, [], ◌∷◌, map, inl, inr, ◌⊎◌,
}
use ioh_robodog_webrtc.Prelude.Results.{Result, ok, err, Result-cases}
use ioh_robodog_webrtc.Config.{AppConfig}
use ioh_robodog_webrtc.WebRtc
use ioh_robodog_webrtc.Signaling
use ioh_robodog_webrtc.Rtsp
use ioh_robodog_webrtc.Rtsp.Starts.{start-stop_requested, stop-stopped}
use ioh_robodog_webrtc.Http
use ioh_robodog_webrtc.Http.Sockets.{start-stop, succeeds}
use ioh_robodog_webrtc.App.{
  App, exits, operational, components, startup, start_signaling, start_rtsp, start_http, restart,
  shutdown,
}

-- The watchdog's restart never ends the process: `stop` has joined the thread, and afterwards the
-- pipeline has a thread that is not asked to stop.
pub restart_succeeds :
    (a : App)
    → (b : App) × (restart a ≡ some b)
      × (b.rtsp.joinable ≡ true)
      × (b.rtsp.stop_requested ≡ false)
      × (b.signaling ≡ a.signaling)
      × (b.http ≡ a.http)
unfolding restart
restart_succeeds a =
    let (t, e, joinable, going, down) = start-stop_requested a.rtsp in
    (record a { rtsp = t }, rw (e, restart) refl, joinable, going, refl, refl)

start_http-operational :
    (l : Http.Listening) (a : App)
    → a.http.joinable ≡ false
    → a.http.running ≡ false
    → (b : App) × (start_http l a ≡ operational b)
      × (b.signaling ≡ a.signaling)
      × (b.rtsp ≡ a.rtsp)
      × (b.http.running ≡ succeeds l)
unfolding start_http
start_http-operational l a idle down =
    let (t, closed, e, running, joinable, released, left) = start-stop l a.http idle down in
    (record a { http = t }, rw (e, start_http) refl, refl, refl, running)

-- The components when all but the web server have started.
abbrev pub ready : AppConfig → App
ready c = record (components c) {
  signaling = record ((components c).signaling) {
    webrtc_server = record (WebRtc.init c) { running = true; cleaning = true };
    ws_server = true;
    running = true;
  };
  rtsp = record ((components c).rtsp) { stop_requested = false; joinable = true };
}

start_signaling-listens :
    (listen : ℕ → Result (Unit {0})) (l : Http.Listening) (a : App) (u : Unit {0})
    → listen a.signaling.config.server.signaling_port ≡ ok u
    → start_signaling listen l a
      ≡ start_rtsp l
          (record a { signaling = record (a.signaling) { ws_server = true; running = true } })
unfolding start_signaling Signaling.start
start_signaling-listens listen l a u e = rw (e, start_signaling, Signaling.start) refl

start_signaling-exits :
    (listen : ℕ → Result (Unit {0})) (l : Http.Listening) (a : App) (w : String)
    → listen a.signaling.config.server.signaling_port ≡ err w
    → start_signaling listen l a ≡ exits 1 a
unfolding start_signaling Signaling.start
start_signaling-exits listen l a w e = rw (e, start_signaling, Signaling.start) refl

-- The components once the server of the peers has started.
abbrev serving : AppConfig → App
serving c = record (components c) {
  signaling = record ((components c).signaling) {
    webrtc_server = record (WebRtc.init c) { running = true; cleaning = true };
  };
}

startup-ready :
    (listen : ℕ → Result (Unit {0})) (l : Http.Listening) (c : AppConfig)
    → listen c.server.signaling_port ≡ ok tt
    → startup listen l c ≡ start_http l (ready c)
unfolding startup start_rtsp components WebRtc.start WebRtc.init Signaling.start Signaling.init
    Signaling.set_bitrate_callback Rtsp.start Rtsp.init Rtsp.set_nal_callback Http.init
startup-ready listen l c e = start_signaling-listens listen l (serving c) tt e

startup-exits :
    (listen : ℕ → Result (Unit {0})) (l : Http.Listening) (c : AppConfig) (w : String)
    → listen c.server.signaling_port ≡ err w
    → startup listen l c ≡ exits 1 (serving c)
unfolding startup start_rtsp components WebRtc.start WebRtc.init Signaling.start Signaling.init
    Signaling.set_bitrate_callback
startup-exits listen l c w e = start_signaling-exits listen l (serving c) w e

-- The start never ends the process. It exits with code 1 exactly where the signaling port cannot
-- be had; otherwise all runs, the web server where its socket listens.
pub startup-cases :
    (listen : ℕ → Result (Unit {0})) (l : Http.Listening) (c : AppConfig)
    → ((w : String) × (a : App) × (listen c.server.signaling_port ≡ err w)
        × (startup listen l c ≡ exits 1 a))
      ⊎ ((listen c.server.signaling_port ≡ ok tt)
          × ((a : App) × (startup listen l c ≡ operational a)
              × (a.signaling.running ≡ true)
              × (a.signaling.webrtc_server.running ≡ true)
              × (a.rtsp.joinable ≡ true)
              × (a.http.running ≡ succeeds l)))
unfolding components WebRtc.init Http.init
startup-cases listen l c = elim (Result-cases (listen c.server.signaling_port)) [
  | inr (w, e) ↦ inl (w, serving c, e, startup-exits listen l c w e)
  | inl (u, e) ↦
      let (b, f, signaling, rtsp, http) = start_http-operational l (ready c) refl refl in
      inr (
        e,
        (
          b,
          startup-ready listen l c e ∙ f,
          ap (λ s. s.running) signaling,
          ap (λ s. s.webrtc_server.running) signaling,
          ap (λ r. r.joinable) rtsp,
          http,
        ),
      )
]

-- What has started has a signaling server without sessions, and a server of peers without peers.
pub startup-signaling :
    (listen : ℕ → Result (Unit {0})) (l : Http.Listening) (c : AppConfig) (a : App)
    → startup listen l c ≡ operational a
    → a.signaling ≡ (ready c).signaling
unfolding components Http.init
startup-signaling listen l c a started = elim (Result-cases (listen c.server.signaling_port)) [
  | inr (w, e) ↦ absurd (exited (sym (startup-exits listen l c w e) ∙ started))
  | inl (u, e) ↦
      let (b, f, signaling, rtsp, http) = start_http-operational l (ready c) refl refl in
      ap (λ x. x.signaling) (same (sym started ∙ startup-ready listen l c e ∙ f)) ∙ signaling
]
  where
    exited : {n : ℕ} {x y : App} → exits n x ≡ operational y → ⊥
    exited h = cc

    same : {x y : App} → operational x ≡ operational y → x ≡ y
    same h = cc

-- After the shutdown nothing runs, no thread is left, there are no sessions and no peers, the
-- listening socket is closed, and so is the WebSocket of every session.
pub shutdown-down :
    (a : App)
    → let (b, descriptors, effects) = shutdown a in
      (b.rtsp.running ≡ false)
      × (b.rtsp.joinable ≡ false)
      × (b.rtsp.pipeline ≡ none)
      × (b.http.running ≡ false)
      × (b.http.joinable ≡ false)
      × (b.http.server_fd ≡ none)
      × (b.signaling.running ≡ false)
      × (b.signaling.clients ≡ [])
      × (b.signaling.webrtc_server.peers ≡ [])
      × (b.signaling.webrtc_server.cleaning ≡ false)
      × (descriptors ≡ (elim a.http.server_fd [ none ↦ [] | some fd ↦ fd ∷ [] ]))
      × (effects ≡ map (λ e. Signaling.closed_socket e.1.ws) a.signaling.clients)
unfolding shutdown Http.stop Signaling.stop WebRtc.stop
shutdown-down a =
    let (idle, gone, down) = stop-stopped a.rtsp in
    (down, idle, gone, refl, refl, refl, refl, refl, refl, refl, refl, refl)
