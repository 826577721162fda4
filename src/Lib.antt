-- ===== src/Lib.antt =====
-- A verification library for the stream server of a robot dog: an RTSP camera's H.264 stream,
-- relayed to browsers over WebRTC. Paths are from the root of the repository.
--
-- The program. `main` (src/main.cpp) loads the configuration (src/config.cpp), and makes and wires
-- four components. The RTSP pipeline (src/rtsp_pipeline.cpp) runs GStreamer in a thread that
-- reconnects, and hands each frame to the WebRTC server (src/webrtc_server.cpp), which keeps a map
-- of peers (src/peer_connection.cpp) and sends the frame to each that is connected. The signaling
-- server (src/signaling_server.cpp) makes a peer for every WebSocket, passes offers, answers and
-- candidates between the two, and asks the pipeline for bit rates. The HTTP server
-- (src/http_server.cpp) serves the files of the viewer. A watchdog in `main` restarts the pipeline.
--
-- The model. A class is a record of its members and a method is a function of the same name from
-- the state to the state; a method that may throw gives a `Result`, one that may end the process an
-- `Option` or a constructor of its own. Logging is left out.
--   Prelude       tests, lists, texts, `int` (Int), decimal numbers and `std::stoi` (Decimal), maps
--                 from texts (Map), lists with entries left out (Thins), maps in
--                 another order (Orders).
--   Config        the records of src/config.hpp; Config.Load is `load_config`.
--   Peer          `PeerConnection`; its callbacks are the functions `on_…`. Peer.Setup has its
--                 members and construction. Peer.Life and Peer.Traffic follow one peer over any
--                 events, Peer.Clock the RTP clock.
--   WebRtc        `WebRtcServer`; WebRtc.PeerId is `generate_peer_id`, WebRtc.Ops the executions,
--                 WebRtc.Registry the abstract view of its clients, WebRtc.Lookups, WebRtc.Moves and
--                 WebRtc.Refinement relate the two, WebRtc.Alike and WebRtc.Order are about the
--                 order of the map, WebRtc.Viewers, WebRtc.Delivery and WebRtc.Absent about one
--                 client, there or not; the other children are about single operations.
--   Signaling     `SignalingServer`; Signaling.State has its members and what needs no message,
--                 Signaling.Executions the executions of whole handlers, Signaling.Handlers the
--                 handlers step by step, with Signaling.Coherent and Signaling.Interleaving about
--                 every order of the steps; Signaling.Factors and Signaling.Bounds are about
--                 the server behind it, Signaling.Delivery and Signaling.Departure about a client from
--                 its WebSocket to its frames, and after its end.
--   Rtsp          `RtspPipeline`; Rtsp.State has its members and the control of the bit rate,
--                 Rtsp.Description the text of the pipeline, Rtsp.References what it holds of
--                 GStreamer's elements; Rtsp.Frames is about sequences of samples, Rtsp.Starts about
--                 `start` and `stop` around the thread.
--   Http          `HttpServer`; Http.Listener is the socket and its thread, Http.Resolve the path of
--                 a file, Http.Types its type, Http.Bytes the operations of `std::string` on bytes;
--                 Http.Serving is about whole requests.
--   App           `main`; App.Logging is `init_logger` of src/logger.hpp, App.Arguments about the
--                 arguments, App.Main the whole function, App.Watching and App.Exits its loop and
--                 its ends, App.Life the start and the restart, App.Wiring the way of a frame and
--                 of a message, App.Executions and App.Soundness the running program.
--
-- Parameters. Code that is not in the repository is a parameter: yaml-cpp (`Yaml`) and the
-- environment (`Env`), libdatachannel (`Rtc`, and the answers of its calls), nlohmann::json
-- (`JsonLibrary`), GStreamer (`Gst`), the file system (`Fs`), the sockets (`Listening`) and the
-- opening of a log file by spdlog. Random numbers, times and what an atomic flag reads at each
-- test are arguments.
--
-- Concurrency. Every method of the WebRTC server holds one mutex, so that its executions are
-- sequences of whole operations, in any order. The handlers of the signaling server lock twice or
-- more: Signaling.Executions takes them one at a time, Signaling.Handlers as steps that are
-- interleaved with each other and with operations of the WebRTC server, where two connections that
-- are under way are taken to have drawn different names. The whole program (App.Executions) takes
-- them one at a time, and leaves out requests of the HTTP server, which touch no other component;
-- that one of them may end the process is part of `main` (App.Main). The threads of the pipeline
-- and of the HTTP server are functions of what each test of their flag reads. `RtspPipeline::stop`
-- finds the thread where it reads messages, waits to reconnect, or has not begun.
--
-- Bounds and fuel. Counters are 64 bits, SSRCs and RTP timestamps 32, with the wrap-around written
-- out; products of `int` wrap. `hex_from` has fuel for eight digits, which a 32-bit number never
-- exceeds. The loop of `attempt_reconnect` has fuel for one round more than the interval divided
-- by 100, as each round adds 100 to the time that has passed.
--
-- Not modelled: the web viewer (web/), the build and the deployment (CMakeLists.txt, Dockerfile,
-- systemd/), the destructor of a peer, which only calls the library, and log output.
pub mod Prelude
pub mod Config
pub mod Peer
pub mod WebRtc
pub mod Signaling
pub mod Rtsp
pub mod Http
pub mod App
