-- ===== src/Config/Load.antt =====
-- src/config.cpp: `load_config`, over the YAML library and the environment as parameters.
use Prim.Native.String
use ioh_robodog_webrtc.Prelude.{ℕ, String, Bool, Option, none, some, codes, if◌then◌else◌}
use ioh_robodog_webrtc.Prelude.Int.{ℤ, pos, wrap_unsigned}
use ioh_robodog_webrtc.Prelude.Results.{Result, ok, err, ◌>>=◌}
use ioh_robodog_webrtc.Prelude.Decimal.{stoi}
use ioh_robodog_webrtc.Config.{
  ServerConfig, RtspConfig, VideoConfig, WebRtcConfig, EncodingConfig, LoggingConfig, AppConfig,
  default_config,
}

-- What the program calls of yaml-cpp. `get` is `operator[]`, which throws on a scalar; `present` is
-- a node in a condition; `as_…` is `as<T>(fallback)`, which does not throw.
pub record Yaml : Type 1 where
  pub Node : Type 0
  pub load_file : String → Result Node
  pub get : Node → String → Result Node
  pub present : Node → Bool
  pub as_u16 : Node → ℕ → ℕ
  pub as_int : Node → ℤ → ℤ
  pub as_text : Node → String → String
  pub as_bool : Node → Bool → Bool

-- `std::getenv`.
abbrev pub Env : Type 0
Env = String → Option String

unfoldable pub env_or : Env → String → String → String
env_or env name fallback = elim (env name) [ some val ↦ val | none ↦ fallback ]

unfoldable pub env_int_or : Env → String → ℤ → Result ℤ
env_int_or env name fallback = elim (env name) [ some val ↦ stoi (codes val) | none ↦ ok fallback ]

-- The handler round `YAML::LoadFile`.
unfoldable pub load_failure {ℓ} : {A : Type ℓ} → Result A → Result A
load_failure (ok a) = ok a
load_failure (err what) = err (String.◌++◌ "Failed to load config: " what)

module _ (yaml : Yaml) where
  open yaml use {Node, load_file, get, present, as_u16, as_int, as_text, as_bool}

  -- `n[key].as<T>(fallback)`.
  abbrev u16_at : Node → String → ℕ → Result ℕ
  u16_at n key fallback = do m ← get n key; ok (as_u16 m fallback)

  abbrev int_at : Node → String → ℤ → Result ℤ
  int_at n key fallback = do m ← get n key; ok (as_int m fallback)

  abbrev text_at : Node → String → String → Result String
  text_at n key fallback = do m ← get n key; ok (as_text m fallback)

  abbrev bool_at : Node → String → Bool → Result Bool
  bool_at n key fallback = do m ← get n key; ok (as_bool m fallback)

  unfoldable pub read_server : Node → ServerConfig → Result ServerConfig
  read_server s c = do
    signaling_port ← u16_at s "signaling_port" c.signaling_port
    http_port ← u16_at s "http_port" c.http_port
    web_root ← text_at s "web_root" c.web_root
    ok (record { signaling_port = signaling_port; http_port = http_port; web_root = web_root })

  unfoldable pub read_rtsp : Node → RtspConfig → Result RtspConfig
  read_rtsp r c = do
    url ← text_at r "url" ""
    transport ← text_at r "transport" c.transport
    latency_ms ← int_at r "latency_ms" c.latency_ms
    interval ← int_at r "reconnect_interval_ms" c.reconnect_interval_ms
    attempts ← int_at r "reconnect_max_attempts" c.reconnect_max_attempts
    ok (record {
      url = url;
      transport = transport;
      latency_ms = latency_ms;
      reconnect_interval_ms = interval;
      reconnect_max_attempts = attempts;
    })

  unfoldable pub read_video : Node → VideoConfig → Result VideoConfig
  read_video v c = do
    codec ← text_at v "codec" c.codec
    clock_rate ← int_at v "clock_rate" c.clock_rate
    payload_type ← int_at v "payload_type" c.payload_type
    bitrate ← int_at v "bitrate_kbps" c.bitrate_kbps
    max_bitrate ← int_at v "max_bitrate_kbps" c.max_bitrate_kbps
    min_bitrate ← int_at v "min_bitrate_kbps" c.min_bitrate_kbps
    fps ← int_at v "fps" c.fps
    ok (record {
      codec = codec;
      clock_rate = clock_rate;
      payload_type = payload_type;
      bitrate_kbps = bitrate;
      max_bitrate_kbps = max_bitrate;
      min_bitrate_kbps = min_bitrate;
      fps = fps;
    })

  -- A section that is read only if it is there.
  unfoldable pub read_section {ℓ} :
      {A : Type ℓ} → Node → String → (Node → A → Result A) → A → Result A
  read_section root name read c = do n ← get root name; if present n then read n c else ok c

  unfoldable pub read_webrtc : Node → WebRtcConfig → Result WebRtcConfig
  unfolding read_section read_video
  read_webrtc w c = do
    stun_server ← text_at w "stun_server" c.stun_server
    turn_server ← text_at w "turn_server" ""
    turn_username ← text_at w "turn_username" ""
    turn_credential ← text_at w "turn_credential" ""
    max_peers ← int_at w "max_peers" c.max_peers
    video ← read_section w "video" read_video c.video
    ok (record {
      stun_server = stun_server;
      turn_server = turn_server;
      turn_username = turn_username;
      turn_credential = turn_credential;
      max_peers = max_peers;
      video = video;
    })

  unfoldable pub read_encoding : Node → EncodingConfig → Result EncodingConfig
  read_encoding e c = do
    hw_encode ← bool_at e "hw_encode" c.hw_encode
    passthrough ← bool_at e "passthrough" c.passthrough
    preset ← text_at e "preset" c.preset
    idr_interval ← int_at e "idr_interval" c.idr_interval
    insert_sps_pps ← bool_at e "insert_sps_pps" c.insert_sps_pps
    ok (record {
      hw_encode = hw_encode;
      passthrough = passthrough;
      preset = preset;
      idr_interval = idr_interval;
      insert_sps_pps = insert_sps_pps;
    })

  unfoldable pub read_logging : Node → LoggingConfig → Result LoggingConfig
  read_logging l c = do
    level ← text_at l "level" c.level
    file ← text_at l "file" ""
    max_file_size_mb ← int_at l "max_file_size_mb" c.max_file_size_mb
    max_files ← int_at l "max_files" c.max_files
    ok (record {
      level = level;
      file = file;
      max_file_size_mb = max_file_size_mb;
      max_files = max_files;
    })

  -- The sections of the file, over the defaults.
  unfoldable pub read_file : Node → Result AppConfig
  unfolding read_section
  read_file root = do
    server ← read_section root "server" read_server default_config.server
    rtsp ← read_section root "rtsp" read_rtsp default_config.rtsp
    webrtc ← read_section root "webrtc" read_webrtc default_config.webrtc
    encoding ← read_section root "encoding" read_encoding default_config.encoding
    logging ← read_section root "logging" read_logging default_config.logging
    ok (record {
      server = server;
      rtsp = rtsp;
      webrtc = webrtc;
      encoding = encoding;
      logging = logging;
    })

-- The configuration with the values of the variables; the port is cast to 16 bits.
unfoldable pub override : Env → ℤ → ℤ → ℤ → AppConfig → AppConfig
unfolding env_or
override env port bitrate max_bitrate c = record c {
  server = record (c.server) { signaling_port = wrap_unsigned 16 port };
  rtsp = record (c.rtsp) { url = env_or env "RTSP_URL" c.rtsp.url };
  webrtc = record (c.webrtc) {
    stun_server = env_or env "STUN_SERVER" c.webrtc.stun_server;
    turn_server = env_or env "TURN_SERVER" c.webrtc.turn_server;
    turn_username = env_or env "TURN_USERNAME" c.webrtc.turn_username;
    turn_credential = env_or env "TURN_CREDENTIAL" c.webrtc.turn_credential;
    video = record (c.webrtc.video) { bitrate_kbps = bitrate; max_bitrate_kbps = max_bitrate };
  };
  logging = record (c.logging) { level = env_or env "LOG_LEVEL" c.logging.level };
}

-- The overrides by environment variables, read in the order of the code.
unfoldable pub apply_env : Env → AppConfig → Result AppConfig
unfolding override env_int_or
apply_env env c = do
  port ← env_int_or env "SIGNALING_PORT" (pos c.server.signaling_port)
  bitrate ← env_int_or env "VIDEO_BITRATE_KBPS" c.webrtc.video.bitrate_kbps
  max_bitrate ← env_int_or env "VIDEO_MAX_BITRATE_KBPS" c.webrtc.video.max_bitrate_kbps
  ok (override env port bitrate max_bitrate c)

unfoldable pub load_config : Yaml → Env → String → Result AppConfig
unfolding load_failure read_file apply_env
load_config yaml env path = do
  root ← load_failure (yaml.load_file path)
  c ← read_file yaml root
  apply_env env c
