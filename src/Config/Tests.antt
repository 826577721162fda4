-- ===== src/Config/Tests.antt =====
-- Loads of the configuration from a file in memory.
use ioh_robodog_webrtc.Prelude.{false, none, some, ◌≡◌, refl, arith, text_eq, if◌then◌else◌}
use ioh_robodog_webrtc.Prelude.Int.{pos, negsuc, wrap_unsigned}
use ioh_robodog_webrtc.Prelude.Results.{ok, err}
use ioh_robodog_webrtc.Config.{AppConfig, default_config}
use ioh_robodog_webrtc.Config.Load.{Yaml, Env, load_config}
use ioh_robodog_webrtc.Config.Layers.{load_config-env_wins}
use ioh_robodog_webrtc.Prelude.Decimal.{stoi}
use ioh_robodog_webrtc.Prelude.Decimal.{to_bytes}

-- Files whose nodes all are null; only one file is there.
abbrev bare_yaml : Yaml
bare_yaml = record {
  Node = Unit {0};
  load_file = λ path. if text_eq path "config.yaml" then ok tt else err "bad file";
  get = λ n key. ok tt;
  present = λ n. false;
  as_u16 = λ n fallback. fallback;
  as_int = λ n fallback. fallback;
  as_text = λ n fallback. fallback;
  as_bool = λ n fallback. fallback;
}

abbrev no_env : Env
no_env name = none

-- What `export` has set; the port is one that a `uint16_t` does not hold.
abbrev exported : Env
exported name =
    if text_eq name "RTSP_URL"
    then some "rtsp://dog/front"
    else if text_eq name "SIGNALING_PORT"
    then some "70000"
    else if text_eq name "VIDEO_BITRATE_KBPS"
    then some "2500"
    else if text_eq name "VIDEO_MAX_BITRATE_KBPS"
    then some "-1"
    else none

abbrev overridden : AppConfig
overridden = record default_config {
  rtsp = record (default_config.rtsp) { url = "rtsp://dog/front" };
  server = record (default_config.server) { signaling_port = 4464 };
  webrtc = record (default_config.webrtc) {
    video = record (default_config.webrtc.video) {
      bitrate_kbps = pos 2500;
      max_bitrate_kbps = negsuc 0;
    };
  };
}

load_test : load_config bare_yaml exported "config.yaml" ≡ ok overridden
unfolding load_config stoi
load_test = refl

load_config-env_wins_example :
    (overridden.rtsp.url ≡ "rtsp://dog/front")
    × (overridden.server.signaling_port ≡ wrap_unsigned 16 (pos 70000))
    × (overridden.webrtc.video.bitrate_kbps ≡ pos 2500)
    × (overridden.webrtc.video.max_bitrate_kbps ≡ negsuc 0)
unfolding to_bytes
load_config-env_wins_example =
    load_config-env_wins bare_yaml exported "config.yaml" "rtsp://dog/front" (pos 70000) (pos 2500)
      (negsuc 0) overridden refl ("70000", refl, refl) ("2500", refl, refl) ("-1", refl, refl)
      (omega arith, omega arith) (omega arith, omega arith) (omega arith, omega arith) load_test
