-- ===== src/Config.antt =====
-- src/config.hpp: the configuration, with the defaults of its members.
-- An `int` is a ℤ, a `uint16_t` a number; `Config.Load` is src/config.cpp.
pub mod Load
pub mod Layers
mod Tests
use ioh_robodog_webrtc.Prelude.{ℕ, String, Bool, true, false}
use ioh_robodog_webrtc.Prelude.Int.{ℤ, pos}

pub record ServerConfig : Type 0 where
  pub signaling_port : ℕ
  pub http_port : ℕ
  pub web_root : String

pub record RtspConfig : Type 0 where
  pub url : String
  pub transport : String
  pub latency_ms : ℤ
  pub reconnect_interval_ms : ℤ
  pub reconnect_max_attempts : ℤ

pub record VideoConfig : Type 0 where
  pub codec : String
  pub clock_rate : ℤ
  pub payload_type : ℤ
  pub bitrate_kbps : ℤ
  pub max_bitrate_kbps : ℤ
  pub min_bitrate_kbps : ℤ
  pub fps : ℤ

pub record WebRtcConfig : Type 0 where
  pub stun_server : String
  pub turn_server : String
  pub turn_username : String
  pub turn_credential : String
  pub max_peers : ℤ
  pub video : VideoConfig

pub record EncodingConfig : Type 0 where
  pub hw_encode : Bool
  pub passthrough : Bool
  pub preset : String
  pub idr_interval : ℤ
  pub insert_sps_pps : Bool

pub record LoggingConfig : Type 0 where
  pub level : String
  pub file : String
  pub max_file_size_mb : ℤ
  pub max_files : ℤ

pub record AppConfig : Type 0 where
  pub server : ServerConfig
  pub rtsp : RtspConfig
  pub webrtc : WebRtcConfig
  pub encoding : EncodingConfig
  pub logging : LoggingConfig

abbrev pub default_server : ServerConfig
default_server = record { signaling_port = 8080; http_port = 8081; web_root = "./web" }

abbrev pub default_rtsp : RtspConfig
default_rtsp = record {
  url = "";
  transport = "tcp";
  latency_ms = pos 0;
  reconnect_interval_ms = pos 3000;
  reconnect_max_attempts = pos 0;
}

abbrev pub default_video : VideoConfig
default_video = record {
  codec = "H264";
  clock_rate = pos 90000;
  payload_type = pos 96;
  bitrate_kbps = pos 4000;
  max_bitrate_kbps = pos 8000;
  min_bitrate_kbps = pos 500;
  fps = pos 30;
}

abbrev pub default_webrtc : WebRtcConfig
default_webrtc = record {
  stun_server = "stun:stun.cloudflare.com:3478";
  turn_server = "";
  turn_username = "";
  turn_credential = "";
  max_peers = pos 4;
  video = default_video;
}

abbrev pub default_encoding : EncodingConfig
default_encoding = record {
  hw_encode = false;
  passthrough = true;
  preset = "UltraFastPreset";
  idr_interval = pos 30;
  insert_sps_pps = true;
}

abbrev pub default_logging : LoggingConfig
default_logging = record { level = "info"; file = ""; max_file_size_mb = pos 10; max_files = pos 3 }

abbrev pub default_config : AppConfig
default_config = record {
  server = default_server;
  rtsp = default_rtsp;
  webrtc = default_webrtc;
  encoding = default_encoding;
  logging = default_logging;
}
