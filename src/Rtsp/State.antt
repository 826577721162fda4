-- ===== src/Rtsp/State.antt =====
-- The state of src/rtsp_pipeline.hpp, with start, stop and the control of the bit rate.

use ioh_robodog_webrtc.Prelude.{
  ℕ, String, Bool, ◌&&◌, true, false, Option, none, some, if◌then◌else◌,
}
use ioh_robodog_webrtc.Prelude.Int.{ℤ, scale_ℤ, max_ℤ, min_ℤ, to_int32, wrap_unsigned}
use ioh_robodog_webrtc.Config.{AppConfig}

pub record Stats : Type 0 where
  pub frames_received : ℕ
  pub bytes_received : ℕ
  pub reconnect_count : ℕ
  pub connected : Bool

-- `joinable` says that the thread is joinable, `nal_callback` that a callback is set.
pub record RtspPipeline : Type 0 where
  pub config : AppConfig
  pub nal_callback : Bool
  pub pipeline : Option ℕ
  pub appsink : Option ℕ
  pub encoder : Option ℕ
  pub is_hw_encode : Bool
  pub joinable : Bool
  pub running : Bool
  pub stop_requested : Bool
  pub stats : Stats

-- `gst_parse_launch` gives an element, an error, or both.
pub record Gst : Type 0 where
  pub parse_launch : String → Option ℕ × Option String
  pub get_by_name : Option ℕ → String → Option ℕ

unfoldable pub init : AppConfig → RtspPipeline
init c = record {
  config = c;
  nal_callback = false;
  pipeline = none;
  appsink = none;
  encoder = none;
  is_hw_encode = false;
  joinable = false;
  running = false;
  stop_requested = false;
  stats = record {
    frames_received = 0;
    bytes_received = 0;
    reconnect_count = 0;
    connected = false;
  };
}

unfoldable pub set_nal_callback : RtspPipeline → RtspPipeline
set_nal_callback s = record s { nal_callback = true }

-- Assigning a thread over one that is joinable ends the process: `none`.
unfoldable pub start : RtspPipeline → Option (Bool × RtspPipeline)
start s =
    if s.running
    then some (true, s)
    else if s.joinable
    then none
    else some (true, record s { stop_requested = false; joinable = true })

unfoldable pub dismantle : RtspPipeline → RtspPipeline
dismantle s = record s { pipeline = none; appsink = none }

-- The pipeline while its messages are read.
unfoldable pub playing : RtspPipeline → RtspPipeline
playing s = record s { running = true }

unfoldable pub ended : RtspPipeline → RtspPipeline
ended s = dismantle (record s { running = false; stats = record (s.stats) { connected = false } })

-- What the thread does from the request to stop to its end, which `join` waits for. A thread that
-- reads messages leaves its loop; one that waits to reconnect, or has not begun, only ends.
unfoldable pub thread_exit : RtspPipeline → RtspPipeline
unfolding ended
thread_exit s = if s.joinable && s.running then ended s else s

-- A pipeline that the thread has dismantled is not there any more, and `encoder` is then kept.
unfoldable pub stop : RtspPipeline → RtspPipeline
stop s =
    let t : RtspPipeline = record (thread_exit s) {
      stop_requested = true;
      running = false;
      joinable = false;
    } in
    elim t.pipeline [
      | none ↦ t
      | some p ↦ record t { pipeline = none; appsink = none; encoder = none }
    ]

-- What `g_object_set` gives the encoder: its rate, and its peak rate or buffer.
pub record Setting : Type 0 where
  pub element : ℕ
  pub bitrate : ℕ
  pub most : ℕ

unfoldable pub clamped : AppConfig → ℤ → ℤ
clamped c bitrate_kbps =
    max_ℤ c.webrtc.video.min_bitrate_kbps (min_ℤ bitrate_kbps c.webrtc.video.max_bitrate_kbps)

-- Products of `int`, and their casts to `guint`.
unfoldable pub setting : Bool → ℕ → ℤ → Setting
setting is_hw_encode element rate =
    if is_hw_encode
    then record {
      element = element;
      bitrate = wrap_unsigned 32 (to_int32 (scale_ℤ rate 1000));
      most = wrap_unsigned 32 (to_int32 (scale_ℤ rate 1200));
    }
    else record { element = element; bitrate = wrap_unsigned 32 rate; most = wrap_unsigned 32 rate }

unfoldable pub set_bitrate : ℤ → RtspPipeline → Option Setting
unfolding clamped setting
set_bitrate bitrate_kbps s = elim s.encoder [
  | none ↦ none
  | some element ↦
      if s.running
      then some (setting s.is_hw_encode element (clamped s.config bitrate_kbps))
      else none
]

unfoldable pub get_stats : RtspPipeline → Stats
get_stats s = s.stats
