-- ===== src/Rtsp/Description.antt =====
-- The text of the pipeline that `build_pipeline` of src/rtsp_pipeline.cpp asks GStreamer for.
use Prim.Native.String
use ioh_robodog_webrtc.Prelude.{String, Bool, ◌&&◌, List, [], ◌∷◌, if◌then◌else◌, text_empty}
use ioh_robodog_webrtc.Prelude.Int.{ℤ, to_int32, scale_ℤ}
use ioh_robodog_webrtc.Prelude.Decimal.{to_string}
use ioh_robodog_webrtc.Config.{AppConfig}

-- The macros `ENABLE_TEST_MODE` and `JETSON_PLATFORM`.
pub record Build : Type 0 where
  pub test_mode : Bool
  pub jetson : Bool

unfoldable pub joined : List String → String
joined [] = ""
joined (s ∷ ss) = String.◌++◌ s (joined ss)

abbrev pub uses_test_source : Build → AppConfig → Bool
uses_test_source build c = build.test_mode && text_empty c.rtsp.url

-- A rate in bits per second, as an `int`.
abbrev pub bits_per_second : ℤ → ℤ
bits_per_second kbps = to_int32 (scale_ℤ kbps 1000)

unfoldable pub test_description : Build → AppConfig → String
unfolding joined
test_description build c = joined (
    "videotestsrc is-live=true pattern=ball ! "
    ∷ "video/x-raw,width=1280,height=720,framerate=30/1 ! "
    ∷ (if build.jetson && c.encoding.hw_encode
        then joined (
            "nvvidconv ! "
            ∷ "video/x-raw(memory:NVMM),format=NV12 ! "
            ∷ "nvv4l2h264enc "
            ∷ "bitrate="
            ∷ to_string (bits_per_second c.webrtc.video.bitrate_kbps)
            ∷ " maxperf-enable=1 "
            ∷ "preset-level=1 "
            ∷ "insert-sps-pps=1 "
            ∷ "idrinterval="
            ∷ to_string c.encoding.idr_interval
            ∷ " ! "
            ∷ [])
        else joined (
            "x264enc tune=zerolatency speed-preset=ultrafast "
            ∷ "bitrate="
            ∷ to_string c.webrtc.video.bitrate_kbps
            ∷ " key-int-max="
            ∷ to_string c.encoding.idr_interval
            ∷ " bframes=0 ! "
            ∷ []))
    ∷ "video/x-h264,profile=baseline ! "
    ∷ "h264parse config-interval=1 ! "
    ∷ "appsink name=sink emit-signals=true sync=false max-buffers=5 drop=true"
    ∷ [])

unfoldable pub rtsp_source : AppConfig → String
unfolding joined
rtsp_source c = joined (
    "rtspsrc location="
    ∷ c.rtsp.url
    ∷ " latency="
    ∷ to_string c.rtsp.latency_ms
    ∷ " protocols="
    ∷ c.rtsp.transport
    ∷ " is-live=true "
    ∷ "buffer-mode=auto "
    ∷ "do-retransmission=false "
    ∷ "drop-on-latency=true ! "
    ∷ "rtph264depay ! "
    ∷ [])

unfoldable pub passthrough_description : AppConfig → String
unfolding joined rtsp_source
passthrough_description c = joined (
    rtsp_source c
    ∷ "h264parse config-interval=1 ! "
    ∷ "video/x-h264,stream-format=byte-stream,alignment=au ! "
    ∷ "appsink name=sink emit-signals=true sync=false max-buffers=5 drop=true"
    ∷ [])

unfoldable pub hardware_encoder : AppConfig → String
unfolding joined
hardware_encoder c = joined (
    "nvv4l2decoder enable-max-performance=1 ! "
    ∷ "nvv4l2h264enc name=enc "
    ∷ "bitrate="
    ∷ to_string (bits_per_second c.webrtc.video.bitrate_kbps)
    ∷ " peak-bitrate="
    ∷ to_string (bits_per_second c.webrtc.video.max_bitrate_kbps)
    ∷ " maxperf-enable=1 "
    ∷ "preset-level=1 "
    ∷ "control-rate=1 "
    ∷ "insert-sps-pps=1 "
    ∷ "idrinterval="
    ∷ to_string c.encoding.idr_interval
    ∷ " ! "
    ∷ [])

unfoldable pub software_encoder : Build → AppConfig → String
unfolding joined
software_encoder build c = joined (
    (if build.jetson
      then "nvv4l2decoder enable-max-performance=1 ! nvvidconv ! video/x-raw,format=I420 ! "
      else "avdec_h264 ! videoconvert ! ")
    ∷ "x264enc name=enc tune=zerolatency speed-preset=ultrafast "
    ∷ "bitrate="
    ∷ to_string c.webrtc.video.bitrate_kbps
    ∷ " vbv-buf-capacity="
    ∷ to_string c.webrtc.video.max_bitrate_kbps
    ∷ " key-int-max="
    ∷ to_string c.encoding.idr_interval
    ∷ " bframes=0 ! "
    ∷ [])

unfoldable pub reencode_description : Build → AppConfig → String
unfolding joined rtsp_source hardware_encoder software_encoder
reencode_description build c = joined (
    rtsp_source c
    ∷ "h264parse config-interval=-1 ! "
    ∷ "video/x-h264,stream-format=byte-stream,alignment=au ! "
    ∷ (if build.jetson && c.encoding.hw_encode
        then hardware_encoder c
        else software_encoder build c)
    ∷ "video/x-h264,stream-format=byte-stream,alignment=au ! "
    ∷ "h264parse config-interval=1 ! "
    ∷ "appsink name=sink emit-signals=true sync=false max-buffers=5 drop=true"
    ∷ [])

-- `pipeline_desc`.
unfoldable pub description : Build → AppConfig → String
unfolding test_description passthrough_description reencode_description
description build c =
    if uses_test_source build c
    then test_description build c
    else if c.encoding.passthrough
    then passthrough_description c
    else reencode_description build c

-- `is_hw_encode_` afterwards, which only the re-encoding branch sets.
unfoldable pub encodes_in_hardware : Build → AppConfig → Bool → Bool
encodes_in_hardware build c before =
    if uses_test_source build c
    then before
    else if c.encoding.passthrough
    then before
    else build.jetson && c.encoding.hw_encode
