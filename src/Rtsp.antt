-- ===== src/Rtsp.antt =====
-- src/rtsp_pipeline.hpp and src/rtsp_pipeline.cpp: the GStreamer pipeline that reads the camera.
-- GStreamer is the parameter `Gst`, its elements are handles; what the other threads do while a
-- loop runs is what each test of `stop_requested_` reads.
mod State
pub mod Description
pub mod Bitrate
pub mod Waiting
pub mod Thread
pub mod Starts
pub mod Elements
pub mod References
pub mod Frames
mod Tests
unfoldable pub use State.*
use Prim.Native.String
use ioh_robodog_webrtc.Prelude.{
  ℕ, zero, suc, ◌+◌, ◌/◌, ◌%◌, ◌^◌, String, Bool, true, false, not, ◌&&◌, Option, none, some, List,
  [], ◌∷◌, length, if◌then◌else◌, ◌==◌,
}
use ioh_robodog_webrtc.Prelude.Int.{ℤ, pos, pos_part, neg_part, sub_ℕ, ltb_ℤ, to_int32}
use Description.{Build, description, encodes_in_hardware}

-- From the parsed pipeline on; the second part is an exception.
unfoldable pub find_elements : Gst → RtspPipeline → RtspPipeline × Option String
find_elements gst s =
    let t : RtspPipeline = record s { appsink = gst.get_by_name s.pipeline "sink" } in
    elim (gst.get_by_name s.pipeline "sink") [
      | none ↦ (t, some "Failed to find appsink element")
      | some sink ↦ (record t { encoder = gst.get_by_name s.pipeline "enc" }, none)
    ]

unfoldable pub build_pipeline : Build → Gst → RtspPipeline → RtspPipeline × Option String
build_pipeline build gst s =
    let (launched, error) = gst.parse_launch (description build s.config) in
    let t : RtspPipeline = record s {
      pipeline = launched;
      is_hw_encode = encodes_in_hardware build s.config s.is_hw_encode;
    } in
    elim error [
      | some message ↦ (t, some (String.◌++◌ "Failed to create pipeline: " message))
      | none ↦ find_elements gst t
    ]

-- A mapped buffer; `pts` is its timestamp in nanoseconds, where that is valid.
pub record Sample : Type 0 where
  pub pts : Option ℕ
  pub bytes : List ℕ

unfoldable pub timestamp_us : ℕ → Option ℕ → ℕ
timestamp_us now none = now
timestamp_us now (some pts) = pts / 1000

unfoldable pub count_frame : ℕ → Stats → Stats
count_frame size s = record s {
  frames_received = (s.frames_received + 1) % 2 ^ 64;
  bytes_received = (s.bytes_received + size) % 2 ^ 64;
  connected = true;
}

-- The sample, if there is one, its buffer, and the buffer's memory; the result is the pipeline and
-- the call of the callback.
unfoldable pub on_new_sample :
    ℕ → Option (Option (Option Sample)) → RtspPipeline → RtspPipeline × Option (List ℕ × ℕ)
unfolding timestamp_us count_frame
on_new_sample now none s = (s, none)
on_new_sample now (some none) s = (s, none)
on_new_sample now (some (some none)) s = (s, none)
on_new_sample now (some (some (some m))) s = (
  record s { stats = count_frame (length m.bytes) s.stats },
  if s.nal_callback && not (length m.bytes == 0)
      then some (m.bytes, timestamp_us now m.pts)
      else none,
)

-- `elapsed + 100` on `int`.
abbrev pub later : ℤ → ℤ
later elapsed = to_int32 (sub_ℕ (pos_part elapsed + 100) (neg_part elapsed))

-- The loop of `attempt_reconnect`: how often it sleeps. `stops n` is what test n of
-- `stop_requested_` reads; the fuel bounds the number of rounds.
unfoldable pub sleeps : ℕ → (ℕ → Bool) → ℕ → ℤ → ℤ → ℕ
sleeps zero stops n elapsed interval = zero
sleeps (suc f) stops n elapsed interval =
    let rest = sleeps f stops (suc n) (later elapsed) interval in
    if ltb_ℤ elapsed interval && not (stops n) then suc rest else zero

-- The rounds that are enough: `Rtsp.Waiting`.
abbrev pub rounds : ℤ → ℕ
rounds interval = suc (pos_part interval / 100)

unfoldable pub attempt_reconnect : (ℕ → Bool) → RtspPipeline → RtspPipeline × ℕ
unfolding sleeps
attempt_reconnect stops s = if stops 0 then (s, 0) else (
  record s {
    stats = record (s.stats) { reconnect_count = (s.stats.reconnect_count + 1) % 2 ^ 64 };
  },
  sleeps (rounds s.config.rtsp.reconnect_interval_ms) stops 1 (pos 0)
      s.config.rtsp.reconnect_interval_ms,
)

-- The types of the bus's messages; `handle_bus_message` only logs them.
pub data Message : Type 0 where
  error warning eos state_changed other : Message

abbrev pub ends_pipeline : Message → Bool
ends_pipeline error = true
ends_pipeline eos = true
ends_pipeline _ = false

-- The message loop: for each test of `stop_requested_` what it reads and what the bus then gives.
-- The result says whether the loop has come to its end.
unfoldable pub message_loop : List (Bool × Option Message) → Bool
message_loop [] = false
message_loop ((true, m) ∷ later_tests) = true
message_loop ((false, none) ∷ later_tests) = message_loop later_tests
message_loop ((false, some m) ∷ later_tests) =
    let rest = message_loop later_tests in if ends_pipeline m then true else rest

-- One round of the outer loop: what GStreamer does, whether `PLAYING` is reached, the bus, what
-- the last test of `stop_requested_` reads, and what those of `attempt_reconnect` read.
pub record Round : Type 0 where
  pub gst : Gst
  pub plays : Bool
  pub bus : List (Bool × Option Message)
  pub stop_seen : Bool
  pub stops : ℕ → Bool

-- The second part says that the thread still reads messages.
unfoldable pub thread_round : Build → Round → RtspPipeline → RtspPipeline × Bool
thread_round build r s =
    let (t, exception) = build_pipeline build r.gst s in
    elim exception [
      | some what ↦ ((attempt_reconnect r.stops t).0, false)
      | none ↦
          if not r.plays
          then ((attempt_reconnect r.stops (dismantle t)).0, false)
          else if not (message_loop r.bus)
          then (playing t, true)
          else if r.stop_seen
          then (ended (playing t), false)
          else ((attempt_reconnect r.stops (ended (playing t))).0, false)
    ]

-- `pipeline_thread`: for each test of the outer loop what it reads, and the round that follows. The
-- second part says that the thread still reads messages.
unfoldable pub pipeline_thread : Build → List (Bool × Round) → RtspPipeline → RtspPipeline × Bool
pipeline_thread build [] s = (s, false)
pipeline_thread build ((true, r) ∷ later_tests) s = (s, false)
pipeline_thread build ((false, r) ∷ later_tests) s =
    let (t, reading) = thread_round build r s in
    let rest = pipeline_thread build later_tests t in if reading then (t, true) else rest
