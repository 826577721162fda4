-- ===== src/Rtsp/Tests.antt =====
-- Runs of the pipeline.
use ioh_robodog_webrtc.Prelude.{
  ℕ, ◌+◌, ◌*◌, ◌≤◌, ◌<◌, ◌≡◌, refl, arith, Bool, true, false, none, some, List, [], ◌∷◌, ◌++◌,
  if◌then◌else◌, ◌==◌, text_eq, All,
}
use ioh_robodog_webrtc.Prelude.Int.{pos, ◌≤ℤ◌}
use ioh_robodog_webrtc.Config.{default_config}
use ioh_robodog_webrtc.Rtsp.Description.{Build}
use ioh_robodog_webrtc.Rtsp.{
  RtspPipeline, Gst, Round, eos, warning, init, start, stop, set_bitrate, attempt_reconnect,
  pipeline_thread,
}
use ioh_robodog_webrtc.Rtsp.Bitrate.{set_bitrate-within}
use ioh_robodog_webrtc.Rtsp.Waiting.{attempt_reconnect-waits, attempt_reconnect-stops}
use ioh_robodog_webrtc.Rtsp.Thread.{pipeline_thread-running}
use ioh_robodog_webrtc.Rtsp.Starts.{stop-reading, start-joinable}
use ioh_robodog_webrtc.Rtsp.Elements.{Reads, IsOf, pipeline_thread-IsOf}
use ioh_robodog_webrtc.Rtsp.References.{
  thread_references, count_taken, count_given_back, thread_references-leaks,
}
use ioh_robodog_webrtc.Rtsp.{set_nal_callback}
use ioh_robodog_webrtc.Rtsp.Frames.{Arrival, run_samples, run_samples-frames}
use ioh_robodog_webrtc.Rtsp.{thread_round}
use ioh_robodog_webrtc.Rtsp.{build_pipeline}
use ioh_robodog_webrtc.Rtsp.{find_elements}
use ioh_robodog_webrtc.Rtsp.{message_loop}
use ioh_robodog_webrtc.Rtsp.{playing}

-- A pipeline that encodes in hardware.
abbrev encoding : RtspPipeline
encoding = record (init default_config) { encoder = some 3; running = true; is_hw_encode = true }

set_bitrate-within_example :
    (r : ℕ) × (pos 500 ≤ℤ pos r)
    × (pos r ≤ℤ pos 8000)
    × (set_bitrate (pos 20000) encoding
        ≡ some (record { element = 3; bitrate = r * 1000; most = r * 1200 }))
unfolding init
set_bitrate-within_example =
    set_bitrate-within (pos 20000) encoding 3 refl refl (omega arith) (omega arith) (omega arith)

attempt_reconnect-waits_example :
    let (t, k) = attempt_reconnect (λ n. false) (init default_config) in
    (3000 ≤ k * 100) × (k * 100 < 3000 + 100) × (t.stats.reconnect_count ≡ 1)
unfolding init
attempt_reconnect-waits_example =
    attempt_reconnect-waits (λ n. false) (init default_config) 3000 (λ k. refl) refl (omega arith)

attempt_reconnect-stops_example : (attempt_reconnect (λ n. n == 5) (init default_config)).1 ≤ 4
attempt_reconnect-stops_example = attempt_reconnect-stops (λ n. n == 5) (init default_config) 4 refl

abbrev build : Build
build = record { test_mode = false; jetson = true }

abbrev gst : Gst
gst = record {
  parse_launch = λ s. (some 1, none);
  get_by_name = λ p name. if text_eq name "sink" then some 2 else none;
}

-- The stream ends, the next pipeline cannot be made, and the program stops.
abbrev history : List (Bool × Round)
history =
    (
      false,
      record {
        gst = gst;
        plays = true;
        bus = (false, some warning) ∷ (false, some eos) ∷ [];
        stop_seen = false;
        stops = λ n. false;
      },
    )
    ∷ (
      false,
      record {
        gst = record {
          parse_launch = λ s. (none, some "no element");
          get_by_name = λ p name. none;
        };
        plays = true;
        bus = [];
        stop_seen = true;
        stops = λ n. n == 7;
      },
    )
    ∷ []

pipeline_thread-running_example :
    let (t, reading) = pipeline_thread build history (init default_config) in
    (t.running ≡ reading) × (t.stats.reconnect_count ≤ 2) × (t.config ≡ default_config)
unfolding init
pipeline_thread-running_example = pipeline_thread-running build history (init default_config) refl

-- The stream has ended, and the next pipeline cannot be made.
start-joinable_example :
    start (pipeline_thread build history (record (init default_config) { joinable = true })).0
    ≡ none
unfolding init start pipeline_thread thread_round build_pipeline find_elements message_loop
start-joinable_example =
    start-joinable build history (init default_config)
      (record (init default_config) { joinable = true }) refl refl refl

abbrev encoders : Gst
encoders = record {
  parse_launch = λ s. (some 1, none);
  get_by_name = λ p name. if text_eq name "sink" then some 2 else some 3;
}

abbrev ends : Round
ends = record {
  gst = encoders;
  plays = true;
  bus = (false, some eos) ∷ [];
  stop_seen = false;
  stops = λ n. false;
}

-- A pipeline that stays up, after one that came to its end.
abbrev recovering : List (Bool × Round)
recovering =
    (
      false,
      record {
        gst = gst;
        plays = true;
        bus = (false, some eos) ∷ [];
        stop_seen = false;
        stops = λ n. false;
      },
    )
    ∷ (
      false,
      record {
        gst = encoders;
        plays = true;
        bus = (false, some warning) ∷ [];
        stop_seen = false;
        stops = λ n. false;
      },
    )
    ∷ []

pipeline_thread-IsOf_example :
    (before : List (Bool × Round)) × (r : Round) × (later_tests : List (Bool × Round)) × (recovering
      ≡ before ++ (false, r) ∷ later_tests)
    × All (λ x. (x.0 ≡ false) × ¬ Reads build default_config x.1) before
    × Reads build default_config r
    × IsOf build r.gst default_config (pipeline_thread build recovering (init default_config)).0
unfolding init pipeline_thread thread_round build_pipeline find_elements message_loop
pipeline_thread-IsOf_example = pipeline_thread-IsOf build recovering (init default_config) refl refl

-- Two pipelines with encoders, one after the other.
abbrev two_ends : List (Bool × Round)
two_ends = (false, ends) ∷ (false, ends) ∷ []

thread_references-leaks_example :
    let us = thread_references build default_config two_ends in
    count_taken us ≡ count_given_back us + 2
unfolding message_loop
thread_references-leaks_example =
    thread_references-leaks build default_config two_ends
      ((refl, ((1, refl), refl, (2, refl), refl)), ((refl, ((1, refl), refl, (2, refl), refl)), tt))

-- Two frames, one of them without a timestamp, and a buffer that cannot be mapped.
abbrev arrivals : List Arrival
arrivals =
    (5, some (some (some (record { pts = some 40000000; bytes = 0 ∷ 1 ∷ [] }))))
    ∷ (6, some (some none))
    ∷ (7, some (some (some (record { pts = none; bytes = 9 ∷ [] }))))
    ∷ []

run_samples-frames_example :
    let (t, sent) = run_samples arrivals (set_nal_callback (init default_config)) in
    (t.stats.frames_received ≡ 2)
    × (t.stats.bytes_received ≡ 3)
    × (sent ≡ (0 ∷ 1 ∷ [], 40000) ∷ (9 ∷ [], 7) ∷ [])
unfolding init set_nal_callback
run_samples-frames_example =
    run_samples-frames arrivals (set_nal_callback (init default_config)) (omega arith) (omega arith)
      refl

stop-reading_example :
    let u =
      (pipeline_thread build recovering (record (init default_config) { joinable = true })).0 in
    let v = stop u in
    (v.running ≡ false)
    × (v.joinable ≡ false)
    × (v.pipeline ≡ none)
    × (v.appsink ≡ none)
    × (v.stats.connected ≡ false)
    × (v.encoder ≡ some 3)
    × ((w : RtspPipeline) × (start v ≡ some (true, w)))
unfolding init start pipeline_thread thread_round build_pipeline find_elements message_loop playing
stop-reading_example =
    stop-reading build recovering (init default_config)
      (record (init default_config) { joinable = true }) refl refl refl
