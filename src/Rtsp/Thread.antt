-- ===== src/Rtsp/Thread.antt =====
-- The thread of src/rtsp_pipeline.cpp.
use ioh_robodog_webrtc.Prelude.{
  ℕ, ◌+◌, ◌≤◌, ◌≡◌, refl, sym, ◌∙◌, arith, Bool, true, false, List, [], ◌∷◌, length, Bool-cases,
  Option-cases, inl, inr,
}
use ioh_robodog_webrtc.Rtsp.Description.{Build, description, encodes_in_hardware}
use ioh_robodog_webrtc.Rtsp.{
  RtspPipeline, Gst, Round, find_elements, build_pipeline, attempt_reconnect, dismantle, playing,
  message_loop, ended, thread_round, pipeline_thread,
}

-- What a part of the thread keeps or leaves: it is not running, and at most one reconnection more
-- is counted.
abbrev IsCalm : ℕ → RtspPipeline → RtspPipeline → Type 0
IsCalm n s t =
    (t.running ≡ s.running)
    × (t.stats.reconnect_count ≤ s.stats.reconnect_count + n)
    × (t.joinable ≡ s.joinable)
    × (t.config ≡ s.config)

find_elements-IsCalm : (gst : Gst) (s : RtspPipeline) → IsCalm 0 s (find_elements gst s).0
unfolding find_elements
find_elements-IsCalm gst s = ground arith

-- The members once the pipeline is parsed.
abbrev launched : Build → Gst → RtspPipeline → RtspPipeline
launched build gst s = record s {
  pipeline = (gst.parse_launch (description build s.config)).0;
  is_hw_encode = encodes_in_hardware build s.config s.is_hw_encode;
}

build_pipeline-IsCalm :
    (build : Build) (gst : Gst) (s : RtspPipeline) → IsCalm 0 s (build_pipeline build gst s).0
unfolding build_pipeline
build_pipeline-IsCalm build gst s =
    elim (Option-cases (gst.parse_launch (description build s.config)).1) [
      | inl e ↦ rw (e, build_pipeline) (find_elements-IsCalm gst (launched build gst s))
      | inr (message, e) ↦ rw (e, build_pipeline) (refl, omega arith, refl, refl)
    ]

attempt_reconnect-IsCalm :
    (stops : ℕ → Bool) (s : RtspPipeline) → IsCalm 1 s (attempt_reconnect stops s).0
unfolding attempt_reconnect
attempt_reconnect-IsCalm stops s = ground arith

IsCalm-trans : (m n : ℕ) (s t u : RtspPipeline) → IsCalm m s t → IsCalm n t u → IsCalm (m + n) s u
IsCalm-trans m n s t u a b = (b.0 ∙ a.0, omega (arith, a.1, b.1), b.2 ∙ a.2, b.3 ∙ a.3)

dismantle-IsCalm : (s : RtspPipeline) → IsCalm 0 s (dismantle s)
unfolding dismantle
dismantle-IsCalm s = (refl, omega arith, refl, refl)

ended-IsCalm : (s : RtspPipeline) → s.running ≡ false → IsCalm 0 s (ended (playing s))
unfolding ended playing dismantle
ended-IsCalm s down = (sym down, omega arith, refl, refl)

then_reconnects :
    (stops : ℕ → Bool) (s t : RtspPipeline)
    → IsCalm 0 s t
    → IsCalm 1 s (attempt_reconnect stops t).0
then_reconnects stops s t a =
    IsCalm-trans 0 1 s t (attempt_reconnect stops t).0 a (attempt_reconnect-IsCalm stops t)

-- A round leaves the pipeline down, unless its messages are still being read.
abbrev pub IsRound : RtspPipeline → RtspPipeline × Bool → Type 0
IsRound s (t, reading) =
    (t.running ≡ reading)
    × (t.stats.reconnect_count ≤ s.stats.reconnect_count + 1)
    × (t.config ≡ s.config)

calm-IsRound :
    (n : ℕ) (s t : RtspPipeline) → n ≤ 1 → s.running ≡ false → IsCalm n s t → IsRound s (t, false)
calm-IsRound n s t h down a = (a.0 ∙ down, omega (arith, a.1), a.3)

playing-IsRound : (s t : RtspPipeline) → IsCalm 0 s t → IsRound s (playing t, true)
unfolding playing
playing-IsRound s t a = (refl, omega (arith, a.1), a.3)

pub thread_round-IsRound :
    (build : Build) (r : Round) (s : RtspPipeline)
    → s.running ≡ false
    → IsRound s (thread_round build r s)
unfolding thread_round
thread_round-IsRound build r s down =
    let t = (build_pipeline build r.gst s).0 in
    let built = build_pipeline-IsCalm build r.gst s in
    let over = IsCalm-trans 0 0 s t (ended (playing t)) built (ended-IsCalm t (built.0 ∙ down)) in
    elim (Option-cases (build_pipeline build r.gst s).1) [
      | inr (what, e) ↦
          rw (e, thread_round)
            (calm-IsRound 1 s (attempt_reconnect r.stops t).0 (omega arith) down
              (then_reconnects r.stops s t built))
      | inl e ↦ elim (Bool-cases r.plays) [
        | inr b ↦
            rw (e, b, thread_round)
              (calm-IsRound 1 s (attempt_reconnect r.stops (dismantle t)).0 (omega arith) down (
                then_reconnects r.stops s (dismantle t)
                  (IsCalm-trans 0 0 s t (dismantle t) built (dismantle-IsCalm t))))
        | inl b ↦ elim (Bool-cases (message_loop r.bus)) [
          | inr reading ↦ rw (e, b, reading, thread_round) (playing-IsRound s t built)
          | inl read ↦ elim (Bool-cases r.stop_seen) [
            | inl stops ↦
                rw (e, b, read, stops, thread_round)
                  (calm-IsRound 0 s (ended (playing t)) (omega arith) down over)
            | inr going ↦
                rw (e, b, read, going, thread_round)
                  (calm-IsRound 1 s (attempt_reconnect r.stops (ended (playing t))).0 (omega arith)
                    down (then_reconnects r.stops s (ended (playing t)) over))
          ]
        ]
      ]
    ]

-- Whatever GStreamer and the bus do to a pipeline that was not running, it is running exactly while
-- its thread reads the bus's messages; at most one reconnection for each round is counted, and the
-- configuration is as it was.
pub pipeline_thread-running :
    (build : Build) (rs : List (Bool × Round)) (s : RtspPipeline)
    → s.running ≡ false
    → let (t, reading) = pipeline_thread build rs s in
      (t.running ≡ reading)
      × (t.stats.reconnect_count ≤ s.stats.reconnect_count + length rs)
      × (t.config ≡ s.config)
unfolding pipeline_thread
pipeline_thread-running build [] s down = (down, omega arith, refl)
pipeline_thread-running build ((true, r) ∷ rs) s down = (down, omega arith, refl)
pipeline_thread-running build ((false, r) ∷ rs) s down =
    let (t, reading) = thread_round build r s in
    let (state, count, config) = thread_round-IsRound build r s down in
    elim (Bool-cases reading) [
      | inl b ↦ rw (b, pipeline_thread) (state ∙ b, omega (arith, count), config)
      | inr b ↦
          let (off, total, same_config) = pipeline_thread-running build rs t (state ∙ b) in
          rw (b, pipeline_thread) (off, omega (arith, count, total), same_config ∙ config)
    ]
