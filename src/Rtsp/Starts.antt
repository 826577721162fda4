-- ===== src/Rtsp/Starts.antt =====
-- `start` and `stop` of src/rtsp_pipeline.cpp around the thread.
use ioh_robodog_webrtc.Prelude.{
  ◌≡◌, refl, ap, ◌∙◌, arith, Bool, true, false, none, some, List, [], ◌∷◌, Bool-cases, ap₂, ◌&&◌,
  if◌then◌else◌, ap, Option-cases, inl, inr,
}
use ioh_robodog_webrtc.Rtsp.Description.{Build}
use ioh_robodog_webrtc.Rtsp.Thread.{pipeline_thread-running}
use ioh_robodog_webrtc.Rtsp.{
  RtspPipeline, Round, start, stop, thread_exit, find_elements, build_pipeline, attempt_reconnect,
  dismantle, playing, ended, thread_round, pipeline_thread,
}

-- After `stop` there is no thread and no pipeline.
pub stop-stopped :
    (s : RtspPipeline)
    → ((stop s).joinable ≡ false) × ((stop s).pipeline ≡ none) × ((stop s).running ≡ false)
unfolding stop
stop-stopped s = elim (Option-cases (thread_exit s).pipeline) [
  | inl e ↦ rw (e, stop) (refl, e, refl)
  | inr (p, e) ↦ rw (e, stop) (refl, refl, refl)
]

-- After `stop` a start always succeeds: the thread runs, and is not asked to stop.
pub start-stop_requested :
    (s : RtspPipeline)
    → (t : RtspPipeline) × (start (stop s) ≡ some (true, t))
      × (t.joinable ≡ true)
      × (t.stop_requested ≡ false)
      × (t.running ≡ false)
unfolding start
start-stop_requested s =
    let (idle, gone, down) = stop-stopped s in
    (
      record (stop s) { stop_requested = false; joinable = true },
      rw (down, idle, start) refl,
      refl,
      refl,
      down,
    )

thread_round-joinable :
    (build : Build) (r : Round) (s : RtspPipeline)
    → (thread_round build r s).0.joinable ≡ s.joinable
unfolding thread_round build_pipeline find_elements attempt_reconnect dismantle playing ended
thread_round-joinable build r s = ground arith

pipeline_thread-joinable :
    (build : Build) (rs : List (Bool × Round)) (s : RtspPipeline)
    → (pipeline_thread build rs s).0.joinable ≡ s.joinable
unfolding pipeline_thread
pipeline_thread-joinable build [] s = refl
pipeline_thread-joinable build ((true, r) ∷ rs) s = refl
pipeline_thread-joinable build ((false, r) ∷ rs) s =
    let same = thread_round-joinable build r s in
    elim (Bool-cases (thread_round build r s).1) [
      | inl b ↦ rw (b, pipeline_thread) same
      | inr b ↦
          rw (b, pipeline_thread)
            (pipeline_thread-joinable build rs (thread_round build r s).0 ∙ same)
    ]

-- What a start that makes a thread leaves.
started :
    (s t : RtspPipeline)
    → s.running ≡ false
    → start s ≡ some (true, t)
    → (t.running ≡ false) × (t.joinable ≡ true)
unfolding start
started s t down e = ground arith

-- A second start ends the process whatever the first one's thread has done, in any rounds, as long as
-- it does not read messages when the second one comes: before it reaches `PLAYING` for the first
-- time, while it waits to reconnect, and after it has ended by itself.
pub start-joinable :
    (build : Build) (rs : List (Bool × Round)) (s t : RtspPipeline)
    → s.running ≡ false
    → start s ≡ some (true, t)
    → (pipeline_thread build rs t).1 ≡ false
    → start (pipeline_thread build rs t).0 ≡ none
unfolding start
start-joinable build rs s t down e calm =
    let u = (pipeline_thread build rs t).0 in
    let (off, on) = started s t down e in
    let still : u.joinable ≡ true = pipeline_thread-joinable build rs t ∙ on in
    let idle : u.running ≡ false = (pipeline_thread-running build rs t off).0 ∙ calm in
    rw (idle, still, start) refl

-- The members of a thread that has ended, after `stop`.
abbrev after_exit : RtspPipeline → RtspPipeline
after_exit x =
    let t : RtspPipeline = record x { stop_requested = true; running = false; joinable = false } in
    elim t.pipeline [
      | none ↦ t
      | some p ↦ record t { pipeline = none; appsink = none; encoder = none }
    ]

stop-playing :
    (u : RtspPipeline)
    → u.joinable ≡ true
    → u.running ≡ true
    → stop u ≡ record (ended u) { stop_requested = true; running = false; joinable = false }
unfolding stop thread_exit ended dismantle
stop-playing u on up = ap (λ b. after_exit (if b then ended u else u)) (ap₂ (λ x y. x && y) on up)

-- A stop while the thread of a start reads messages, after any rounds, leaves no thread, no pipeline,
-- no sink and no connection to the camera; but the encoder of the pipeline that is gone stays in
-- its member. A start after it succeeds.
pub stop-reading :
    (build : Build) (rs : List (Bool × Round)) (s t : RtspPipeline)
    → s.running ≡ false
    → start s ≡ some (true, t)
    → (pipeline_thread build rs t).1 ≡ true
    → let u = (pipeline_thread build rs t).0 in
      let v = stop u in
      (v.running ≡ false)
      × (v.joinable ≡ false)
      × (v.pipeline ≡ none)
      × (v.appsink ≡ none)
      × (v.stats.connected ≡ false)
      × (v.encoder ≡ u.encoder)
      × ((w : RtspPipeline) × (start v ≡ some (true, w)))
unfolding ended dismantle
stop-reading build rs s t calm e reads =
    let u = (pipeline_thread build rs t).0 in
    let (off, on) = started s t calm e in
    let still : u.joinable ≡ true = pipeline_thread-joinable build rs t ∙ on in
    let up : u.running ≡ true = (pipeline_thread-running build rs t off).0 ∙ reads in
    let same = stop-playing u still up in
    let (w, again, joinable, going, down) = start-stop_requested u in
    (
      ap (λ v. v.running) same,
      ap (λ v. v.joinable) same,
      ap (λ v. v.pipeline) same,
      ap (λ v. v.appsink) same,
      ap (λ v. v.stats.connected) same,
      ap (λ v. v.encoder) same,
      (w, again),
    )
