-- ===== src/Rtsp/Elements.antt =====
-- The elements that src/rtsp_pipeline.cpp holds: that those it uses belong to the pipeline that plays,
-- and the references that it takes of them and gives back.
use ioh_robodog_webrtc.Prelude.{
  ℕ, ◌≡◌, All, refl, sym, ap, ◌∙◌, subst, Bool, true, false, none, some, List, [], ◌∷◌, ◌++◌,
  Bool-cases, Option-cases, inl, inr,
}
use ioh_robodog_webrtc.Rtsp.Description.{Build, description, encodes_in_hardware}
use ioh_robodog_webrtc.Config.{AppConfig}
use ioh_robodog_webrtc.Rtsp.Thread.{thread_round-IsRound}
use ioh_robodog_webrtc.Rtsp.{
  RtspPipeline, Gst, Round, find_elements, build_pipeline, playing, message_loop, thread_round,
  pipeline_thread,
}
use native.Mathlib.Omega.{arith}
use mathlib.Core.Bool.{true≢false}

-- The members of t are what is found in the pipeline that is launched for this configuration.
pub record IsOf (build : Build) (gst : Gst) (c : AppConfig) (t : RtspPipeline) : Type 0 where
  pub launched : t.pipeline ≡ (gst.parse_launch (description build c)).0
  pub no_error : (gst.parse_launch (description build c)).1 ≡ none
  pub sink :
      (e : ℕ) × (gst.get_by_name (gst.parse_launch (description build c)).0 "sink" ≡ some e)
      × (t.appsink ≡ some e)
  pub encoder : t.encoder ≡ gst.get_by_name (gst.parse_launch (description build c)).0 "enc"

-- The members once the pipeline is parsed.
abbrev parsed : Build → Gst → RtspPipeline → RtspPipeline
parsed build gst s = record s {
  pipeline = (gst.parse_launch (description build s.config)).0;
  is_hw_encode = encodes_in_hardware build s.config s.is_hw_encode;
}

find_elements-found :
    (gst : Gst) (s : RtspPipeline)
    → (find_elements gst s).1 ≡ none
    → let t = (find_elements gst s).0 in
      (t.pipeline ≡ s.pipeline)
      × ((e : ℕ) × (gst.get_by_name s.pipeline "sink" ≡ some e) × (t.appsink ≡ some e))
      × (t.encoder ≡ gst.get_by_name s.pipeline "enc")
      × (t.config ≡ s.config)
unfolding find_elements
find_elements-found gst s e = elim (Option-cases (gst.get_by_name s.pipeline "sink")) [
  | inl missing ↦ absurd (ground (arith, e, missing))
  | inr (sink, found) ↦ rw (found, find_elements) (refl, (sink, refl, found), refl, refl)
]

build_pipeline-IsOf :
    (build : Build) (r : Round) (s : RtspPipeline)
    → (build_pipeline build r.gst s).1 ≡ none
    → IsOf build r.gst s.config (build_pipeline build r.gst s).0
unfolding build_pipeline
build_pipeline-IsOf build r s e =
    elim (Option-cases (r.gst.parse_launch (description build s.config)).1) [
      | inr (message, failed) ↦ absurd (ground (arith, e, failed))
      | inl fine ↦
          let found =
            find_elements-found r.gst (parsed build r.gst s) (rw (fine, build_pipeline) at e) in
          rw (fine, build_pipeline)
            (record { launched = found.0; no_error = fine; sink = found.1; encoder = found.2 })
    ]

playing-IsOf :
    (build : Build) (gst : Gst) (c : AppConfig) (t : RtspPipeline)
    → IsOf build gst c t
    → IsOf build gst c (playing t)
unfolding playing
playing-IsOf build gst c t k = record {
  launched = k.launched;
  no_error = k.no_error;
  sink = k.sink;
  encoder = k.encoder;
}

-- A round whose pipeline is launched with a sink, plays, and has messages still to be read.
abbrev pub Reads : Build → AppConfig → Round → Type 0
Reads build c r =
    let launched = r.gst.parse_launch (description build c) in
    (launched.1 ≡ none)
    × ((e : ℕ) × (r.gst.get_by_name launched.0 "sink" ≡ some e))
    × (r.plays ≡ true)
    × (message_loop r.bus ≡ false)

thread_round-IsOf :
    (build : Build) (r : Round) (s : RtspPipeline)
    → (thread_round build r s).1 ≡ true
    → Reads build s.config r × IsOf build r.gst s.config (thread_round build r s).0
unfolding thread_round
thread_round-IsOf build r s e = elim (Option-cases (build_pipeline build r.gst s).1) [
  | inr (what, failed) ↦ absurd (ground (arith, e, failed))
  | inl built ↦ elim (Bool-cases r.plays) [
    | inr stuck ↦ absurd (ground (arith, e, built, stuck))
    | inl plays ↦ elim (Bool-cases (message_loop r.bus)) [
      | inl over ↦ absurd (ground (arith, e, built, plays, over))
      | inr reading ↦
          let of = build_pipeline-IsOf build r s built in
          (
            (of.no_error, (of.sink.0, of.sink.1), plays, reading),
            rw (built, plays, reading, thread_round)
                (playing-IsOf build r.gst s.config (build_pipeline build r.gst s).0 of),
          )
    ]
  ]
]

thread_round-Reads :
    (build : Build) (r : Round) (s : RtspPipeline)
    → Reads build s.config r
    → (thread_round build r s).1 ≡ true
unfolding thread_round build_pipeline find_elements
thread_round-Reads build r s (fine, (e, sink), plays, reading) =
    rw (fine, thread_round, build_pipeline)
      (rw (sink, thread_round, build_pipeline, find_elements)
        (rw (plays, reading, thread_round) refl))

-- While the thread reads messages, the members are those of the pipeline that one round launched, its
-- sink, and its encoder where it has one: of the first round whose pipeline is launched with a sink,
-- plays, and has messages still to be read. In every round before it no stop was requested, and
-- the pipeline was not made, did not play, or came to its end.
pub pipeline_thread-IsOf :
    (build : Build) (rs : List (Bool × Round)) (s : RtspPipeline)
    → s.running ≡ false
    → (pipeline_thread build rs s).1 ≡ true
    → (before : List (Bool × Round)) × (r : Round) × (later_tests : List (Bool × Round)) × (rs
        ≡ before ++ (false, r) ∷ later_tests)
      × All (λ x. (x.0 ≡ false) × ¬ Reads build s.config x.1) before
      × Reads build s.config r
      × IsOf build r.gst s.config (pipeline_thread build rs s).0
unfolding pipeline_thread
pipeline_thread-IsOf build [] s down e = absurd (ground (arith, e))
pipeline_thread-IsOf build ((true, r) ∷ rs) s down e = absurd (ground (arith, e))
pipeline_thread-IsOf build ((false, r) ∷ rs) s down e =
    let t = (thread_round build r s).0 in
    let (state, count, config) = thread_round-IsRound build r s down in
    elim (Bool-cases (thread_round build r s).1) [
      | inl reading ↦
          let (reads, of) = thread_round-IsOf build r s reading in
          ([], r, rs, refl, tt, reads, rw (reading, pipeline_thread) of)
      | inr over ↦
          let (before, q, after, split, ended, reads, of) =
            pipeline_thread-IsOf build rs t (state ∙ over) (rw (over, pipeline_thread) at e) in
          (
            (false, r) ∷ before,
            q,
            after,
            ap (◌∷◌ (false, r)) split,
            (
              (refl, λ h. true≢false (sym (thread_round-Reads build r s h) ∙ over)),
              subst (λ c. All (λ x. (x.0 ≡ false) × ¬ Reads build c x.1) before) config ended,
            ),
            subst (λ c. Reads build c q) config reads,
            rw (over, pipeline_thread)
                (subst (λ c. IsOf build q.gst c (pipeline_thread build rs t).0) config of),
          )
    ]
