-- ===== src/Rtsp/Frames.antt =====
-- Sequences of samples in src/rtsp_pipeline.cpp: what is counted, and what the callback gets.
use native.Mathlib.Omega.{arith}
use ioh_robodog_webrtc.Prelude.{
  ℕ, ◌+◌, ◌%◌, ◌^◌, ◌/◌, ◌<◌, ◌≡◌, refl, ap, ◌∙◌, true, Option, none, some, List, [], ◌∷◌, length,
  ◌==◌, if◌then◌else◌, Bool-cases, Option-cases, inl, inr,
}
use ioh_robodog_webrtc.Rtsp.{RtspPipeline, Sample, timestamp_us, on_new_sample}

-- What a sample is: none, one without a buffer, one whose buffer cannot be mapped, or bytes; with
-- the time of the clock.
abbrev pub Arrival : Type 0
Arrival = ℕ × Option (Option (Option Sample))

-- The pipeline after samples, and the calls of the callback, in order.
unfoldable pub run_samples : List Arrival → RtspPipeline → RtspPipeline × List (List ℕ × ℕ)
unfolding on_new_sample
run_samples [] s = (s, [])
run_samples ((now, m) ∷ ms) s =
    let (t, call) = on_new_sample now m s in
    let (u, later_calls) = run_samples ms t in
    (u, elim call [ none ↦ later_calls | some c ↦ c ∷ later_calls ])

-- The samples that have bytes, with the time that stamps them.
abbrev pub mapped : List Arrival → List (ℕ × Sample)
mapped [] = []
mapped ((now, none) ∷ ms) = mapped ms
mapped ((now, some none) ∷ ms) = mapped ms
mapped ((now, some (some none)) ∷ ms) = mapped ms
mapped ((now, some (some (some m))) ∷ ms) = (now, m) ∷ mapped ms

abbrev pub total_bytes : List (ℕ × Sample) → ℕ
total_bytes [] = 0
total_bytes ((now, m) ∷ ms) = length m.bytes + total_bytes ms

-- The frames that are not empty, in microseconds: by the buffer's timestamp, or by the clock.
abbrev pub frames : List (ℕ × Sample) → List (List ℕ × ℕ)
frames [] = []
frames ((now, m) ∷ ms) =
    let rest = frames ms in
    if length m.bytes == 0
    then rest
    else (m.bytes, (elim m.pts [ none ↦ now | some pts ↦ pts / 1000 ])) ∷ rest

-- One sample with bytes, before the calls for those that follow.
called-frames :
    (now : ℕ) (m : Sample) (ms : List (ℕ × Sample)) (s : RtspPipeline)
    → s.nal_callback ≡ true
    → ◌≡◌ {A = List (List ℕ × ℕ)}
        (elim (on_new_sample now (some (some (some m))) s).1 [
          | none ↦ frames ms
          | some c ↦ c ∷ frames ms
        ])
        (frames ((now, m) ∷ ms))
unfolding on_new_sample timestamp_us
called-frames now m ms s on = elim (Bool-cases (length m.bytes == 0)) [
  | inl empty ↦ rw (empty, frames) (rw on refl)
  | inr full ↦
      rw (full, frames)
        (rw on
          (elim (Option-cases m.pts) [ inl unset ↦ rw unset refl | inr (pts, set) ↦ rw set refl ]))
]

-- Over any samples, on a pipeline whose counters are in range and that has a callback: every sample
-- with bytes is counted, once, with its size, modulo 2 ^ 64; the callback gets those that are not
-- empty, in order, each with its timestamp in microseconds.
pub run_samples-frames :
    (ms : List Arrival) (s : RtspPipeline)
    → s.stats.frames_received < 2 ^ 64
    → s.stats.bytes_received < 2 ^ 64
    → s.nal_callback ≡ true
    → let (t, calls) = run_samples ms s in
      (t.stats.frames_received ≡ (s.stats.frames_received + length (mapped ms)) % 2 ^ 64)
      × (t.stats.bytes_received ≡ (s.stats.bytes_received + total_bytes (mapped ms)) % 2 ^ 64)
      × (calls ≡ frames (mapped ms))
unfolding run_samples timestamp_us
run_samples-frames [] s f b on = (omega arith, omega arith, refl)
run_samples-frames ((now, none) ∷ ms) s f b on = run_samples-frames ms s f b on
run_samples-frames ((now, some none) ∷ ms) s f b on = run_samples-frames ms s f b on
run_samples-frames ((now, some (some none)) ∷ ms) s f b on = run_samples-frames ms s f b on
run_samples-frames ((now, some (some (some m))) ∷ ms) s f b on =
    let (t, call) = on_new_sample now (some (some (some m))) s in
    let (frame, byte, calls) = run_samples-frames ms t (omega arith) (omega arith) on in
    (
      omega (arith, frame),
      omega (arith, byte),
      ap (λ cs. elim call as (λ x. List (List ℕ × ℕ)) [ none ↦ cs | some c ↦ c ∷ cs ]) calls
          ∙ called-frames now m (mapped ms) s on,
    )
