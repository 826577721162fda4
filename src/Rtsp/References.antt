-- ===== src/Rtsp/References.antt =====
-- The references to elements that the thread of src/rtsp_pipeline.cpp takes (`gst_parse_launch`,
-- `gst_bin_get_by_name`) and gives back (`gst_object_unref`), in the order of the code.
-- That of the bus is given back at the end of the message loop and not counted.
use native.Mathlib.Omega.{arith}
use mathlib.Core.Bool.{true≢false}
use mathlib.Core.List.{append_assoc}
use ioh_robodog_webrtc.Prelude.{
  ℕ, ◌+◌, ◌≡◌, refl, Bool, true, false, not, Option, none, some, List, [], ◌∷◌, ◌++◌, All,
  if◌then◌else◌, ◌&&◌,
}
use ioh_robodog_webrtc.Config.{AppConfig}
use ioh_robodog_webrtc.Rtsp.Description.{Build, description}
use ioh_robodog_webrtc.Rtsp.{Gst, Round, message_loop}

pub data Reference : Type 0 where
  taken : ℕ → Reference
  given_back : ℕ → Reference

abbrev taken_if : Option ℕ → List Reference
taken_if none = []
taken_if (some e) = taken e ∷ []

abbrev given_back_if : Option ℕ → List Reference
given_back_if none = []
given_back_if (some e) = given_back e ∷ []

-- From the parsed pipeline on: the encoder's reference is kept.
unfoldable pub element_references : Gst → Option ℕ → List Reference
element_references gst pipeline = elim (gst.get_by_name pipeline "sink") [
  | none ↦ []
  | some sink ↦ taken sink ∷ taken_if (gst.get_by_name pipeline "enc") ++ given_back sink ∷ []
]

-- `build_pipeline`; the second part says that it throws.
unfoldable pub build_references : Build → AppConfig → Gst → List Reference × Bool
unfolding element_references
build_references build c gst =
    let (launched, error) = gst.parse_launch (description build c) in
    elim error [
      | some message ↦ (taken_if launched, true)
      | none ↦ (
        taken_if launched ++ element_references gst launched,
        elim (gst.get_by_name launched "sink") [ none ↦ true | some sink ↦ false ],
      )
    ]

-- A round of the thread; the second part says that it still reads messages.
unfoldable pub round_references : Build → AppConfig → Round → List Reference × Bool
unfolding build_references
round_references build c r =
    let pipeline = (r.gst.parse_launch (description build c)).0 in
    let (built, throws) = build_references build c r.gst in
    if throws
    then (built, false)
    else if r.plays && not (message_loop r.bus)
    then (built, true)
    else (built ++ given_back_if pipeline, false)

unfoldable pub thread_references : Build → AppConfig → List (Bool × Round) → List Reference
unfolding round_references
thread_references build c [] = []
thread_references build c ((true, r) ∷ later_tests) = []
thread_references build c ((false, r) ∷ later_tests) =
    let (now, reading) = round_references build c r in
    let rest = thread_references build c later_tests in if reading then now else now ++ rest

-- How many references are taken, and how many are given back.
abbrev pub count_taken : List Reference → ℕ
count_taken [] = 0
count_taken (taken e ∷ rs) = 1 + count_taken rs
count_taken (given_back e ∷ rs) = count_taken rs

abbrev pub count_given_back : List Reference → ℕ
count_given_back [] = 0
count_given_back (taken e ∷ rs) = count_given_back rs
count_given_back (given_back e ∷ rs) = 1 + count_given_back rs

count_taken-append :
    (rs us : List Reference) → count_taken (rs ++ us) ≡ count_taken rs + count_taken us
count_taken-append [] us = omega arith
count_taken-append (taken e ∷ rs) us = omega (arith, count_taken-append rs us)
count_taken-append (given_back e ∷ rs) us = count_taken-append rs us

count_given_back-append :
    (rs us : List Reference)
    → count_given_back (rs ++ us) ≡ count_given_back rs + count_given_back us
count_given_back-append [] us = omega arith
count_given_back-append (taken e ∷ rs) us = count_given_back-append rs us
count_given_back-append (given_back e ∷ rs) us = omega (arith, count_given_back-append rs us)

-- A round in which a pipeline with a sink is launched, and that ends: it does not play, or its
-- messages come to an end.
abbrev pub IsOver : Build → AppConfig → Round → Type 0
IsOver build c r =
    let launched = r.gst.parse_launch (description build c) in
    ((p : ℕ) × (launched.0 ≡ some p))
    × (launched.1 ≡ none)
    × ((e : ℕ) × (r.gst.get_by_name launched.0 "sink" ≡ some e))
    × ((r.plays && not (message_loop r.bus)) ≡ false)

-- The encoders among the rounds.
abbrev pub has_encoder : Build → AppConfig → Round → ℕ
has_encoder build c r =
    elim (r.gst.get_by_name (r.gst.parse_launch (description build c)).0 "enc") [
      | none ↦ 0
      | some e ↦ 1
    ]

abbrev pub count_encoders : Build → AppConfig → List (Bool × Round) → ℕ
count_encoders build c [] = 0
count_encoders build c ((b, r) ∷ rs) = has_encoder build c r + count_encoders build c rs

-- What such a round takes and gives back, for its pipeline, its sink and its encoder.
abbrev whole : Option ℕ → ℕ → Option ℕ → List Reference
whole pipeline sink encoder =
    (taken_if pipeline ++ taken sink ∷ taken_if encoder ++ given_back sink ∷ [])
    ++ given_back_if pipeline

whole-counts :
    (p sink : ℕ) (pipeline encoder : Option ℕ)
    → pipeline ≡ some p
    → count_taken (whole pipeline sink encoder)
      ≡ count_given_back (whole pipeline sink encoder) + (elim encoder [ none ↦ 0 | some e ↦ 1 ])
whole-counts p sink pipeline none launched = rw launched (omega arith)
whole-counts p sink pipeline (some e) launched = rw launched (omega arith)

round_references-whole :
    (build : Build) (c : AppConfig) (r : Round) (e : ℕ)
    → let launched = r.gst.parse_launch (description build c) in
      launched.1 ≡ none
      → r.gst.get_by_name launched.0 "sink" ≡ some e
      → (r.plays && not (message_loop r.bus)) ≡ false
      → round_references build c r
        ≡ (whole launched.0 e (r.gst.get_by_name launched.0 "enc"), false)
unfolding round_references build_references element_references
round_references-whole build c r e fine sink over =
    rw (fine, round_references, build_references)
      (rw (sink, round_references, build_references, element_references)
        (rw (over, round_references) (simp append_assoc)))

round_references-over :
    (build : Build) (c : AppConfig) (r : Round)
    → IsOver build c r
    → let (now, reading) = round_references build c r in
      (reading ≡ false) × (count_taken now ≡ count_given_back now + has_encoder build c r)
round_references-over build c r ((p, launched), fine, (e, sink), over) =
    rw (round_references-whole build c r e fine sink over) (refl, whole-counts p e _ _ launched)

-- While no stop is requested, over rounds that each launch a pipeline with a sink and come to an end,
-- the thread takes as many references as it gives back, and one more for every round whose pipeline
-- has an encoder.
pub thread_references-leaks :
    (build : Build) (c : AppConfig) (rs : List (Bool × Round))
    → All (λ e. (e.0 ≡ false) × IsOver build c e.1) rs
    → let us = thread_references build c rs in
      count_taken us ≡ count_given_back us + count_encoders build c rs
unfolding thread_references
thread_references-leaks build c [] h = omega arith
thread_references-leaks build c ((true, r) ∷ rs) h = absurd (true≢false h.0.0)
thread_references-leaks build c ((false, r) ∷ rs) h =
    let (ends, balance) = round_references-over build c r h.0.1 in
    let now = (round_references build c r).0 in
    let rest = thread_references build c rs in
    rw (ends, thread_references)
      (omega (
        arith,
        count_taken-append now rest,
        count_given_back-append now rest,
        balance,
        thread_references-leaks build c rs h.1,
      ))
