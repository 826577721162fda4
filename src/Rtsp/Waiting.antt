-- ===== src/Rtsp/Waiting.antt =====
-- `attempt_reconnect` of src/rtsp_pipeline.cpp: how long it waits.
use ioh_robodog_webrtc.Prelude.{
  ℕ, zero, suc, ◌+◌, ◌*◌, ◌%◌, ◌^◌, ◌≤◌, ◌<◌, ◌≡◌, refl, subst, arith, Bool, true, false,
  Bool-cases, inl, inr, ltb,
}
use ioh_robodog_webrtc.Prelude.Int.{ℤ, pos}
use ioh_robodog_webrtc.Rtsp.{RtspPipeline, sleeps, rounds, later, attempt_reconnect}

later_pos : (e : ℕ) → e + 100 < 2 ^ 31 → later (pos e) ≡ pos (e + 100)
later_pos e h = ground arith

sleeps_more :
    (f : ℕ) (stops : ℕ → Bool) (n e i : ℕ)
    → e < i
    → e + 100 < 2 ^ 31
    → stops n ≡ false
    → sleeps (suc f) stops n (pos e) (pos i) ≡ suc (sleeps f stops (suc n) (pos (e + 100)) (pos i))
unfolding sleeps
sleeps_more f stops n e i h small quiet = rw (later_pos e small) (ground arith)

sleeps_done : (f : ℕ) (stops : ℕ → Bool) (n e i : ℕ) → i ≤ e → sleeps f stops n (pos e) (pos i) ≡ 0
unfolding sleeps
sleeps_done zero stops n e i h = refl
sleeps_done (suc f) stops n e i h = ground arith

-- Undisturbed, with enough fuel, the sleeps cover the rest of the interval by less than one more.
sleeps_all :
    (f : ℕ) (stops : ℕ → Bool) (n e i : ℕ)
    → ((k : ℕ) → stops k ≡ false)
    → i ≤ 2147483500
    → e < i + 100
    → i < e + f * 100
    → (i ≤ e + sleeps f stops n (pos e) (pos i) * 100)
      × (e + sleeps f stops n (pos e) (pos i) * 100 < i + 100)
sleeps_all zero stops n e i quiet small near enough =
    rw (sleeps_done 0 stops n e i (omega arith)) (omega arith, omega arith)
sleeps_all (suc f) stops n e i quiet small near enough = elim (Bool-cases (ltb e i)) [
  | inl more ↦
      let less : e < i = ground arith in
      let (a, b) = sleeps_all f stops (suc n) (e + 100) i quiet small (omega arith) (omega arith) in
      rw (sleeps_more f stops n e i less (omega arith) (quiet n)) (omega arith, omega arith)
  | inr passed ↦
      let over : i ≤ e = ground arith in
      rw (sleeps_done (suc f) stops n e i over) (omega arith, omega arith)
]

-- A test that reads a request to stop ends the waiting.
sleeps_stop :
    (f : ℕ) (stops : ℕ → Bool) (n j : ℕ) (e i : ℤ) → stops (n + j) ≡ true → sleeps f stops n e i ≤ j
unfolding sleeps
sleeps_stop zero stops n j e i h = omega arith
sleeps_stop (suc f) stops n zero e i h = ground arith
sleeps_stop (suc f) stops n (suc j) e i h =
    ground (arith, sleeps_stop f stops (suc n) j (later e) i)

-- An undisturbed reconnection is counted and waits, in steps of 100 ms, at least the interval and
-- less than one step more; the fuel of the loop is enough for every interval to 2147483500 ms.
pub attempt_reconnect-waits :
    (stops : ℕ → Bool) (s : RtspPipeline) (i : ℕ)
    → ((k : ℕ) → stops k ≡ false)
    → s.config.rtsp.reconnect_interval_ms ≡ pos i
    → i ≤ 2147483500
    → let (t, k) = attempt_reconnect stops s in
      (i ≤ k * 100)
      × (k * 100 < i + 100)
      × (t.stats.reconnect_count ≡ (s.stats.reconnect_count + 1) % 2 ^ 64)
unfolding attempt_reconnect
attempt_reconnect-waits stops s i quiet interval small =
    let (a, b) = sleeps_all (rounds (pos i)) stops 1 0 i quiet small (omega arith) (omega arith) in
    rw (quiet 0, interval) (omega (arith, a), omega (arith, b), refl)

-- Once a request to stop can be read, by test j + 1 of the flag, no more than j sleeps of 100 ms
-- have passed, whatever the interval.
pub attempt_reconnect-stops :
    (stops : ℕ → Bool) (s : RtspPipeline) (j : ℕ)
    → stops (suc j) ≡ true
    → (attempt_reconnect stops s).1 ≤ j
unfolding attempt_reconnect
attempt_reconnect-stops stops s j h = elim (Bool-cases (stops 0)) [
  | inl first ↦ rw first (omega arith)
  | inr first ↦ rw first (
      sleeps_stop (rounds s.config.rtsp.reconnect_interval_ms) stops 1 j (pos 0)
        s.config.rtsp.reconnect_interval_ms (subst (λ m. stops m ≡ true) (omega arith) h))
]
