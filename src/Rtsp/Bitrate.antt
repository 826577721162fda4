-- ===== src/Rtsp/Bitrate.antt =====
-- `set_bitrate` of src/rtsp_pipeline.cpp: the rates that the encoder gets.
use ioh_robodog_webrtc.Prelude.{
  ℕ, ◌*◌, ◌^◌, ◌≤◌, ◌<◌, ◌≡◌, refl, ap, ap₂, ltb, arith, Bool, true, false, some, if◌then◌else◌,
}
use ioh_robodog_webrtc.Prelude.Int.{
  ℤ, pos, negsuc, ◌≤ℤ◌, max_ℤ, min_ℤ, scale_ℤ, to_int32, wrap_unsigned,
}
use ioh_robodog_webrtc.Rtsp.{RtspPipeline, clamped, setting, set_bitrate}

clamp_in :
    (lo hi n : ℤ)
    → pos 0 ≤ℤ lo
    → lo ≤ℤ hi
    → (r : ℕ) × (max_ℤ lo (min_ℤ n hi) ≡ pos r) × (lo ≤ℤ pos r) × (pos r ≤ℤ hi)
clamp_in (negsuc a) hi n p h = absurd (omega arith)
clamp_in (pos a) (negsuc b) n p h = absurd (omega arith)
clamp_in (pos a) (pos b) (negsuc c) p h = (a, ground arith, omega arith, omega arith)
clamp_in (pos a) (pos b) (pos c) p h = (
  let m = if ltb b c then b else c in if ltb a m then m else a,
  ground arith,
  ground arith,
  ground arith,
)

clamp_same : (lo hi : ℤ) (n : ℕ) → lo ≤ℤ pos n → pos n ≤ℤ hi → max_ℤ lo (min_ℤ (pos n) hi) ≡ pos n
clamp_same (pos a) (pos b) n h k = ground arith
clamp_same (negsuc a) (pos b) n h k = ground arith
clamp_same (pos a) (negsuc b) n h k = absurd (omega arith)
clamp_same (negsuc a) (negsuc b) n h k = absurd (omega arith)

-- A product that stays an `int`.
scale_exact : (r k : ℕ) → r * k < 2 ^ 31 → wrap_unsigned 32 (to_int32 (scale_ℤ (pos r) k)) ≡ r * k
scale_exact r k h = let m = r * k in ground arith

-- Below 1789570 kbps neither product overflows an `int`.
setting_exact :
    (hw : Bool) (element r : ℕ)
    → r ≤ 1789569
    → setting hw element (pos r) ≡ record {
      element = element;
      bitrate = r * (if hw then 1000 else 1);
      most = r * (if hw then 1200 else 1);
    }
unfolding setting
setting_exact true element r h =
    ap₂ (λ b m. record { element = element; bitrate = b; most = m })
      (scale_exact r 1000 (omega arith)) (scale_exact r 1200 (omega arith))
setting_exact false element r h =
    ap₂ (λ b m. record { element = element; bitrate = b; most = m }) (omega arith) (omega arith)

-- Under limits 0 ≤ min ≤ max ≤ 1789569 a running encoder always gets a rate within them, whatever
-- is asked for: in bits per second with a peak of 120% in hardware, in kilobits in software.
pub set_bitrate-within :
    (n : ℤ) (s : RtspPipeline) (element : ℕ)
    → s.encoder ≡ some element
    → s.running ≡ true
    → pos 0 ≤ℤ s.config.webrtc.video.min_bitrate_kbps
    → s.config.webrtc.video.min_bitrate_kbps ≤ℤ s.config.webrtc.video.max_bitrate_kbps
    → s.config.webrtc.video.max_bitrate_kbps ≤ℤ pos 1789569
    → (r : ℕ) × (s.config.webrtc.video.min_bitrate_kbps ≤ℤ pos r)
      × (pos r ≤ℤ s.config.webrtc.video.max_bitrate_kbps)
      × (set_bitrate n s
          ≡ some (record {
            element = element;
            bitrate = r * (if s.is_hw_encode then 1000 else 1);
            most = r * (if s.is_hw_encode then 1200 else 1);
          }))
unfolding set_bitrate clamped
set_bitrate-within n s element found up low order high =
    let (r, e, above, below) =
      clamp_in s.config.webrtc.video.min_bitrate_kbps s.config.webrtc.video.max_bitrate_kbps n low
        order in
    (
      r,
      above,
      below,
      rw (found, set_bitrate)
          (rw (up, e) (ap some (setting_exact s.is_hw_encode element r (omega arith)))),
    )

-- A rate within the limits reaches the encoder unchanged.
pub set_bitrate-same :
    (n : ℕ) (s : RtspPipeline) (element : ℕ)
    → s.encoder ≡ some element
    → s.running ≡ true
    → s.config.webrtc.video.min_bitrate_kbps ≤ℤ pos n
    → pos n ≤ℤ s.config.webrtc.video.max_bitrate_kbps
    → set_bitrate (pos n) s ≡ some (setting s.is_hw_encode element (pos n))
unfolding set_bitrate clamped
set_bitrate-same n s element found up above below =
    rw (found, set_bitrate)
      (rw
        (
          up,
          clamp_same s.config.webrtc.video.min_bitrate_kbps s.config.webrtc.video.max_bitrate_kbps n
              above below,
        )
        refl)
