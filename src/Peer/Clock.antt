-- ===== src/Peer/Clock.antt =====
-- The RTP clock of `send_h264_nal` (src/peer_connection.cpp), at the library's rate of 90 kHz.
use ioh_robodog_webrtc.Prelude.{ℕ, ◌+◌, ◌-◌, ◌*◌, ◌/◌, ◌%◌, ◌^◌, ◌≤◌, ◌<◌, ◌≡◌, arith}
use ioh_robodog_webrtc.Peer.{claim_start, rtp_time}

-- Below 2 ^ 64 / 90000 microseconds after the first frame, no product wraps: the timestamp is nine
-- ticks for each hundred microseconds, modulo 2 ^ 32.
pub rtp_time_exact :
    (ts start : ℕ)
    → start ≤ ts
    → ts < 2 ^ 64
    → ts - start ≤ 204963823041217
    → rtp_time 90000 ts start ≡ ((ts - start) * 9 / 100) % 2 ^ 32
unfolding rtp_time
rtp_time_exact ts start h w far = omega arith

-- For the first thirteen hours (47721858800 microseconds) of a stream the timestamps keep the order
-- of the frames.
pub rtp_time_mono :
    (t u start : ℕ)
    → start ≤ t
    → t ≤ u
    → u < 2 ^ 64
    → u - start ≤ 47721858800
    → rtp_time 90000 t start ≤ rtp_time 90000 u start
rtp_time_mono t u start h k w far = omega (
  arith,
  rtp_time_exact t start h (omega arith) (omega arith),
  rtp_time_exact u start (omega arith) w (omega arith),
)

-- Two frames a whole number of ticks apart have timestamps that differ by that number, modulo
-- 2 ^ 32, also where the 32-bit timestamp wraps.
pub rtp_time_step :
    (ts start k : ℕ)
    → start ≤ ts
    → ts + k * 100 < 2 ^ 64
    → ts + k * 100 - start ≤ 204963823041217
    → rtp_time 90000 (ts + k * 100) start ≡ (rtp_time 90000 ts start + k * 9) % 2 ^ 32
rtp_time_step ts start k h w far = omega (
  arith,
  rtp_time_exact ts start h (omega arith) (omega arith),
  rtp_time_exact (ts + k * 100) start (omega arith) w far,
)

-- A frame stamped d microseconds before the first one, d at least 1 and at most 10 ^ 9, as after a
-- reconnection that starts the source's clock anew, gets a timestamp that lies more than 140000000 ticks (25 minutes) behind the
-- d * 9 / 100 ticks that the source means.
pub rtp_time_before_start :
    (start d : ℕ)
    → 0 < d
    → d ≤ start
    → start < 2 ^ 64
    → d ≤ 1000000000
    → rtp_time 90000 (start - d) start + 140000000 < 2 ^ 32 - d * 9 / 100
unfolding rtp_time
rtp_time_before_start start d p h w small = omega arith

-- The first frame sets the origin of the clock, later ones leave it, unless the first is at 0.
pub claim_start_keeps :
    (start ts us : ℕ) → 0 < ts → claim_start (claim_start start ts) us ≡ claim_start start ts
unfolding claim_start
claim_start_keeps start ts us h = ground arith
