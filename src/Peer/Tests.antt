-- ===== src/Peer/Tests.antt =====
-- Runs of one peer: a connection that comes up, sends, and closes.
use ioh_robodog_webrtc.Prelude.{
  ◌*◌, ◌+◌, ◌-◌, ◌/◌, arith, ◌^◌, ◌<◌, ◌≡◌, ◌↔◌, refl, true, some, List, [], ◌∷◌,
}
use ioh_robodog_webrtc.Prelude.Results.{ok}
use ioh_robodog_webrtc.Config.{default_webrtc}
use ioh_robodog_webrtc.Peer.{
  RtcState, Rtc, Peer, Globals, TrackAnswer, fresh_peer, rtp_time, is_connected, is_closed,
  get_stats, first_globals,
}
use ioh_robodog_webrtc.Peer.Clock.{rtp_time_before_start}
use ioh_robodog_webrtc.Peer.Life.{Event, state_changed, track_opened, keyframe, sends, run}
use ioh_robodog_webrtc.Peer.Life.{run-state}
use ioh_robodog_webrtc.Peer.Traffic.{run-counters, run-IsSorted, IsSortedFrom}
use ioh_robodog_webrtc.Peer.Life.{last_state}
use ioh_robodog_webrtc.Peer.Life.{has_ended}
use ioh_robodog_webrtc.Peer.Life.{step}
use ioh_robodog_webrtc.Peer.{send_h264_nal}
use ioh_robodog_webrtc.Peer.{on_state_change}
use ioh_robodog_webrtc.Peer.{on_track_open}
use ioh_robodog_webrtc.Peer.{keyframe_sent}

abbrev library : Rtc
library = record { default_clock_rate = 90000; make_connection = λ s. ok tt }

abbrev taken : TrackAnswer
taken = record { is_open = true; send = ok tt }

abbrev first_peer : Peer
first_peer = fresh_peer library "peer-0000002a" default_webrtc (some 7) 42

abbrev session : List Event
session =
    state_changed RtcState.connecting
    ∷ sends taken (1 ∷ []) 900
    ∷ state_changed RtcState.connected
    ∷ track_opened
    ∷ sends taken (1 ∷ 2 ∷ 3 ∷ []) 1000
    ∷ keyframe
    ∷ sends taken (4 ∷ 5 ∷ []) 41000
    ∷ state_changed RtcState.failed
    ∷ []

run-state_example :
    let q = (run library session first_peer first_globals).0 in
    ((is_connected q ≡ true) ↔ (RtcState.failed ≡ RtcState.connected))
    × ((get_stats q).state ≡ "failed")
    × (is_closed q ≡ true)
unfolding fresh_peer last_state has_ended
run-state_example = run-state library session first_peer first_globals refl refl refl

run-counters_example :
    let (q, h, ps) = run library session first_peer first_globals in
    ((get_stats q).rtp_packets_sent ≡ 2) × ((get_stats q).bytes_sent ≡ 5)
unfolding run step send_h264_nal on_state_change on_track_open keyframe_sent fresh_peer
run-counters_example = run-counters library session first_peer first_globals refl

abbrev attempts : List Event
attempts =
    state_changed RtcState.connecting ∷ sends taken (1 ∷ []) 5 ∷ state_changed RtcState.failed ∷ []

abbrev ticking : Globals
ticking = record { next_ssrc = 43; start_time = 500 }

run-IsSorted_example : IsSortedFrom 0 (run library session first_peer ticking).2
run-IsSorted_example =
    run-IsSorted library session first_peer ticking 50000 refl (omega arith) (omega arith)
      (omega arith)
      (
        omega arith,
        omega arith,
        (omega arith, omega arith, (omega arith, omega arith, omega arith)),
      )

rtp_time_before_start_example :
    rtp_time 90000 (5000000 - 4000000) 5000000 + 140000000 < 2 ^ 32 - 4000000 * 9 / 100
rtp_time_before_start_example =
    rtp_time_before_start 5000000 4000000 (omega arith) (omega arith) (omega arith) (omega arith)
