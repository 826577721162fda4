-- ===== src/Peer.antt =====
-- src/peer_connection.hpp and src/peer_connection.cpp: one WebRTC peer.
-- The library (libdatachannel) is the parameter `Rtc` and the answers that its calls get; its
-- callbacks are the `on_…` handlers. The static members are `Globals`.
mod Setup
pub mod Clock
pub mod Life
pub mod Traffic
mod Tests
unfoldable pub use Setup.*
use Prim.Native.String
use ioh_robodog_webrtc.Prelude.{
  ℕ, ◌+◌, ◌-◌, ◌*◌, ◌/◌, ◌%◌, ◌^◌, String, Bool, true, false, not, ◌||◌, Option, none, some, List,
  [], ◌∷◌, ◌++◌, length, ◌==◌, if◌then◌else◌,
}
use ioh_robodog_webrtc.Prelude.Results.{Result, ok, err, ◌>>=◌}

unfoldable pub state_name : RtcState → String
state_name new = "new"
state_name connecting = "connecting"
state_name connected = "connected"
state_name disconnected = "disconnected"
state_name failed = "failed"
state_name closed = "closed"

abbrev pub is_up : RtcState → Bool
is_up connected = true
is_up _ = false

abbrev pub is_final : RtcState → Bool
is_final closed = true
is_final failed = true
is_final _ = false

unfoldable pub on_state_change : RtcState → Peer → Peer
unfolding state_name
on_state_change s p = record p {
  connected = is_up s;
  closed = if is_final s then true else p.closed;
  stats = record (p.stats) { state = state_name s };
}

unfoldable pub signal : Peer → String → String → List Signal
signal p kind payload = elim p.signaling_cb [
  | none ↦ []
  | some target ↦ record { target = target; kind = kind; payload = payload } ∷ []
]

unfoldable pub on_local_description : Peer → String → String → List Signal
unfolding signal
on_local_description p kind sdp = signal p kind sdp

-- The JSON text of a candidate, joined by hand as in the code.
unfoldable pub candidate_text : String → String → String
candidate_text candidate mid =
    String.◌++◌ "{\"candidate\":\""
      (String.◌++◌ candidate (String.◌++◌ "\",\"sdpMid\":\"" (String.◌++◌ mid "\"}")))

unfoldable pub on_local_candidate : Peer → String → String → List Signal
unfolding signal candidate_text
on_local_candidate p candidate mid = signal p "candidate" (candidate_text candidate mid)

unfoldable pub on_track_open : Peer → Peer
on_track_open p = record p { needs_keyframe = true }

-- The library's answers come first: `err` is an exception, which passes through these two.
unfoldable pub start_offer : Result (Unit {0}) → Peer → Result Peer
start_offer answer p = do _ ← answer; ok p

unfoldable pub handle_answer : Result (Unit {0}) → Peer → Result Peer
handle_answer answer p = do _ ← answer; ok (record p { needs_keyframe = true })

-- `handle_candidate` catches what the library throws.
unfoldable pub handle_candidate : Result (Unit {0}) → Peer → Peer
handle_candidate (ok done) p = p
handle_candidate (err what) p = p

unfoldable pub keyframe_sent : Peer → Peer
keyframe_sent p = record p { needs_keyframe = false }

-- What the track answers to `isOpen` and to `send`.
pub record TrackAnswer : Type 0 where
  pub is_open : Bool
  pub send : Result (Unit {0})

-- `start_time_.compare_exchange_strong(0, timestamp_us)`.
unfoldable pub claim_start : ℕ → ℕ → ℕ
claim_start start ts = if start == 0 then ts else start

-- The RTP timestamp: 64-bit differences and products, cast to 32 bits.
unfoldable pub rtp_time : ℕ → ℕ → ℕ → ℕ
rtp_time rate ts start = ((ts + 2 ^ 64 - start) % 2 ^ 64 * rate % 2 ^ 64 / 1000000) % 2 ^ 32

unfoldable pub count_packet : ℕ → Stats → Stats
count_packet size s = record s {
  rtp_packets_sent = (s.rtp_packets_sent + 1) % 2 ^ 64;
  bytes_sent = (s.bytes_sent + size) % 2 ^ 64;
}

-- A frame that the track takes, or refuses by an exception.
unfoldable pub deliver : Result (Unit {0}) → ℕ → List ℕ → Peer → Peer × Option Packet
unfolding count_packet
deliver (ok done) stamp bytes p = (
  record p { rtp_timestamp = some stamp; stats = count_packet (length bytes) p.stats },
  some (record { timestamp = stamp; bytes = bytes }),
)
deliver (err what) stamp bytes p = (record p { rtp_timestamp = some stamp }, none)

unfoldable pub is_sendable : TrackAnswer → Peer → Bool
is_sendable answer p = not (not p.connected || not p.video_track || not answer.is_open)

unfoldable pub send_h264_nal :
    Rtc → TrackAnswer → List ℕ → ℕ → Peer → Globals → Peer × Globals × Option Packet
unfolding is_sendable claim_start rtp_time deliver
send_h264_nal rtc answer bytes ts p g =
    if is_sendable answer p
    then (let start = claim_start g.start_time ts in
        let (q, packet) = deliver answer.send (rtp_time rtc.default_clock_rate ts start) bytes p in
        (q, record g { start_time = start }, packet))
    else (p, g, none)

unfoldable pub is_connected : Peer → Bool
is_connected p = p.connected

unfoldable pub is_closed : Peer → Bool
is_closed p = p.closed

unfoldable pub get_stats : Peer → Stats
get_stats p = p.stats
