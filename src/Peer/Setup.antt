-- ===== src/Peer/Setup.antt =====
-- The state of src/peer_connection.hpp, and the construction of a peer in src/peer_connection.cpp.

use ioh_robodog_webrtc.Prelude.{
  ℕ, ◌+◌, ◌%◌, ◌^◌, String, Bool, true, false, Option, none, List, [], ◌∷◌, ◌++◌, if◌then◌else◌,
  text_empty,
}
use ioh_robodog_webrtc.Prelude.Int.{ℤ}
use ioh_robodog_webrtc.Prelude.Results.{Result, ok, ◌>>=◌}
use ioh_robodog_webrtc.Config.{WebRtcConfig}

-- `rtc::PeerConnection::State`.
pub data RtcState : Type 0 where
  new connecting connected disconnected failed closed : RtcState

pub record IceServer : Type 0 where
  pub url : String
  pub username : String
  pub password : String

pub data Direction : Type 0 where
  send_only : Direction

-- The chain of media handlers on the track.
pub data MediaHandler : Type 0 where
  h264_packetizer sr_reporter nack_responder : MediaHandler

-- What `setup_connection` asks of the library.
pub record Setup : Type 0 where
  pub ice_servers : List IceServer
  pub disable_auto_negotiation : Bool
  pub cname : String
  pub msid : String
  pub direction : Direction
  pub payload_type : ℤ
  pub ssrc : ℕ
  pub bitrate : ℤ
  pub clock_rate : ℕ
  pub handlers : List MediaHandler

-- The library: the clock rate of its H.264 packetizer, and whether it makes a connection.
pub record Rtc : Type 0 where
  pub default_clock_rate : ℕ
  pub make_connection : Setup → Result (Unit {0})

pub record Stats : Type 0 where
  pub rtp_packets_sent : ℕ
  pub bytes_sent : ℕ
  pub state : String

pub record Globals : Type 0 where
  pub next_ssrc : ℕ
  pub start_time : ℕ

-- `signaling_cb` names the WebSocket to which the callback's closure leads, where there is one.
-- `rtp_timestamp` is `rtp_config_->timestamp`, `none` until the program sets it.
pub record Peer : Type 0 where
  pub peer_id : String
  pub config : WebRtcConfig
  pub signaling_cb : Option ℕ
  pub setup : Setup
  pub video_track : Bool
  pub rtp_timestamp : Option ℕ
  pub needs_keyframe : Bool
  pub connected : Bool
  pub closed : Bool
  pub stats : Stats
  pub ssrc : ℕ

-- A call of the signaling callback.
pub record Signal : Type 0 where
  pub target : ℕ
  pub kind : String
  pub payload : String

-- A message that the track was given, under its RTP timestamp.
pub record Packet : Type 0 where
  pub timestamp : ℕ
  pub bytes : List ℕ

abbrev pub first_globals : Globals
first_globals = record { next_ssrc = 42; start_time = 0 }

abbrev pub fresh_stats : Stats
fresh_stats = record { rtp_packets_sent = 0; bytes_sent = 0; state = "new" }

unfoldable pub ice_servers : WebRtcConfig → List IceServer
ice_servers c =
    (if text_empty c.stun_server
      then []
      else record { url = c.stun_server; username = ""; password = "" } ∷ [])
    ++ (if text_empty c.turn_server
        then []
        else record {
          url = c.turn_server;
          username = c.turn_username;
          password = c.turn_credential;
        }
          ∷ [])

unfoldable pub setup_connection : Rtc → WebRtcConfig → ℕ → Setup
unfolding ice_servers
setup_connection rtc c ssrc = record {
  ice_servers = ice_servers c;
  disable_auto_negotiation = true;
  cname = "video-stream";
  msid = "stream-server";
  direction = send_only;
  payload_type = c.video.payload_type;
  ssrc = ssrc;
  bitrate = c.video.bitrate_kbps;
  clock_rate = rtc.default_clock_rate;
  handlers = h264_packetizer ∷ sr_reporter ∷ nack_responder ∷ [];
}

-- The members after a construction that succeeds.
unfoldable pub fresh_peer : Rtc → String → WebRtcConfig → Option ℕ → ℕ → Peer
unfolding setup_connection
fresh_peer rtc id c cb ssrc = record {
  peer_id = id;
  config = c;
  signaling_cb = cb;
  setup = setup_connection rtc c ssrc;
  video_track = true;
  rtp_timestamp = none;
  needs_keyframe = true;
  connected = false;
  closed = false;
  stats = fresh_stats;
  ssrc = ssrc;
}

-- The constructor takes an SSRC also where the library then refuses the connection.
unfoldable pub construct : Rtc → String → WebRtcConfig → Option ℕ → Globals → Result Peer × Globals
unfolding setup_connection fresh_peer
construct rtc id c cb g = (
  do
    _ ← rtc.make_connection (setup_connection rtc c g.next_ssrc)
    ok (fresh_peer rtc id c cb g.next_ssrc),
  record g { next_ssrc = (g.next_ssrc + 1) % 2 ^ 32 },
)
