-- ===== src/WebRtc/Tests.antt =====
-- Runs of the server with few peers.
use ioh_robodog_webrtc.Prelude.{
  ℕ, ◌≡◌, refl, ap, arith, String, true, some, List, [], ◌∷◌, map, text_eq,
}
use mathlib.Core.Bool.{true≢false}
use ioh_robodog_webrtc.Prelude.Results.{ok}
use ioh_robodog_webrtc.Config.{default_config, default_webrtc}
use ioh_robodog_webrtc.Peer.{Rtc, Peer, RtcState, TrackAnswer, fresh_peer}
use ioh_robodog_webrtc.WebRtc.{Server, init, broadcast_nal}
use ioh_robodog_webrtc.WebRtc.Ops.{Op, creates, removes, broadcasts, state_changes, starts, run}
use ioh_robodog_webrtc.WebRtc.PeerId.{generate_peer_id_injective}
use ioh_robodog_webrtc.WebRtc.Invariant.{IsConsistent, run-IsConsistent}
use ioh_robodog_webrtc.WebRtc.Broadcast.{peer_after, packet_for, broadcast_stamp, broadcast_nal-map}
use ioh_robodog_webrtc.WebRtc.Registry.{nobody, Leads}
use ioh_robodog_webrtc.WebRtc.Moves.{registry}
use ioh_robodog_webrtc.WebRtc.Refinement.{run-refines}
use ioh_robodog_webrtc.WebRtc.Alike.{IsAlike}
use ioh_robodog_webrtc.WebRtc.Order.{run-IsAlike}
use ioh_robodog_webrtc.WebRtc.Idents.{idents}
use ioh_robodog_webrtc.Prelude.Thins.{Apart}
use ioh_robodog_webrtc.Prelude.Orders.{swap}

abbrev library : Rtc
library = record { default_clock_rate = 90000; make_connection = λ s. ok tt }

abbrev answer : String → TrackAnswer
answer id = record { is_open = true; send = ok tt }

-- Two peers come, one gets up and is sent a frame, the other fails.
abbrev history : List Op
history =
    starts
    ∷ creates 42 (some 7)
    ∷ creates 43 (some 8)
    ∷ state_changes "peer-0000002a" RtcState.connected
    ∷ broadcasts answer (1 ∷ 2 ∷ []) 1000
    ∷ state_changes "peer-0000002b" RtcState.failed
    ∷ []

abbrev first_peer : Peer
first_peer = record (fresh_peer library "peer-0000002a" default_webrtc (some 7) 42) {
  connected = true;
}

abbrev second_peer : Peer
second_peer = record (fresh_peer library "peer-0000002b" default_webrtc (some 8) 43) {
  closed = true;
}

abbrev two_peers : Server
two_peers = record {
  config = default_config;
  peers = ("peer-0000002a", first_peer) ∷ ("peer-0000002b", second_peer) ∷ [];
  cleaning = true;
  running = true;
  globals = record { next_ssrc = 44; start_time = 1000 };
}

run-IsConsistent_example : IsConsistent default_config (run library history (init default_config))
run-IsConsistent_example =
    run-IsConsistent library history default_config (omega arith, omega arith) (omega arith)

broadcast_nal-map_example :
    let (t, packets) = broadcast_nal library answer (5 ∷ []) 41000 two_peers in
    let stamp = broadcast_stamp library answer (5 ∷ []) 41000 two_peers.globals in
    (t.peers ≡ map (peer_after answer (5 ∷ []) stamp) two_peers.peers)
    × (packets ≡ map (packet_for answer (5 ∷ []) stamp) two_peers.peers)
broadcast_nal-map_example = broadcast_nal-map library answer (5 ∷ []) 41000 two_peers

generate_peer_id_injective_example : ◌≡◌ {A = ℕ} 42 42
generate_peer_id_injective_example =
    generate_peer_id_injective 42 42 (omega arith) (omega arith) refl

-- The same server with its map walked the other way.
abbrev other_order : Server
other_order = record two_peers {
  peers = ("peer-0000002b", second_peer) ∷ ("peer-0000002a", first_peer) ∷ [];
}

-- Everything is removed that was made.
abbrev coming_and_going : List Op
coming_and_going = starts ∷ creates 42 (some 7) ∷ removes "peer-0000002a" ∷ []

run-refines_example :
    Leads library default_config coming_and_going nobody
      (registry (run library coming_and_going (init default_config)))
run-refines_example =
    run-refines library coming_and_going default_config (omega arith) (omega arith)

-- The same peers in another order.
abbrev other_way : Server
other_way = record two_peers {
  peers = ("peer-0000002b", second_peer) ∷ ("peer-0000002a", first_peer) ∷ [];
}

run-IsAlike_example : IsAlike (run library history two_peers) (run library history other_way)
run-IsAlike_example =
    run-IsAlike library history two_peers other_way two_apart
      (record { config = refl; cleaning = refl; running = refl; globals = refl; peers = swap })
  where
    two_apart : Apart (λ i. i.name) (idents two_peers)
    two_apart = (((λ e. true≢false (ap (text_eq "peer-0000002a") e)), tt), (tt, tt))
