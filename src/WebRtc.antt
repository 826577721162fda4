-- ===== src/WebRtc.antt =====
-- src/webrtc_server.hpp and src/webrtc_server.cpp: the peers of the server.
-- Each operation holds `peers_mutex_`, so an execution is a sequence of operations (`WebRtc.Ops`).
-- The order of the entries of `peers` stands for the unspecified order of the unordered map.
pub mod PeerId
pub mod Ops
pub mod Idents
pub mod Kept
pub mod Invariant
pub mod Create
pub mod Broadcast
pub mod Cleanup
pub mod Isolation
pub mod Registry
pub mod Lookups
pub mod Moves
pub mod Refinement
pub mod Alike
pub mod Order
pub mod Viewers
pub mod Delivery
pub mod Absent
mod Tests
use ioh_robodog_webrtc.Prelude.{
  ℕ, suc, ◌+◌, ◌%◌, ◌^◌, String, Bool, true, false, not, Option, none, some, List, [], ◌∷◌, ◌++◌,
  length, keep, if◌then◌else◌,
}
use ioh_robodog_webrtc.Prelude.Int.{ℤ, pos, leb_ℤ, to_int32}
use ioh_robodog_webrtc.Prelude.Map.{find, insert, erase, update}
use ioh_robodog_webrtc.Prelude.Results.{Result, ok, err, ◌>>=◌}
use ioh_robodog_webrtc.Config.{AppConfig}
use ioh_robodog_webrtc.Peer.{
  Rtc, Peer, Globals, Packet, TrackAnswer, construct, first_globals, is_connected, is_closed,
  send_h264_nal, start_offer as offer_of, handle_answer as answer_of,
  handle_candidate as candidate_of, get_stats as stats_of,
}
use PeerId.{generate_peer_id}

-- `globals` are the static members of `PeerConnection`; `cleaning` says that the cleanup thread is
-- joinable.
pub record Server : Type 0 where
  pub config : AppConfig
  pub peers : List (String × Peer)
  pub cleaning : Bool
  pub running : Bool
  pub globals : Globals

pub record ServerStats : Type 0 where
  pub total_peers : ℕ
  pub connected_peers : ℕ
  pub total_bytes_sent : ℕ

unfoldable pub init : AppConfig → Server
init c = record {
  config = c;
  peers = [];
  cleaning = false;
  running = false;
  globals = first_globals;
}

-- `static_cast<int>(peers_.size()) >= config_.webrtc.max_peers`.
unfoldable pub is_full : Server → Bool
is_full s = leb_ℤ s.config.webrtc.max_peers (to_int32 (pos (length s.peers)))

-- Stores a peer that was made; the result is the peer's name, or the empty text.
unfoldable pub store_peer : String → Result Peer × Globals → Server → String × Server
store_peer id (ok p, g) s = (id, record s { peers = insert id p s.peers; globals = g })
store_peer id (err what, g) s = ("", record s { globals = g })

-- `draw` is the number that the random device gives.
unfoldable pub create_peer : Rtc → ℕ → Option ℕ → Server → String × Server
unfolding is_full store_peer
create_peer rtc draw cb s =
    if is_full s
    then ("", s)
    else (let id = generate_peer_id draw in
        store_peer id (construct rtc id s.config.webrtc cb s.globals) s)

-- A call of a method of the peer with this name, where there is one; it may throw.
unfoldable pub with_peer : String → (Peer → Result Peer) → Server → Result Server
with_peer id f s = elim (find id s.peers) [
  | none ↦ ok s
  | some p ↦ (do q ← f p; ok (record s { peers = update id (λ _. q) s.peers }))
]

unfoldable pub start_offer : Result (Unit {0}) → String → Server → Result Server
unfolding with_peer
start_offer answer id s = with_peer id (offer_of answer) s

unfoldable pub handle_answer : Result (Unit {0}) → String → Server → Result Server
unfolding with_peer
handle_answer answer id s = with_peer id (answer_of answer) s

unfoldable pub handle_candidate : Result (Unit {0}) → String → Server → Result Server
unfolding with_peer
handle_candidate answer id s = with_peer id (λ p. ok (candidate_of answer p)) s

unfoldable pub remove_peer : String → Server → Server
remove_peer id s = elim (find id s.peers) [
  | none ↦ s
  | some p ↦ record s { peers = erase id s.peers }
]

-- One peer of the loop of `broadcast_nal`.
unfoldable pub offer_frame :
    Rtc → TrackAnswer → List ℕ → ℕ → Peer → Globals → Peer × Globals × Option Packet
unfolding is_connected
offer_frame rtc answer bytes ts p g =
    if is_connected p then send_h264_nal rtc answer bytes ts p g else (p, g, none)

-- The loop, with what each track answers; the last part is what each peer's track took.
unfoldable pub broadcast_loop :
    Rtc
    → (String → TrackAnswer)
    → List ℕ
    → ℕ
    → List (String × Peer)
    → Globals
    → List (String × Peer) × Globals × List (String × Option Packet)
unfolding offer_frame
broadcast_loop rtc answers bytes ts [] g = ([], g, [])
broadcast_loop rtc answers bytes ts ((id, p) ∷ ps) g =
    let (q, h, packet) = offer_frame rtc (answers id) bytes ts p g in
    let (qs, k, packets) = broadcast_loop rtc answers bytes ts ps h in
    ((id, q) ∷ qs, k, (id, packet) ∷ packets)

unfoldable pub broadcast_nal :
    Rtc → (String → TrackAnswer) → List ℕ → ℕ → Server → Server × List (String × Option Packet)
unfolding broadcast_loop
broadcast_nal rtc answers bytes ts s =
    let (peers, g, packets) = broadcast_loop rtc answers bytes ts s.peers s.globals in
    (record s { peers = peers; globals = g }, packets)

-- Assigning a thread over one that is joinable ends the process: `none`.
unfoldable pub start : Server → Option Server
start s = if s.cleaning then none else some (record s { running = true; cleaning = true })

unfoldable pub stop : Server → Server
stop s = record s { running = false; cleaning = false; peers = [] }

unfoldable pub peer_count : Server → ℕ
peer_count s = length s.peers

-- One peer of the loop of `get_stats`.
unfoldable pub count_peer : Peer → ServerStats → ServerStats
unfolding is_connected stats_of
count_peer p t = record t {
  connected_peers = if is_connected p then t.connected_peers + 1 else t.connected_peers;
  total_bytes_sent = (t.total_bytes_sent + (stats_of p).bytes_sent) % 2 ^ 64;
}

unfoldable pub add_stats : ServerStats → List (String × Peer) → ServerStats
unfolding count_peer
add_stats t [] = t
add_stats t ((id, p) ∷ ps) = add_stats (count_peer p t) ps

unfoldable pub get_stats : Server → ServerStats
unfolding add_stats
get_stats s =
    add_stats (record { total_peers = length s.peers; connected_peers = 0; total_bytes_sent = 0 })
      s.peers

-- The pass of `cleanup_loop` over the peers.
unfoldable pub cleanup_pass : List (String × Peer) → List (String × Peer)
unfolding is_closed
cleanup_pass ps = keep (λ e. not (is_closed e.1)) ps

-- `cleanup_loop`: the list gives what `running_` reads at each test of the outer loop.
unfoldable pub cleanup_loop : List Bool → Server → Server
unfolding cleanup_pass
cleanup_loop [] s = s
cleanup_loop (false ∷ later) s = s
cleanup_loop (true ∷ later) s = cleanup_loop later (record s { peers = cleanup_pass s.peers })
