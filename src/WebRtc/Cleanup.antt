-- ===== src/WebRtc/Cleanup.antt =====
-- The cleanup thread of src/webrtc_server.cpp, and the statistics.
use ioh_robodog_webrtc.Prelude.{
  ℕ, ◌+◌, ◌≤◌, ◌%◌, ◌^◌, ◌≡◌, refl, ◌∙◌, arith, String, true, false, Option, none, some, List, [],
  ◌∷◌, length, if◌then◌else◌, text_eq_iff, All,
}
use ioh_robodog_webrtc.Prelude.Map.{find, Lacks, Distinct}
use ioh_robodog_webrtc.Peer.{Peer, is_connected, is_closed, get_stats as stats_of}
use ioh_robodog_webrtc.WebRtc.{
  Server, ServerStats, cleanup_pass, cleanup_loop, count_peer, add_stats, get_stats, peer_count,
}

-- A peer that the cleanup leaves.
abbrev pub if_open : Option Peer → Option Peer
if_open none = none
if_open (some p) = if is_closed p then none else some p

Lacks-find : (id : String) (m : List (String × Peer)) → Lacks id m → find id m ≡ none
unfolding find
Lacks-find id [] h = refl
Lacks-find id ((j, v) ∷ m) h = ground (arith, text_eq_iff j id, Lacks-find id m h.1)

find-cleanup_pass :
    (id : String) (m : List (String × Peer))
    → Distinct m
    → find id (cleanup_pass m) ≡ if_open (find id m)
unfolding find cleanup_pass
find-cleanup_pass id [] d = refl
find-cleanup_pass id ((j, v) ∷ m) d =
    ground (arith, text_eq_iff j id, find-cleanup_pass id m d.1, Lacks-find j m d.0)

cleanup_pass-open : (m : List (String × Peer)) → All (λ e. is_closed e.1 ≡ false) (cleanup_pass m)
unfolding cleanup_pass
cleanup_pass-open [] = tt
cleanup_pass-open ((j, v) ∷ m) = ground (arith, cleanup_pass-open m)

-- One round of the cleanup removes the closed peers, and only those.
pub cleanup_loop-find :
    (s : Server)
    → Distinct s.peers
    → All (λ e. is_closed e.1 ≡ false) (cleanup_loop (true ∷ []) s).peers
      × ((id : String) → find id (cleanup_loop (true ∷ []) s).peers ≡ if_open (find id s.peers))
unfolding cleanup_loop
cleanup_loop-find s d = (cleanup_pass-open s.peers, λ id. find-cleanup_pass id s.peers d)

-- The specification of the statistics.
abbrev count_connected : List (String × Peer) → ℕ
count_connected [] = 0
count_connected ((id, p) ∷ ps) = (if is_connected p then 1 else 0) + count_connected ps

abbrev sum_bytes : List (String × Peer) → ℕ
sum_bytes [] = 0
sum_bytes ((id, p) ∷ ps) = (stats_of p).bytes_sent + sum_bytes ps

count_peer-sums :
    (p : Peer) (t : ServerStats) (b : ℕ)
    → t.total_bytes_sent ≡ b % 2 ^ 64
    → let u = count_peer p t in
      (u.total_peers ≡ t.total_peers)
      × (u.connected_peers ≡ t.connected_peers + (if is_connected p then 1 else 0))
      × (u.total_bytes_sent ≡ (b + (stats_of p).bytes_sent) % 2 ^ 64)
unfolding count_peer
count_peer-sums p t b h = ground arith

add_stats-sums :
    (t : ServerStats) (ps : List (String × Peer)) (b : ℕ)
    → t.total_bytes_sent ≡ b % 2 ^ 64
    → let u = add_stats t ps in
      (u.total_peers ≡ t.total_peers)
      × (u.connected_peers ≡ t.connected_peers + count_connected ps)
      × (u.total_bytes_sent ≡ (b + sum_bytes ps) % 2 ^ 64)
unfolding add_stats
add_stats-sums t [] b h = (refl, omega arith, omega arith)
add_stats-sums t ((id, p) ∷ ps) b h =
    let one = count_peer-sums p t b h in
    let rest = add_stats-sums (count_peer p t) ps (b + (stats_of p).bytes_sent) one.2 in
    (rest.0 ∙ one.0, omega (arith, rest.1, one.1), omega (arith, rest.2))

count_connected-le : (ps : List (String × Peer)) → count_connected ps ≤ length ps
count_connected-le [] = omega arith
count_connected-le ((id, p) ∷ ps) = ground (arith, count_connected-le ps)

-- The statistics are the number of peers, the number of those that are connected, which is no
-- greater, and the bytes of all of them modulo 2 ^ 64.
get_stats-sums :
    (s : Server)
    → let u = get_stats s in
      (u.total_peers ≡ peer_count s)
      × (u.connected_peers ≡ count_connected s.peers)
      × (u.connected_peers ≤ u.total_peers)
      × (u.total_bytes_sent ≡ sum_bytes s.peers % 2 ^ 64)
unfolding get_stats peer_count
get_stats-sums s =
    let first : ServerStats = record {
      total_peers = length s.peers;
      connected_peers = 0;
      total_bytes_sent = 0;
    } in
    let (a, b, c) = add_stats-sums first s.peers 0 (omega arith) in
    (a, omega (arith, b), omega (arith, a, b, count_connected-le s.peers), omega (arith, c))
