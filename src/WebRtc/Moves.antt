-- ===== src/WebRtc/Moves.antt =====
-- The operations of src/webrtc_server.cpp as moves of the registry.
use ioh_robodog_webrtc.Prelude.{
  ℕ, ◌<◌, ◌≡◌, refl, sym, ap, ◌∙◌, arith, String, true, false, Option, some, List, [], ◌∷◌, length,
  length-map, subst, Bool-cases, Option-cases, inl, inr, ◌↔◌, text_eq, if◌then◌else◌,
}
use ioh_robodog_webrtc.Prelude.Int.{pos, ◌≤ℤ◌, IsInt32}
use ioh_robodog_webrtc.Prelude.Map.{find, update}
use ioh_robodog_webrtc.Prelude.Results.{Result, ok, err, Result-cases}
use ioh_robodog_webrtc.Config.{AppConfig}
use ioh_robodog_webrtc.Peer.{Rtc, Peer, TrackAnswer, setup_connection, fresh_peer}
use ioh_robodog_webrtc.WebRtc.PeerId.{generate_peer_id}
use ioh_robodog_webrtc.WebRtc.{
  Server, is_full, with_peer, create_peer, remove_peer, broadcast_nal, cleanup_loop, start,
}
use ioh_robodog_webrtc.WebRtc.Ops.{Op, creates, broadcasts, cleans, starts, settled, started}
use ioh_robodog_webrtc.WebRtc.Idents.{ident}
use ioh_robodog_webrtc.WebRtc.Invariant.{IsConsistent}
use ioh_robodog_webrtc.WebRtc.Create.{create_peer-cases, is_full_iff}
use ioh_robodog_webrtc.WebRtc.Broadcast.{broadcast_nal-map, broadcast_stamp}
use ioh_robodog_webrtc.WebRtc.Cleanup.{cleanup_loop-find}
use ioh_robodog_webrtc.WebRtc.Lookups.{
  find-update_at, find-with_peer, find-peer_after, names, names-Apart, names-find, unnamed-find,
  idents-Distinct, found-ident,
}
use ioh_robodog_webrtc.WebRtc.Registry.{
  Registry, attempted, method, IsFull, HasRoom, IsUnused, Moves, refuses_full, refuses_failed,
  admits, calls, delivers, sweeps, rests, runs,
}

-- What a client can tell of a server.
abbrev pub registry : Server → Registry
registry s = record { peer = λ id. find id s.peers; running = s.running }

-- The cleanup thread is joinable exactly while the server runs.
abbrev pub IsPaired : Server → Type 0
IsPaired s = s.cleaning ≡ s.running

pub with_peer-flags :
    (id : String) (f : Peer → Result Peer) (s : Server)
    → let t = settled s (with_peer id f s) in (t.running ≡ s.running) × (t.cleaning ≡ s.cleaning)
unfolding with_peer
with_peer-flags id f s = elim (Option-cases (find id s.peers)) [
  | inl e ↦ rw (e, with_peer) (refl, refl)
  | inr (p, e) ↦ elim (Result-cases (f p)) [
    | inl (q, d) ↦ rw (e, with_peer) (rw d (refl, refl))
    | inr (w, d) ↦ rw (e, with_peer) (rw d (refl, refl))
  ]
]

pub create_peer-flags :
    (rtc : Rtc) (draw : ℕ) (cb : Option ℕ) (s : Server)
    → let t = (create_peer rtc draw cb s).1 in (t.running ≡ s.running) × (t.cleaning ≡ s.cleaning)
unfolding create_peer
create_peer-flags rtc draw cb s = ground arith

-- A server that is consistent has fewer than 2 ^ 31 peers, so `is_full` is exact.
full_iff :
    (c : AppConfig) (s : Server)
    → IsInt32 c.webrtc.max_peers
    → IsConsistent c s
    → (is_full s ≡ true) ↔ (c.webrtc.max_peers ≤ℤ pos (length s.peers))
full_iff c s i k =
    subst (λ d. (is_full s ≡ true) ↔ (d.webrtc.max_peers ≤ℤ pos (length s.peers))) k.serves
      (is_full_iff s (omega (arith, length-map ident s.peers, k.in_order.bounded)))

capacity-IsFull :
    (c : AppConfig) (s : Server)
    → IsInt32 c.webrtc.max_peers
    → IsConsistent c s
    → is_full s ≡ true
    → IsFull c.webrtc.max_peers (registry s)
capacity-IsFull c s i k full = (
  names s.peers,
  names-Apart s.peers k.in_order.names,
  names-find s.peers,
  rw (length-map (λ e. e.0) s.peers) ((full_iff c s i k).0 full),
)

capacity-HasRoom :
    (c : AppConfig) (s : Server)
    → IsInt32 c.webrtc.max_peers
    → IsConsistent c s
    → is_full s ≡ false
    → HasRoom c.webrtc.max_peers (registry s)
capacity-HasRoom c s i k free = (
  names s.peers,
  λ id. unnamed-find id s.peers,
  rw (length-map (λ e. e.0) s.peers) (λ le. ground (arith, (full_iff c s i k).1 le)),
)

next-IsUnused :
    (c : AppConfig) (s : Server) → IsConsistent c s → IsUnused s.globals.next_ssrc (registry s)
next-IsUnused c s k id p found =
    let below =
      found-ident (λ i. i.ssrc < s.globals.next_ssrc) id p s.peers k.in_order.below found in
    λ e. omega arith

pub create_peer-Moves :
    (rtc : Rtc) (c : AppConfig) (draw : ℕ) (cb : Option ℕ) (s : Server)
    → IsInt32 c.webrtc.max_peers
    → IsConsistent c s
    → Moves rtc c (registry s) (registry (create_peer rtc draw cb s).1) (creates draw cb)
create_peer-Moves rtc c draw cb s i k =
    let (running, cleaning) = create_peer-flags rtc draw cb s in
    let ssrc = s.globals.next_ssrc in
    let answer = (λ (d : AppConfig). rtc.make_connection (setup_connection rtc d.webrtc ssrc)) in
    elim (create_peer-cases rtc draw cb s) [
      | inl (full, (name, kept)) ↦
          refuses_full (capacity-IsFull c s i k full) (λ id. ap (find id) kept) running
      | inr (inl (free, (what, refused), (name, kept))) ↦
          refuses_failed ssrc what (subst (λ d. answer d ≡ err what) k.serves refused)
            (λ id. ap (find id) kept) running
      | inr (inr (free, ready, (name, stored, found))) ↦
          admits ssrc (capacity-HasRoom c s i k free) (next-IsUnused c s k)
            (subst (λ d. answer d ≡ ok tt) k.serves ready) (λ id. found id ∙ renamed id name)
            running
    ]
  where
    renamed :
        {name : String} (id : String)
        → name ≡ generate_peer_id draw
        → (if text_eq name id
            then some (fresh_peer rtc name s.config.webrtc cb s.globals.next_ssrc)
            else find id s.peers)
          ≡ (if text_eq (generate_peer_id draw) id
              then some (fresh_peer rtc (generate_peer_id draw) c.webrtc cb s.globals.next_ssrc)
              else find id s.peers)
    renamed id e = rw (e, k.serves) refl

-- An operation that calls a method of one peer.
pub with_peer-Moves :
    (rtc : Rtc) (c : AppConfig) (o : Op) (id : String) (f : Peer → Result Peer) (s : Server)
    → method o ≡ some (id, attempted f)
    → Moves rtc c (registry s) (registry (settled s (with_peer id f s))) o
with_peer-Moves rtc c o id f s m =
    calls id (attempted f) m (λ j. find-with_peer id j f s) (with_peer-flags id f s).0

pub update-Moves :
    (rtc : Rtc) (c : AppConfig) (o : Op) (id : String) (f : Peer → Peer) (s : Server)
    → method o ≡ some (id, f)
    → Moves rtc c (registry s) (registry (record s { peers = update id f s.peers })) o
update-Moves rtc c o id f s m = calls id f m (λ j. find-update_at id j f s.peers) refl

pub remove_peer-flags :
    (id : String) (s : Server)
    → ((remove_peer id s).running ≡ s.running) × ((remove_peer id s).cleaning ≡ s.cleaning)
unfolding remove_peer
remove_peer-flags id s = ground arith

pub broadcast-Moves :
    (rtc : Rtc) (c : AppConfig) (taken : String → TrackAnswer) (bytes : List ℕ) (ts : ℕ)
    (s : Server)
    → Moves rtc c
        (registry s)
        (registry (broadcast_nal rtc taken bytes ts s).0)
        (broadcasts taken bytes ts)
broadcast-Moves rtc c taken bytes ts s =
    let stamp = broadcast_stamp rtc taken bytes ts s.globals in
    delivers stamp
      (λ j.
        ap (find j) (broadcast_nal-map rtc taken bytes ts s).0
        ∙ find-peer_after taken bytes stamp j s.peers)
      (unfold broadcast_nal in refl)

pub cleanup-Moves :
    (rtc : Rtc) (c : AppConfig) (s : Server)
    → IsConsistent c s
    → Moves rtc c (registry s) (registry (cleanup_loop (s.running ∷ []) s)) cleans
cleanup-Moves rtc c s k = elim (Bool-cases s.running) [
  | inl on ↦
      subst (λ b. Moves rtc c (registry s) (registry (cleanup_loop (b ∷ []) s)) cleans) (sym on)
        (sweeps on (cleanup_loop-find s (idents-Distinct s.peers k.in_order.names)).1
          (unfold cleanup_loop in on))
  | inr off ↦
      subst (λ b. Moves rtc c (registry s) (registry (cleanup_loop (b ∷ []) s)) cleans) (sym off)
        (unfold cleanup_loop in rests off (λ j. refl) off)
]

pub start-Moves :
    (rtc : Rtc) (c : AppConfig) (s : Server)
    → IsPaired s
    → Moves rtc c (registry s) (registry (started s (start s))) starts
unfolding start
start-Moves rtc c s p = elim (Bool-cases s.cleaning) [
  | inl on ↦ rw (on, start) (runs (λ j. refl) (sym p ∙ on))
  | inr off ↦ rw (off, start) (runs (λ j. refl) refl)
]
