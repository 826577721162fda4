-- ===== src/WebRtc/Broadcast.antt =====
-- `broadcast_nal` of src/webrtc_server.cpp and its specification, peer by peer.
use mathlib.Core.List.{Perm}
use mathlib.Core.List.Perm
use ioh_robodog_webrtc.Prelude.{
  ℕ, ◌≡◌, refl, ap, ap₂, ◌∙◌, arith, String, Option, none, some, List, [], ◌∷◌, map, if◌then◌else◌,
  ◌&&◌, ◌==◌, ◌+◌, ◌-◌, ◌*◌, ◌/◌, ◌%◌, ◌^◌, length,
}
use ioh_robodog_webrtc.Prelude.Results.{ok, err}
use ioh_robodog_webrtc.Peer.{
  Rtc, Peer, Globals, Packet, TrackAnswer, claim_start, rtp_time, deliver, is_sendable,
  send_h264_nal, count_packet,
}
use ioh_robodog_webrtc.WebRtc.{Server, offer_frame, broadcast_loop, broadcast_nal}

-- The specification: what becomes of one peer, and what its track takes, at a fixed timestamp.
abbrev pub frame_for : (String → TrackAnswer) → List ℕ → ℕ → String × Peer → Peer × Option Packet
frame_for answers bytes stamp (id, p) =
    if p.connected && p.video_track && (answers id).is_open
    then (elim (answers id).send [
      | ok done ↦ (
        record p {
          rtp_timestamp = some stamp;
          stats = record (p.stats) {
            rtp_packets_sent = (p.stats.rtp_packets_sent + 1) % 2 ^ 64;
            bytes_sent = (p.stats.bytes_sent + length bytes) % 2 ^ 64;
          };
        },
        some (record { timestamp = stamp; bytes = bytes }),
      )
      | err what ↦ (record p { rtp_timestamp = some stamp }, none)
    ])
    else (p, none)

abbrev pub peer_after : (String → TrackAnswer) → List ℕ → ℕ → String × Peer → String × Peer
peer_after answers bytes stamp e = (e.0, (frame_for answers bytes stamp e).0)

abbrev pub packet_for : (String → TrackAnswer) → List ℕ → ℕ → String × Peer → String × Option Packet
packet_for answers bytes stamp e = (e.0, (frame_for answers bytes stamp e).1)

module _ (rtc : Rtc) (answers : String → TrackAnswer) (bytes : List ℕ) (ts : ℕ) where
  -- The timestamp of a broadcast: the microseconds since the origin of the clock, which is the time
  -- of this frame where none is set, at the library's rate.
  abbrev pub broadcast_stamp : Globals → ℕ
  broadcast_stamp g =
      let start = if g.start_time == 0 then ts else g.start_time in
      ((ts + 2 ^ 64 - start) % 2 ^ 64 * rtc.default_clock_rate % 2 ^ 64 / 1000000) % 2 ^ 32

  offer_frame-frame_for :
      (id : String) (p : Peer) (g : Globals)
      → let (q, h, packet) = offer_frame rtc (answers id) bytes ts p g in
        (q ≡ (frame_for answers bytes (broadcast_stamp g) (id, p)).0)
        × (packet ≡ (frame_for answers bytes (broadcast_stamp g) (id, p)).1)
        × (claim_start h.start_time ts ≡ claim_start g.start_time ts)
  unfolding offer_frame send_h264_nal is_sendable claim_start rtp_time deliver count_packet
  offer_frame-frame_for id p g = ground arith

  -- The stamp depends on the clock by its claimed value only.
  stamp_same :
      (g h : Globals)
      → claim_start h.start_time ts ≡ claim_start g.start_time ts
      → broadcast_stamp h ≡ broadcast_stamp g
  unfolding claim_start rtp_time
  stamp_same g h e = ap (rtp_time rtc.default_clock_rate ts) e

  broadcast_loop-map :
      (ps : List (String × Peer)) (g : Globals)
      → ((broadcast_loop rtc answers bytes ts ps g).0
          ≡ map (peer_after answers bytes (broadcast_stamp g)) ps)
        × ((broadcast_loop rtc answers bytes ts ps g).2
            ≡ map (packet_for answers bytes (broadcast_stamp g)) ps)
  unfolding broadcast_loop
  broadcast_loop-map [] g = (refl, refl)
  broadcast_loop-map ((id, p) ∷ ps) g =
      let (e, f, c) = offer_frame-frame_for id p g in
      let h = (offer_frame rtc (answers id) bytes ts p g).1 in
      let (es, fs) = broadcast_loop-map ps h in
      let same : broadcast_stamp h ≡ broadcast_stamp g = stamp_same g h c in
      (
        ap₂ ◌∷◌ (ap (λ q. (id, q)) e) (es ∙ ap (λ t. map (peer_after answers bytes t) ps) same),
        ap₂ ◌∷◌ (ap (λ q. (id, q)) f) (fs ∙ ap (λ t. map (packet_for answers bytes t) ps) same),
      )

-- A broadcast hands every peer that is connected, and whose track is open, the same bytes under the
-- same timestamp, counts them where the track takes them, and leaves every other peer alone.
pub broadcast_nal-map :
    (rtc : Rtc) (answers : String → TrackAnswer) (bytes : List ℕ) (ts : ℕ) (s : Server)
    → let (t, packets) = broadcast_nal rtc answers bytes ts s in
      let stamp = broadcast_stamp rtc answers bytes ts s.globals in
      (t.peers ≡ map (peer_after answers bytes stamp) s.peers)
      × (packets ≡ map (packet_for answers bytes stamp) s.peers)
unfolding broadcast_nal
broadcast_nal-map rtc answers bytes ts s = broadcast_loop-map rtc answers bytes ts s.peers s.globals

-- The order in which the map is walked does not matter: over a rearrangement of the peers a
-- broadcast leaves the rearranged peers and sends the rearranged packets.
pub broadcast_nal-Perm :
    (rtc : Rtc) (answers : String → TrackAnswer) (bytes : List ℕ) (ts : ℕ) (s t : Server)
    → Perm s.peers t.peers
    → s.globals ≡ t.globals
    → Perm
        (broadcast_nal rtc answers bytes ts s).0.peers
        (broadcast_nal rtc answers bytes ts t).0.peers
      × Perm (broadcast_nal rtc answers bytes ts s).1 (broadcast_nal rtc answers bytes ts t).1
broadcast_nal-Perm rtc answers bytes ts s t same g =
    let (e, f) = broadcast_nal-map rtc answers bytes ts s in
    let (e', f') = broadcast_nal-map rtc answers bytes ts t in
    (rw (e, e', g) (Perm.map _ same), rw (f, f', g) (Perm.map _ same))
