-- ===== src/WebRtc/Delivery.antt =====
-- A client of src/webrtc_server.cpp that `create_peer` lets in, whose connection comes up, and to
-- which `broadcast_nal` hands a frame.
use mathlib.Core.Option
use native.Mathlib.Omega.{arith}
use ioh_robodog_webrtc.Prelude.{
  ℕ, ◌≡◌, refl, sym, ap, ◌∙◌, String, true, false, Option, some, List, text_eq_iff, if_taken, inl,
  inr,
}
use ioh_robodog_webrtc.Prelude.Map.{find}
use ioh_robodog_webrtc.Prelude.Results.{ok}
use ioh_robodog_webrtc.Peer.{
  Rtc, Peer, RtcState, TrackAnswer, on_state_change, is_up, is_final, deliver, is_sendable,
  fresh_peer,
}
use ioh_robodog_webrtc.WebRtc.{Server, is_full, create_peer, broadcast_nal}
use ioh_robodog_webrtc.WebRtc.PeerId.{generate_peer_id}
use ioh_robodog_webrtc.WebRtc.Ops.{state_changes, step}
use ioh_robodog_webrtc.WebRtc.Create.{admission, create_peer-cases}
use ioh_robodog_webrtc.WebRtc.Broadcast.{frame_for, broadcast_stamp, broadcast_nal-map}
use ioh_robodog_webrtc.WebRtc.Lookups.{find-update_at, find-packet_for}
use mathlib.Core.Bool.{true≢false}
use ioh_robodog_webrtc.WebRtc.Viewers.{IsUp, IsWatching}

frame_for-taken :
    (taken : String → TrackAnswer) (bytes : List ℕ) (stamp : ℕ) (id : String) (p : Peer)
    → (taken id).is_open ≡ true
    → (taken id).send ≡ ok tt
    → IsUp true p
    → (frame_for taken bytes stamp (id, p)).1 ≡ some (record { timestamp = stamp; bytes = bytes })
unfolding deliver is_sendable
frame_for-taken taken bytes stamp id p opened sent up = rw (opened, sent, up.0, up.1) refl

-- A broadcast reaches who is watching and has an open track.
pub broadcast_nal-found :
    (rtc : Rtc) (taken : String → TrackAnswer) (bytes : List ℕ) (ts : ℕ) (s : Server) (id : String)
    → (taken id).is_open ≡ true
    → (taken id).send ≡ ok tt
    → IsWatching true s.peers id
    → find id (broadcast_nal rtc taken bytes ts s).1
      ≡ some (
          some (record { timestamp = broadcast_stamp rtc taken bytes ts s.globals; bytes = bytes }))
broadcast_nal-found rtc taken bytes ts s id opened sent (p, found, up) =
    let stamp = broadcast_stamp rtc taken bytes ts s.globals in
    ap (find id) (broadcast_nal-map rtc taken bytes ts s).1
    ∙ find-packet_for taken bytes stamp id s.peers
    ∙ ap (Option.map (λ q. (frame_for taken bytes stamp (id, q)).1)) found
    ∙ ap some (frame_for-taken taken bytes stamp id p opened sent up)

-- Who is let in waits for its connection, under the name that it is given.
pub creates-IsWatching :
    (rtc : Rtc) (draw : ℕ) (cb : Option ℕ) (s : Server)
    → is_full s ≡ false
    → admission rtc s ≡ ok tt
    → IsWatching false (create_peer rtc draw cb s).1.peers (generate_peer_id draw)
unfolding fresh_peer
creates-IsWatching rtc draw cb s free ready = elim (create_peer-cases rtc draw cb s) [
  | inl (full, r) ↦ absurd (true≢false (sym full ∙ free))
  | inr (inl (f, (w, e), r)) ↦ absurd (ground (arith, ready, e))
  | inr (inr (f, r, (name, stored, found))) ↦ (
    fresh_peer rtc (create_peer rtc draw cb s).0 s.config.webrtc cb s.globals.next_ssrc,
    found (generate_peer_id draw)
        ∙ if_taken _ _ ((text_eq_iff (create_peer rtc draw cb s).0 (generate_peer_id draw)).1 name),
    (refl, refl, refl),
  )
]

-- Its connection comes up.
pub connects-IsWatching :
    (rtc : Rtc) (s : Server) (id : String)
    → IsWatching false s.peers id
    → IsWatching true (step rtc (state_changes id RtcState.connected) s).peers id
unfolding step on_state_change is_up is_final
connects-IsWatching rtc s id (p, found, up) = (
  on_state_change RtcState.connected p,
  find-update_at id id (on_state_change RtcState.connected) s.peers
      ∙ if_taken _ _ ((text_eq_iff id id).1 refl)
      ∙ ap (Option.map (on_state_change RtcState.connected)) found,
  (refl, up.1, up.2),
)
