-- ===== src/WebRtc/Absent.antt =====
-- A name of src/webrtc_server.cpp under which there is no peer stays without one, and without
-- frames, until `create_peer` draws it.
use mathlib.Core.Bool.{true≢false}
use mathlib.Core.Option
use ioh_robodog_webrtc.Prelude.{
  ℕ, ◌≡◌, ◌≢◌, refl, sym, ap, ◌∙◌, String, Bool, true, false, Option, none, some, List, [], ◌∷◌,
  text_eq, text_eq_iff, if_left, Bool-cases, inl, inr,
}
use ioh_robodog_webrtc.Prelude.Map.{find}
use ioh_robodog_webrtc.Peer.{Rtc, TrackAnswer}
use ioh_robodog_webrtc.WebRtc.{Server, create_peer, broadcast_nal, cleanup_loop, start, stop}
use ioh_robodog_webrtc.WebRtc.PeerId.{generate_peer_id}
use ioh_robodog_webrtc.WebRtc.Ops.{
  Op, creates, offers, answers, candidates, removes, broadcasts, cleans, state_changes, track_opens,
  starts, stops, started, step,
}
use ioh_robodog_webrtc.WebRtc.Create.{create_peer-cases}
use ioh_robodog_webrtc.WebRtc.Broadcast.{frame_for, broadcast_stamp, broadcast_nal-map}
use ioh_robodog_webrtc.WebRtc.Cleanup.{cleanup_loop-find, if_open}
use ioh_robodog_webrtc.WebRtc.Lookups.{find-peer_after, find-packet_for, idents-Distinct, text_ne}
use ioh_robodog_webrtc.WebRtc.Isolation.{target, step-other, step-missing}
use ioh_robodog_webrtc.WebRtc.Order.{IsNamed}

abbrev pub Lacks : Server → String → Type 0
Lacks s id = find id s.peers ≡ none

-- An operation that does not make a peer of this name.
abbrev pub Avoids : String → Op → Type 0
Avoids id (creates draw cb) = generate_peer_id draw ≢ id
Avoids id _ = Unit

pub create_peer-Lacks :
    (rtc : Rtc) (draw : ℕ) (cb : Option ℕ) (s : Server) (id : String)
    → generate_peer_id draw ≢ id
    → Lacks s id
    → Lacks (create_peer rtc draw cb s).1 id
create_peer-Lacks rtc draw cb s id n l = elim (create_peer-cases rtc draw cb s) [
  | inl (full, (name, e)) ↦ ap (find id) e ∙ l
  | inr (inl (free, why, (name, e))) ↦ ap (find id) e ∙ l
  | inr (inr (free, ready, (name, stored, found))) ↦
      found id ∙ if_left _ _ (text_ne _ id (λ e. n (sym name ∙ e))) ∙ l
]

pub named-Lacks :
    (rtc : Rtc) (o : Op) (s : Server) (k id : String)
    → target o ≡ some k
    → Lacks s id
    → Lacks (step rtc o s) id
named-Lacks rtc o s k id e l = elim (Bool-cases (text_eq k id)) [
  | inl same ↦
      let at : target o ≡ some id = e ∙ ap some ((text_eq_iff k id).0 same) in
      ap (λ t. find id t.peers) (step-missing rtc o s id at l) ∙ l
  | inr differs ↦
      step-other rtc o s k id e (λ d. true≢false (sym ((text_eq_iff k id).1 d) ∙ differs)) ∙ l
]

cleanup-Lacks :
    (on : Bool) (s : Server) (id : String)
    → IsNamed s
    → Lacks s id
    → Lacks (cleanup_loop (on ∷ []) s) id
unfolding cleanup_loop
cleanup-Lacks false s id a l = l
cleanup-Lacks true s id a l = (cleanup_loop-find s (idents-Distinct s.peers a)).1 id ∙ ap if_open l

start-Lacks : (s : Server) (id : String) → Lacks s id → Lacks (started s (start s)) id
unfolding start
start-Lacks s id l = elim (Bool-cases s.cleaning) [
  | inl on ↦ rw (on, start) l
  | inr off ↦ rw (off, start) l
]

pub step-Lacks :
    (rtc : Rtc) (o : Op) (s : Server) (id : String)
    → IsNamed s
    → Avoids id o
    → Lacks s id
    → Lacks (step rtc o s) id
unfolding step find stop
step-Lacks rtc (creates draw cb) s id a n l = create_peer-Lacks rtc draw cb s id n l
step-Lacks rtc (offers x k) s id a n l = named-Lacks rtc (offers x k) s k id refl l
step-Lacks rtc (answers x k) s id a n l = named-Lacks rtc (answers x k) s k id refl l
step-Lacks rtc (candidates x k) s id a n l = named-Lacks rtc (candidates x k) s k id refl l
step-Lacks rtc (removes k) s id a n l = named-Lacks rtc (removes k) s k id refl l
step-Lacks rtc (broadcasts taken bytes ts) s id a n l =
    let stamp = broadcast_stamp rtc taken bytes ts s.globals in
    ap (find id) (broadcast_nal-map rtc taken bytes ts s).0
    ∙ find-peer_after taken bytes stamp id s.peers
    ∙ ap (Option.map (λ p. (frame_for taken bytes stamp (id, p)).0)) l
step-Lacks rtc cleans s id a n l = cleanup-Lacks s.running s id a l
step-Lacks rtc (state_changes k t) s id a n l = named-Lacks rtc (state_changes k t) s k id refl l
step-Lacks rtc (track_opens k) s id a n l = named-Lacks rtc (track_opens k) s k id refl l
step-Lacks rtc starts s id a n l = start-Lacks s id l
step-Lacks rtc stops s id a n l = refl

-- Who is not there is handed nothing.
pub broadcast_nal-Lacks :
    (rtc : Rtc) (taken : String → TrackAnswer) (bytes : List ℕ) (ts : ℕ) (s : Server) (id : String)
    → Lacks s id
    → find id (broadcast_nal rtc taken bytes ts s).1 ≡ none
broadcast_nal-Lacks rtc taken bytes ts s id l =
    let stamp = broadcast_stamp rtc taken bytes ts s.globals in
    ap (find id) (broadcast_nal-map rtc taken bytes ts s).1
    ∙ find-packet_for taken bytes stamp id s.peers
    ∙ ap (Option.map (λ p. (frame_for taken bytes stamp (id, p)).1)) l
