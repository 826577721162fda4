-- ===== src/WebRtc/Viewers.antt =====
-- A client of src/webrtc_server.cpp and what leaves it in its place.
use mathlib.Core.Option
use native.Mathlib.Omega.{arith}
use ioh_robodog_webrtc.Prelude.{
  ℕ, ◌≡◌, ◌≢◌, refl, sym, ap, ◌∙◌, subst, String, Bool, true, false, Option, none, some, List, [],
  ◌∷◌, text_eq, text_eq_iff, if◌then◌else◌, if_taken, if_left, Bool-cases, inl, inr, ◌⊎◌,
}
use ioh_robodog_webrtc.Prelude.Map.{find}
use ioh_robodog_webrtc.Prelude.Thins.{Apart}
use ioh_robodog_webrtc.Prelude.Results.{Result, ok, err, Result-cases}
use ioh_robodog_webrtc.Peer.{
  Rtc, Peer, TrackAnswer, on_state_change, on_track_open, is_closed, is_up, is_final, deliver,
  is_sendable, start_offer as offer_of, handle_answer as answer_of,
  handle_candidate as candidate_of,
}
use ioh_robodog_webrtc.WebRtc.{
  Server, create_peer, cleanup_loop, start, start_offer, handle_answer, handle_candidate,
}
use ioh_robodog_webrtc.WebRtc.PeerId.{generate_peer_id}
use ioh_robodog_webrtc.WebRtc.Ops.{
  Op, creates, offers, answers, candidates, removes, broadcasts, cleans, state_changes, track_opens,
  starts, stops, started, step,
}
use ioh_robodog_webrtc.WebRtc.Idents.{idents}
use ioh_robodog_webrtc.WebRtc.Create.{create_peer-cases}
use ioh_robodog_webrtc.WebRtc.Broadcast.{frame_for, broadcast_stamp, broadcast_nal-map}
use ioh_robodog_webrtc.WebRtc.Cleanup.{cleanup_loop-find, if_open}
use ioh_robodog_webrtc.WebRtc.Lookups.{
  find-update_at, find-with_peer, find-remove_peer, find-peer_after, idents-Distinct, text_ne,
}
use ioh_robodog_webrtc.WebRtc.Registry.{attempted}

-- A peer with its track that is not closed, and whose connection is up where b is true.
abbrev pub IsUp : Bool → Peer → Type 0
IsUp b p = (p.connected ≡ b) × (p.video_track ≡ true) × (p.closed ≡ false)

abbrev pub IsWatching : Bool → List (String × Peer) → String → Type 0
IsWatching b m id = (p : Peer) × (find id m ≡ some p) × IsUp b p

-- What leaves the peer of this name as it is in that: all but its removal, a report that its
-- connection is over, or that it is up or not against b, a new peer under its name, and the stop.
abbrev pub Spares : Bool → String → Op → Type 0
Spares b id (creates draw cb) = generate_peer_id draw ≢ id
Spares b id (removes j) = j ≢ id
Spares b id (state_changes j t) = (j ≢ id) ⊎ ((is_up t ≡ b) × (is_final t ≡ false))
Spares b id stops = ⊥
Spares b id _ = Unit

-- A change at one name, that keeps the peer up if it is at this one.
changed-IsWatching :
    {b : Bool} (m n : List (String × Peer)) (j id : String) (f : Peer → Peer)
    → ((p : Peer) → IsUp b p → IsUp b (f p))
    → find id n ≡ (if text_eq j id then Option.map f (find j m) else find id m)
    → IsWatching b m id
    → IsWatching b n id
changed-IsWatching m n j id f keeps e (p, found, up) = elim (Bool-cases (text_eq j id)) [
  | inl same ↦
      let here : find j m ≡ some p =
        subst (λ k. find k m ≡ some p) (sym ((text_eq_iff j id).0 same)) found in
      (f p, e ∙ if_taken _ _ same ∙ ap (Option.map f) here, keeps p up)
  | inr elsewhere ↦ (p, e ∙ if_left _ _ elsewhere ∙ found, up)
]

attempted-IsUp :
    {b : Bool} (f : Peer → Result Peer)
    → ((p q : Peer) → f p ≡ ok q → IsUp b p → IsUp b q)
    → (p : Peer) → IsUp b p
    → IsUp b (attempted f p)
attempted-IsUp f h p up = elim (Result-cases (f p)) [
  | inl (q, e) ↦ rw (e, attempted) (h p q e up)
  | inr (w, e) ↦ rw (e, attempted) up
]

offer-IsUp :
    {b : Bool} (a : Result (Unit {0})) (p q : Peer) → offer_of a p ≡ ok q → IsUp b p → IsUp b q
unfolding offer_of
offer-IsUp a p q e up = ground arith

answer-IsUp :
    {b : Bool} (a : Result (Unit {0})) (p q : Peer) → answer_of a p ≡ ok q → IsUp b p → IsUp b q
unfolding answer_of
answer-IsUp a p q e up = ground arith

candidate-IsUp :
    {b : Bool} (a : Result (Unit {0})) (p q : Peer)
    → ◌≡◌ {A = Result Peer} (ok (candidate_of a p)) (ok q)
    → IsUp b p
    → IsUp b q
unfolding candidate_of
candidate-IsUp (ok d) p q e up = ground arith
candidate-IsUp (err w) p q e up = ground arith

frame_for-IsUp :
    {b : Bool} (taken : String → TrackAnswer) (bytes : List ℕ) (stamp : ℕ) (id : String) (p : Peer)
    → IsUp b p
    → IsUp b (frame_for taken bytes stamp (id, p)).0
unfolding deliver is_sendable
frame_for-IsUp taken bytes stamp id p up = ground arith

elsewhere-IsWatching :
    {b : Bool} (m n : List (String × Peer)) (j id : String) (new : Option Peer)
    → j ≢ id
    → find id n ≡ (if text_eq j id then new else find id m)
    → IsWatching b m id
    → IsWatching b n id
elsewhere-IsWatching m n j id new ne e (p, found, up) =
    (p, e ∙ if_left _ _ (text_ne j id ne) ∙ found, up)

pub create-IsWatching :
    {b : Bool} (rtc : Rtc) (draw : ℕ) (cb : Option ℕ) (s : Server) (id : String)
    → generate_peer_id draw ≢ id
    → IsWatching b s.peers id
    → IsWatching b (create_peer rtc draw cb s).1.peers id
create-IsWatching {b = b} rtc draw cb s id n w =
    let t = (create_peer rtc draw cb s).1 in
    let kept : t.peers ≡ s.peers → IsWatching b t.peers id =
      λ e. (w.0, ap (find id) e ∙ w.1, w.2) in
    elim (create_peer-cases rtc draw cb s) [
      | inl (full, (name, e)) ↦ kept e
      | inr (inl (free, why, (name, e))) ↦ kept e
      | inr (inr (free, ready, (name, stored, found))) ↦
          elsewhere-IsWatching s.peers t.peers (create_peer rtc draw cb s).0 id _
            (λ e. n (sym name ∙ e)) (found id) w
    ]

cleanup-IsWatching :
    {b : Bool} (on : Bool) (s : Server) (id : String)
    → Apart (λ i. i.name) (idents s)
    → IsWatching b s.peers id
    → IsWatching b (cleanup_loop (on ∷ []) s).peers id
unfolding cleanup_loop is_closed
cleanup-IsWatching false s id a w = w
cleanup-IsWatching true s id a (p, found, up) = (
  p,
  (cleanup_loop-find s (idents-Distinct s.peers a)).1 id ∙ ap if_open found ∙ stays p up.2,
  up,
)
  where
    stays : (q : Peer) → q.closed ≡ false → if_open (some q) ≡ some q
    stays q e = rw e refl

start-IsWatching :
    {b : Bool} (s : Server) (id : String)
    → IsWatching b s.peers id
    → IsWatching b (started s (start s)).peers id
unfolding start
start-IsWatching s id w = elim (Bool-cases s.cleaning) [
  | inl on ↦ rw (on, start) w
  | inr off ↦ rw (off, start) w
]

pub step-IsWatching :
    {b : Bool} (rtc : Rtc) (o : Op) (s : Server) (id : String)
    → Apart (λ i. i.name) (idents s)
    → Spares b id o
    → IsWatching b s.peers id
    → IsWatching b (step rtc o s).peers id
unfolding step start_offer handle_answer handle_candidate
step-IsWatching {b = b} rtc (creates draw cb) s id a n w = create-IsWatching rtc draw cb s id n w
step-IsWatching {b = b} rtc (offers answer j) s id a n w =
    changed-IsWatching s.peers _ j id _ (attempted-IsUp (offer_of answer) (offer-IsUp answer))
      (find-with_peer j id (offer_of answer) s) w
step-IsWatching {b = b} rtc (answers answer j) s id a n w =
    changed-IsWatching s.peers _ j id _ (attempted-IsUp (answer_of answer) (answer-IsUp answer))
      (find-with_peer j id (answer_of answer) s) w
step-IsWatching {b = b} rtc (candidates answer j) s id a n w =
    changed-IsWatching s.peers _ j id _
      (attempted-IsUp (λ p. ok (candidate_of answer p)) (candidate-IsUp answer))
      (find-with_peer j id (λ p. ok (candidate_of answer p)) s) w
step-IsWatching {b = b} rtc (removes j) s id a n w =
    elsewhere-IsWatching s.peers _ j id none n (find-remove_peer j id s) w
step-IsWatching {b = b} rtc (broadcasts taken bytes ts) s id a n (p, found, up) =
    let stamp = broadcast_stamp rtc taken bytes ts s.globals in
    (
      (frame_for taken bytes stamp (id, p)).0,
      ap (find id) (broadcast_nal-map rtc taken bytes ts s).0
          ∙ find-peer_after taken bytes stamp id s.peers
          ∙ ap (Option.map (λ q. (frame_for taken bytes stamp (id, q)).0)) found,
      frame_for-IsUp taken bytes stamp id p up,
    )
step-IsWatching {b = b} rtc cleans s id a n w = cleanup-IsWatching s.running s id a w
step-IsWatching {b = b} rtc (state_changes j t) s id a (inl n) w =
    elsewhere-IsWatching s.peers _ j id _ n (find-update_at j id (on_state_change t) s.peers) w
step-IsWatching {b = b} rtc (state_changes j t) s id a (inr (e, going)) w =
    changed-IsWatching s.peers _ j id (on_state_change t)
      (λ p up. unfold on_state_change in (e, up.1, rw going up.2))
      (find-update_at j id (on_state_change t) s.peers) w
step-IsWatching {b = b} rtc (track_opens j) s id a n w =
    changed-IsWatching s.peers _ j id on_track_open (λ p up. unfold on_track_open in up)
      (find-update_at j id on_track_open s.peers) w
step-IsWatching {b = b} rtc starts s id a n w = start-IsWatching s id w
step-IsWatching {b = b} rtc stops s id a n w = absurd n
