-- ===== src/WebRtc/Idents.antt =====
-- Who the peers of src/webrtc_server.cpp are: name, identifier, SSRC and callback of each entry,
-- and what the operations do to these.
use ioh_robodog_webrtc.Prelude.{
  ℕ, ◌≡◌, refl, ap, ap₂, ◌∙◌, arith, String, Bool, true, false, Option, some, List, [], ◌∷◌, map,
  Option-cases, inl, inr,
}
use ioh_robodog_webrtc.Prelude.Map.{find, erase, update}
use ioh_robodog_webrtc.Prelude.Thins.{
  Thins, done, skip, take_in, Thins-refl, Thins-nil, Thins-trans, Thins-map-keep,
}
use ioh_robodog_webrtc.Prelude.Results.{Result, ok, err, Result-cases}
use ioh_robodog_webrtc.Peer.{
  Rtc, Peer, TrackAnswer, on_state_change, on_track_open, start_offer as offer_of,
  handle_answer as answer_of, handle_candidate as candidate_of, deliver, is_sendable,
}
use ioh_robodog_webrtc.WebRtc.{
  Server, with_peer, start_offer, handle_answer, handle_candidate, remove_peer, cleanup_loop,
  cleanup_pass, start, stop,
}
use ioh_robodog_webrtc.WebRtc.Broadcast.{peer_after, broadcast_nal-map, broadcast_stamp}
use ioh_robodog_webrtc.WebRtc.Ops.{
  Op, creates, offers, answers, candidates, removes, broadcasts, cleans, state_changes, track_opens,
  starts, stops, settled, started, step,
}

pub record Ident : Type 0 where
  pub name : String
  pub peer_id : String
  pub ssrc : ℕ
  pub target : Option ℕ

abbrev pub ident : String × Peer → Ident
ident e = record { name = e.0; peer_id = e.1.peer_id; ssrc = e.1.ssrc; target = e.1.signaling_cb }

abbrev pub idents : Server → List Ident
idents s = map ident s.peers

same : {xs ys : List Ident} → xs ≡ ys → Thins xs ys
same {xs} {ys} e = rw e (Thins-refl ys)

-- A method that keeps a peer's identifier, SSRC and callback.
abbrev IsSamePeer : Peer → Peer → Type 0
IsSamePeer p q = (q.peer_id ≡ p.peer_id) × (q.ssrc ≡ p.ssrc) × (q.signaling_cb ≡ p.signaling_cb)

map-update :
    (id : String) (f : Peer → Peer) (m : List (String × Peer))
    → ((p : Peer) → IsSamePeer p (f p))
    → map ident (update id f m) ≡ map ident m
unfolding update
map-update id f [] h = refl
map-update id f ((j, v) ∷ m) h = ground (arith, h v, map-update id f m h)

map-update_found :
    (id : String) (p q : Peer) (m : List (String × Peer))
    → find id m ≡ some p
    → IsSamePeer p q
    → map ident (update id (λ _. q) m) ≡ map ident m
unfolding update find
map-update_found id p q [] e h = refl
map-update_found id p q ((j, v) ∷ m) e h = ground (arith, map-update_found id p q m)

map-erase : (id : String) (m : List (String × Peer)) → Thins (map ident (erase id m)) (map ident m)
unfolding erase
map-erase id [] = done
map-erase id ((j, v) ∷ m) =
    ground
      (arith, skip {y = ident (j, v)} (map-erase id m), take_in {x = ident (j, v)} (map-erase id m))

with_peer-idents :
    (id : String) (f : Peer → Result Peer) (s : Server)
    → ((p q : Peer) → f p ≡ ok q → IsSamePeer p q)
    → idents (settled s (with_peer id f s)) ≡ idents s
unfolding with_peer
with_peer-idents id f s h = elim (Option-cases (find id s.peers)) [
  | inl e ↦ rw (e, with_peer) refl
  | inr (p, e) ↦ elim (Result-cases (f p)) [
    | inl (q, d) ↦ rw (e, with_peer) (rw d (map-update_found id p q s.peers e (h p q d)))
    | inr (w, d) ↦ rw (e, with_peer) (rw d refl)
  ]
]

frame_for-IsSamePeer :
    (taken : String → TrackAnswer) (bytes : List ℕ) (stamp : ℕ) (e : String × Peer)
    → ident (peer_after taken bytes stamp e) ≡ ident e
unfolding deliver is_sendable
frame_for-IsSamePeer taken bytes stamp (id, p) = ground arith

map-broadcast :
    (taken : String → TrackAnswer) (bytes : List ℕ) (stamp : ℕ) (m : List (String × Peer))
    → map ident (map (peer_after taken bytes stamp) m) ≡ map ident m
map-broadcast taken bytes stamp [] = refl
map-broadcast taken bytes stamp (e ∷ m) =
    ap₂ ◌∷◌ (frame_for-IsSamePeer taken bytes stamp e) (map-broadcast taken bytes stamp m)

cleanup_loop-idents : (bs : List Bool) (s : Server) → Thins (idents (cleanup_loop bs s)) (idents s)
unfolding cleanup_loop
cleanup_loop-idents [] s = Thins-refl _
cleanup_loop-idents (false ∷ bs) s = Thins-refl _
cleanup_loop-idents (true ∷ bs) s =
    Thins-trans (Thins-map-keep ident _ s.peers)
      (cleanup_loop-idents bs (record s { peers = cleanup_pass s.peers }))

abbrev pub IsCreate : Op → Type 0
IsCreate (creates draw cb) = Unit
IsCreate _ = ⊥

offer-IsSamePeer :
    (answer : Result (Unit {0})) (p q : Peer) → offer_of answer p ≡ ok q → IsSamePeer p q
unfolding offer_of
offer-IsSamePeer answer p q e = ground arith

answer-IsSamePeer :
    (answer : Result (Unit {0})) (p q : Peer) → answer_of answer p ≡ ok q → IsSamePeer p q
unfolding answer_of
answer-IsSamePeer answer p q e = ground arith

candidate-IsSamePeer :
    (answer : Result (Unit {0})) (p q : Peer)
    → ◌≡◌ {A = Result Peer} (ok (candidate_of answer p)) (ok q)
    → IsSamePeer p q
unfolding candidate_of
candidate-IsSamePeer (ok d) p q e = ground arith
candidate-IsSamePeer (err w) p q e = ground arith

remove_peer-idents : (id : String) (s : Server) → Thins (idents (remove_peer id s)) (idents s)
unfolding remove_peer
remove_peer-idents id s = elim (Option-cases (find id s.peers)) [
  | inl e ↦ rw (e, remove_peer) (Thins-refl _)
  | inr (p, e) ↦ rw (e, remove_peer) (map-erase id s.peers)
]

start-idents : (s : Server) → idents (started s (start s)) ≡ idents s
unfolding start
start-idents s = ground arith

-- Every operation but `create_peer` keeps the peers' identities, or drops some.
pub step-idents :
    (rtc : Rtc) (o : Op) (s : Server) → ¬ IsCreate o → Thins (idents (step rtc o s)) (idents s)
unfolding step start_offer handle_answer handle_candidate stop
step-idents rtc (creates draw cb) s h = absurd (h tt)
step-idents rtc (offers answer id) s h =
    same (with_peer-idents id (offer_of answer) s (offer-IsSamePeer answer))
step-idents rtc (answers answer id) s h =
    same (with_peer-idents id (answer_of answer) s (answer-IsSamePeer answer))
step-idents rtc (candidates answer id) s h =
    same (with_peer-idents id (λ p. ok (candidate_of answer p)) s (candidate-IsSamePeer answer))
step-idents rtc (removes id) s h = remove_peer-idents id s
step-idents rtc (broadcasts taken bytes ts) s h = same (
    ap (map ident) (broadcast_nal-map rtc taken bytes ts s).0
    ∙ map-broadcast taken bytes (broadcast_stamp rtc taken bytes ts s.globals) s.peers)
step-idents rtc cleans s h = cleanup_loop-idents (s.running ∷ []) s
step-idents rtc (state_changes id t) s h =
    same (
      map-update id (on_state_change t) s.peers (λ p. unfold on_state_change in (refl, refl, refl)))
step-idents rtc (track_opens id) s h =
    same (map-update id on_track_open s.peers (λ p. unfold on_track_open in (refl, refl, refl)))
step-idents rtc starts s h = same (start-idents s)
step-idents rtc stops s h = Thins-nil _
