-- ===== src/WebRtc/Kept.antt =====
-- Configuration and SSRC counter under the operations of src/webrtc_server.cpp.
use ioh_robodog_webrtc.Prelude.{
  ℕ, ◌≡◌, refl, ◌∙◌, arith, String, Bool, true, false, Option, List, [], ◌∷◌, Option-cases, inl,
  inr, ◌⊎◌,
}
use ioh_robodog_webrtc.Prelude.Map.{find}
use ioh_robodog_webrtc.Prelude.Results.{Result, ok, Result-cases}
use ioh_robodog_webrtc.Peer.{
  Rtc, Peer, Globals, TrackAnswer, send_h264_nal, handle_candidate as candidate_of,
}
use ioh_robodog_webrtc.WebRtc.{
  Server, with_peer, start_offer, handle_answer, handle_candidate, remove_peer, broadcast_nal,
  broadcast_loop, offer_frame, cleanup_loop, cleanup_pass, start, stop,
}
use ioh_robodog_webrtc.WebRtc.Ops.{
  Op, creates, offers, answers, candidates, removes, broadcasts, cleans, state_changes, track_opens,
  starts, stops, settled, step,
}
use ioh_robodog_webrtc.WebRtc.Idents.{IsCreate}

pub IsCreate-cases :
    (o : Op) → ((draw : ℕ) × (cb : Option ℕ) × (o ≡ creates draw cb)) ⊎ (¬ IsCreate o)
IsCreate-cases (creates draw cb) = inl (draw, cb, refl)
IsCreate-cases (offers a id) = inr (λ h. h)
IsCreate-cases (answers a id) = inr (λ h. h)
IsCreate-cases (candidates a id) = inr (λ h. h)
IsCreate-cases (removes id) = inr (λ h. h)
IsCreate-cases (broadcasts taken bytes ts) = inr (λ h. h)
IsCreate-cases cleans = inr (λ h. h)
IsCreate-cases (state_changes id t) = inr (λ h. h)
IsCreate-cases (track_opens id) = inr (λ h. h)
IsCreate-cases starts = inr (λ h. h)
IsCreate-cases stops = inr (λ h. h)

abbrev Keeps : Server → Server → Type 0
Keeps s t = (t.config ≡ s.config) × (t.globals.next_ssrc ≡ s.globals.next_ssrc)

with_peer-Keeps :
    (id : String) (f : Peer → Result Peer) (s : Server) → Keeps s (settled s (with_peer id f s))
unfolding with_peer
with_peer-Keeps id f s = elim (Option-cases (find id s.peers)) [
  | inl e ↦ rw (e, with_peer) (refl, refl)
  | inr (p, e) ↦ elim (Result-cases (f p)) [
    | inl (q, d) ↦ rw (e, with_peer) (rw d (refl, refl))
    | inr (w, d) ↦ rw (e, with_peer) (rw d (refl, refl))
  ]
]

offer_frame-next_ssrc :
    (rtc : Rtc) (answer : TrackAnswer) (bytes : List ℕ) (ts : ℕ) (p : Peer) (g : Globals)
    → (offer_frame rtc answer bytes ts p g).1.next_ssrc ≡ g.next_ssrc
unfolding offer_frame send_h264_nal
offer_frame-next_ssrc rtc answer bytes ts p g = ground arith

broadcast_loop-next_ssrc :
    (rtc : Rtc) (taken : String → TrackAnswer) (bytes : List ℕ) (ts : ℕ) (ps : List (String × Peer))
    (g : Globals)
    → (broadcast_loop rtc taken bytes ts ps g).1.next_ssrc ≡ g.next_ssrc
unfolding broadcast_loop
broadcast_loop-next_ssrc rtc taken bytes ts [] g = refl
broadcast_loop-next_ssrc rtc taken bytes ts ((id, p) ∷ ps) g =
    broadcast_loop-next_ssrc rtc taken bytes ts ps _
    ∙ offer_frame-next_ssrc rtc (taken id) bytes ts p g

cleanup_loop-Keeps : (bs : List Bool) (s : Server) → Keeps s (cleanup_loop bs s)
unfolding cleanup_loop
cleanup_loop-Keeps [] s = (refl, refl)
cleanup_loop-Keeps (false ∷ bs) s = (refl, refl)
cleanup_loop-Keeps (true ∷ bs) s = cleanup_loop-Keeps bs (record s { peers = cleanup_pass s.peers })

pub step-Keeps : (rtc : Rtc) (o : Op) (s : Server) → ¬ IsCreate o → Keeps s (step rtc o s)
unfolding step start_offer handle_answer handle_candidate remove_peer broadcast_nal start stop
step-Keeps rtc (creates draw cb) s h = absurd (h tt)
step-Keeps rtc (offers answer id) s h = with_peer-Keeps id _ s
step-Keeps rtc (answers answer id) s h = with_peer-Keeps id _ s
step-Keeps rtc (candidates answer id) s h = with_peer-Keeps id (λ p. ok (candidate_of answer p)) s
step-Keeps rtc (removes id) s h = ground arith
step-Keeps rtc (broadcasts taken bytes ts) s h =
    (refl, broadcast_loop-next_ssrc rtc taken bytes ts s.peers s.globals)
step-Keeps rtc cleans s h = cleanup_loop-Keeps (s.running ∷ []) s
step-Keeps rtc (state_changes id t) s h = (refl, refl)
step-Keeps rtc (track_opens id) s h = (refl, refl)
step-Keeps rtc starts s h = ground arith
step-Keeps rtc stops s h = (refl, refl)
