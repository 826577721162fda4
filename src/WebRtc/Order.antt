-- ===== src/WebRtc/Order.antt =====
-- src/webrtc_server.cpp keeps its peers in an unordered map: what the order of its entries does.
use native.Mathlib.Omega.{arith}
use ioh_robodog_webrtc.Prelude.{
  ℕ, ◌≡◌, refl, sym, ap, ap₂, ◌∙◌, subst, String, Bool, true, false, ◌||◌, Option, List, [], ◌∷◌,
  map, if◌then◌else◌, inl, inr,
}
use ioh_robodog_webrtc.Prelude.Map.{Distinct}
use ioh_robodog_webrtc.Prelude.Orders.{
  Reorders, empty, under, swap, both, Reorders-map, Reorders-update,
}
use ioh_robodog_webrtc.Prelude.Results.{ok}
use ioh_robodog_webrtc.Peer.{
  Rtc, Peer, Globals, TrackAnswer, claim_start, is_sendable, is_connected, send_h264_nal,
  on_state_change, on_track_open, start_offer as offer_of, handle_answer as answer_of,
  handle_candidate as candidate_of,
}
use ioh_robodog_webrtc.WebRtc.{
  Server, create_peer, start_offer, handle_answer, handle_candidate, offer_frame, broadcast_loop,
  broadcast_nal, cleanup_loop, stop,
}
use ioh_robodog_webrtc.WebRtc.Broadcast.{broadcast_nal-map}
use ioh_robodog_webrtc.Prelude.Thins.{Apart, Thins-Apart}
use ioh_robodog_webrtc.WebRtc.Idents.{ident, idents, step-idents}
use ioh_robodog_webrtc.WebRtc.Kept.{IsCreate-cases}
use ioh_robodog_webrtc.WebRtc.Invariant.{put-names, map-insert}
use ioh_robodog_webrtc.WebRtc.Create.{create_peer-cases}
use ioh_robodog_webrtc.WebRtc.Lookups.{idents-Distinct}
use ioh_robodog_webrtc.WebRtc.Ops.{
  Op, creates, offers, answers, candidates, removes, broadcasts, cleans, state_changes, track_opens,
  starts, stops, step, run,
}
use ioh_robodog_webrtc.WebRtc.Alike.{
  IsAlike, peers-IsAlike, with_peer-IsAlike, remove_peer-IsAlike, create_peer-IsAlike,
  cleanup-IsAlike, start-IsAlike,
}

-- The clock after a broadcast: claimed where some peer can be sent to.
module _ (rtc : Rtc) (taken : String → TrackAnswer) (bytes : List ℕ) (ts : ℕ) where
  abbrev claimed : Globals → Globals
  claimed g = record g { start_time = claim_start g.start_time ts }

  abbrev any_sendable : List (String × Peer) → Bool
  any_sendable [] = false
  any_sendable ((id, p) ∷ ps) = is_sendable (taken id) p || any_sendable ps

  any_sendable-Reorders :
      {ps qs : List (String × Peer)} → Reorders ps qs → any_sendable ps ≡ any_sendable qs
  any_sendable-Reorders empty = refl
  any_sendable-Reorders (under {x = x} r) =
      ap (λ b. is_sendable (taken x.0) x.1 || b) (any_sendable-Reorders r)
  any_sendable-Reorders (swap {x = x} {y = y} {xs = xs}) =
      or_swap (is_sendable (taken x.0) x.1) (is_sendable (taken y.0) y.1) (any_sendable xs)
    where
      or_swap : (a b c : Bool) → (a || (b || c)) ≡ (b || (a || c))
      or_swap true true c = refl
      or_swap true false c = refl
      or_swap false true c = refl
      or_swap false false c = refl
  any_sendable-Reorders (both r q) = any_sendable-Reorders r ∙ any_sendable-Reorders q

  offer_frame-globals :
      (id : String) (p : Peer) (g : Globals)
      → (offer_frame rtc (taken id) bytes ts p g).1
        ≡ (if is_sendable (taken id) p then claimed g else g)
  unfolding offer_frame send_h264_nal is_sendable is_connected
  offer_frame-globals id p g = ground arith

  claimed_idem : (g : Globals) → claimed (claimed g) ≡ claimed g
  unfolding claim_start
  claimed_idem g = ground arith

  broadcast_loop-globals :
      (ps : List (String × Peer)) (g : Globals)
      → (broadcast_loop rtc taken bytes ts ps g).1 ≡ (if any_sendable ps then claimed g else g)
  unfolding broadcast_loop
  broadcast_loop-globals [] g = refl
  broadcast_loop-globals ((id, p) ∷ ps) g =
      broadcast_loop-globals ps (offer_frame rtc (taken id) bytes ts p g).1
      ∙ ap (λ h. if any_sendable ps then claimed h else h) (offer_frame-globals id p g)
      ∙ twice (is_sendable (taken id) p) (any_sendable ps)
    where
      twice :
          (a b : Bool)
          → (if b then claimed (if a then claimed g else g) else (if a then claimed g else g))
            ≡ (if a || b then claimed g else g)
      twice true true = claimed_idem g
      twice true false = refl
      twice false b = refl

  broadcast-peers :
      (s t : Server)
      → IsAlike s t
      → Reorders
          (broadcast_nal rtc taken bytes ts s).0.peers
          (broadcast_nal rtc taken bytes ts t).0.peers
  broadcast-peers s t k =
      let (e, f) = broadcast_nal-map rtc taken bytes ts s in
      let (e', f') = broadcast_nal-map rtc taken bytes ts t in
      rw (e, e', k.globals) (Reorders-map _ k.peers)

  broadcast-IsAlike :
      (s t : Server)
      → IsAlike s t
      → IsAlike (broadcast_nal rtc taken bytes ts s).0 (broadcast_nal rtc taken bytes ts t).0
  unfolding broadcast_nal
  broadcast-IsAlike s t k = record {
    config = k.config;
    cleaning = k.cleaning;
    running = k.running;
    globals =
        broadcast_loop-globals s.peers s.globals
        ∙ ap₂ (λ b g. if b then claimed g else g) (any_sendable-Reorders k.peers) k.globals
        ∙ sym (broadcast_loop-globals t.peers t.globals);
    peers = broadcast-peers s t k;
  }

-- No two peers have the same name, on either side of an operation.
abbrev pub IsNamed : Server → Type 0
IsNamed s = Apart (λ i. i.name) (idents s)

pub create-IsNamed :
    (rtc : Rtc) (draw : ℕ) (cb : Option ℕ) (s : Server)
    → IsNamed s
    → IsNamed (create_peer rtc draw cb s).1
create-IsNamed rtc draw cb s a =
    let kept = λ (m : List (String × Peer)) (e : m ≡ s.peers).
      subst (λ l. Apart (λ i. i.name) (map ident l)) (sym e) a in
    elim (create_peer-cases rtc draw cb s) [
      | inl (full, (name, e)) ↦ kept _ e
      | inr (inl (free, why, (name, e))) ↦ kept _ e
      | inr (inr (free, ready, (name, stored, found))) ↦
          subst (Apart (λ i. i.name)) (sym (ap (map ident) stored ∙ map-insert _ _ s.peers))
            (put-names _ (idents s) a)
    ]

pub step-IsNamed : (rtc : Rtc) (o : Op) (s : Server) → IsNamed s → IsNamed (step rtc o s)
unfolding step
step-IsNamed rtc o s a = elim (IsCreate-cases o) [
  | inl (draw, cb, e) ↦ rw (e, step) (create-IsNamed rtc draw cb s a)
  | inr other ↦ Thins-Apart (λ i. i.name) (step-idents rtc o s other) a
]

step-IsAlike :
    (rtc : Rtc) (o : Op) (s t : Server)
    → IsAlike s t
    → Distinct s.peers
    → IsAlike (step rtc o s) (step rtc o t)
unfolding step start_offer handle_answer handle_candidate stop
step-IsAlike rtc (creates draw cb) s t k d = create_peer-IsAlike s t k d rtc draw cb
step-IsAlike rtc (offers a id) s t k d = with_peer-IsAlike s t k d id (offer_of a)
step-IsAlike rtc (answers a id) s t k d = with_peer-IsAlike s t k d id (answer_of a)
step-IsAlike rtc (candidates a id) s t k d =
    with_peer-IsAlike s t k d id (λ p. ok (candidate_of a p))
step-IsAlike rtc (removes id) s t k d = remove_peer-IsAlike s t k d id
step-IsAlike rtc (broadcasts taken bytes ts) s t k d = broadcast-IsAlike rtc taken bytes ts s t k
step-IsAlike rtc cleans s t k d =
    subst (λ b. IsAlike (cleanup_loop (s.running ∷ []) s) (cleanup_loop (b ∷ []) t)) k.running
      (cleanup-IsAlike s t k d s.running)
step-IsAlike rtc (state_changes id u) s t k d =
    peers-IsAlike s t _ _ k (Reorders-update id (on_state_change u) k.peers d)
step-IsAlike rtc (track_opens id) s t k d =
    peers-IsAlike s t _ _ k (Reorders-update id on_track_open k.peers d)
step-IsAlike rtc starts s t k d = start-IsAlike s t k d
step-IsAlike rtc stops s t k d = record {
  config = k.config;
  cleaning = refl;
  running = refl;
  globals = k.globals;
  peers = empty;
}

-- The order of the map does not matter: the same operations, on two servers that have the same peers
-- under distinct names in any two orders and otherwise are the same, lead to two such servers again.
pub run-IsAlike :
    (rtc : Rtc) (os : List Op) (s t : Server)
    → Apart (λ i. i.name) (idents s)
    → IsAlike s t
    → IsAlike (run rtc os s) (run rtc os t)
unfolding run
run-IsAlike rtc [] s t a k = k
run-IsAlike rtc (o ∷ os) s t a k =
    run-IsAlike rtc os (step rtc o s) (step rtc o t) (step-IsNamed rtc o s a)
      (step-IsAlike rtc o s t k (idents-Distinct s.peers a))
