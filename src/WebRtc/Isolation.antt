-- ===== src/WebRtc/Isolation.antt =====
-- The operations of src/webrtc_server.cpp that name a peer, and the other peers.
use mathlib.Core.Option.{some-injective}
use ioh_robodog_webrtc.Prelude.{
  ◌≡◌, ◌≢◌, refl, ap, arith, String, Option, none, some, List, [], ◌∷◌, text_eq_iff, Option-cases,
  subst, inl, inr,
}
use ioh_robodog_webrtc.Prelude.Map.{find, update, find-erase}
use ioh_robodog_webrtc.Prelude.Results.{Result, ok, Result-cases}
use ioh_robodog_webrtc.Peer.{
  Rtc, Peer, on_state_change, on_track_open, start_offer as offer_of, handle_answer as answer_of,
  handle_candidate as candidate_of,
}
use ioh_robodog_webrtc.WebRtc.{
  Server, with_peer, start_offer, handle_answer, handle_candidate, remove_peer,
}
use ioh_robodog_webrtc.WebRtc.Ops.{
  Op, offers, answers, candidates, removes, state_changes, track_opens, settled, step,
}

-- The peer that an operation names.
abbrev pub target : Op → Option String
target (offers a id) = some id
target (answers a id) = some id
target (candidates a id) = some id
target (removes id) = some id
target (state_changes id t) = some id
target (track_opens id) = some id
target _ = none

find-update_ne :
    (k j : String) (f : Peer → Peer) (m : List (String × Peer))
    → k ≢ j
    → find j (update k f m) ≡ find j m
unfolding find update
find-update_ne k j f [] h = refl
find-update_ne k j f ((i, v) ∷ m) h =
    ground (arith, text_eq_iff i k, text_eq_iff i j, find-update_ne k j f m h)

pub update_missing :
    (k : String) (f : Peer → Peer) (m : List (String × Peer)) → find k m ≡ none → update k f m ≡ m
unfolding find update
update_missing k f [] h = refl
update_missing k f ((i, v) ∷ m) h = ground (arith, update_missing k f m)

with_peer-ne :
    (k j : String) (f : Peer → Result Peer) (s : Server)
    → k ≢ j
    → find j (settled s (with_peer k f s)).peers ≡ find j s.peers
unfolding with_peer
with_peer-ne k j f s h = elim (Option-cases (find k s.peers)) [
  | inl e ↦ rw (e, with_peer) refl
  | inr (p, e) ↦ elim (Result-cases (f p)) [
    | inl (q, d) ↦ rw (e, with_peer) (rw d (find-update_ne k j (λ _. q) s.peers h))
    | inr (w, d) ↦ rw (e, with_peer) (rw d refl)
  ]
]

with_peer_missing :
    (k : String) (f : Peer → Result Peer) (s : Server)
    → find k s.peers ≡ none
    → settled s (with_peer k f s) ≡ s
unfolding with_peer
with_peer_missing k f s e = rw (e, with_peer) refl

remove_peer-ne :
    (k j : String) (s : Server) → k ≢ j → find j (remove_peer k s).peers ≡ find j s.peers
unfolding remove_peer
remove_peer-ne k j s h = ground (arith, text_eq_iff k j, find-erase k j s.peers)

-- From s to t at most the peer of this name has changed, and nothing where there is none.
abbrev pub IsLocal : Server → Server → String → Type 0
IsLocal s t id =
    ((j : String) → id ≢ j → find j t.peers ≡ find j s.peers) × (find id s.peers ≡ none → t ≡ s)

at_target : (s t : Server) (k id : String) → some k ≡ some id → IsLocal s t k → IsLocal s t id
at_target s t k id e = subst (IsLocal s t) (some-injective k id e)

with_peer-IsLocal :
    (k : String) (f : Peer → Result Peer) (s : Server) → IsLocal s (settled s (with_peer k f s)) k
with_peer-IsLocal k f s = (λ j. with_peer-ne k j f s, with_peer_missing k f s)

remove_peer-IsLocal : (k : String) (s : Server) → IsLocal s (remove_peer k s) k
remove_peer-IsLocal k s =
    (λ j. remove_peer-ne k j s, λ e. unfold remove_peer in rw (e, remove_peer) refl)

update-IsLocal :
    (k : String) (f : Peer → Peer) (s : Server)
    → IsLocal s (record s { peers = update k f s.peers }) k
update-IsLocal k f s = (
  λ j. find-update_ne k j f s.peers,
  λ e. ap (λ m. record s { peers = m }) (update_missing k f s.peers e),
)

step-IsLocal :
    (rtc : Rtc) (o : Op) (s : Server) (id : String)
    → target o ≡ some id
    → IsLocal s (step rtc o s) id
unfolding step start_offer handle_answer handle_candidate
step-IsLocal rtc (offers a k) s id e = at_target s _ k id e (with_peer-IsLocal k (offer_of a) s)
step-IsLocal rtc (answers a k) s id e = at_target s _ k id e (with_peer-IsLocal k (answer_of a) s)
step-IsLocal rtc (candidates a k) s id e =
    at_target s _ k id e (with_peer-IsLocal k (λ p. ok (candidate_of a p)) s)
step-IsLocal rtc (removes k) s id e = at_target s _ k id e (remove_peer-IsLocal k s)
step-IsLocal rtc (state_changes k t) s id e =
    at_target s _ k id e (update-IsLocal k (on_state_change t) s)
step-IsLocal rtc (track_opens k) s id e = at_target s _ k id e (update-IsLocal k on_track_open s)
step-IsLocal rtc _ s id e = cc

-- An operation that names a peer, one that throws included, leaves every other peer as it is.
pub step-other :
    (rtc : Rtc) (o : Op) (s : Server) (id other : String)
    → target o ≡ some id
    → id ≢ other
    → find other (step rtc o s).peers ≡ find other s.peers
step-other rtc o s id other e ne = (step-IsLocal rtc o s id e).0 other ne

-- An operation that names a peer that is not there, as a late message does, changes nothing.
pub step-missing :
    (rtc : Rtc) (o : Op) (s : Server) (id : String)
    → target o ≡ some id
    → find id s.peers ≡ none
    → step rtc o s ≡ s
step-missing rtc o s id e lacks = (step-IsLocal rtc o s id e).1 lacks
