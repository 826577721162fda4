-- ===== src/WebRtc/Lookups.antt =====
-- The operations of src/webrtc_server.cpp as a client sees them: by the peer under each name.
use mathlib.Core.Option
use ioh_robodog_webrtc.Prelude.{
  ℕ, ◌≡◌, ◌≢◌, refl, sym, arith, String, false, none, some, List, [], ◌∷◌, All, map, text_eq,
  text_eq_iff, if◌then◌else◌, Option-cases, inl, inr,
}
use ioh_robodog_webrtc.Prelude.Map.{find, update, find-update, find-erase, Lacks, Distinct}
use ioh_robodog_webrtc.Prelude.Thins.{Apart}
use ioh_robodog_webrtc.Prelude.Results.{Result, Result-cases}
use ioh_robodog_webrtc.Peer.{Peer, TrackAnswer}
use ioh_robodog_webrtc.WebRtc.{Server, with_peer, remove_peer}
use ioh_robodog_webrtc.WebRtc.Broadcast.{frame_for, peer_after, packet_for}
use ioh_robodog_webrtc.WebRtc.Ops.{settled}
use ioh_robodog_webrtc.WebRtc.Idents.{Ident, ident}
use ioh_robodog_webrtc.WebRtc.Isolation.{update_missing}
use ioh_robodog_webrtc.WebRtc.Registry.{attempted}

pub text_ne : (j id : String) → j ≢ id → text_eq j id ≡ false
text_ne j id n = ground (arith, text_eq_iff j id)

-- Overwriting a name by what it has.
same_if :
    (k j : String) (m : List (String × Peer))
    → find j m ≡ (if text_eq k j then find k m else find j m)
same_if k j m = ground (arith, text_eq_iff k j)

pub find-update_at :
    (k j : String) (f : Peer → Peer) (m : List (String × Peer))
    → find j (update k f m) ≡ (if text_eq k j then Option.map f (find k m) else find j m)
find-update_at k j f m = elim (Option-cases (find k m)) [
  | inl e ↦ rw (e, update_missing k f m e) (rw e at (same_if k j m))
  | inr (p, e) ↦ rw e (find-update k j f p m e)
]

pub find-with_peer :
    (k j : String) (f : Peer → Result Peer) (s : Server)
    → find j (settled s (with_peer k f s)).peers
      ≡ (if text_eq k j then Option.map (attempted f) (find k s.peers) else find j s.peers)
unfolding with_peer
find-with_peer k j f s = elim (Option-cases (find k s.peers)) [
  | inl e ↦ rw (e, with_peer) (rw e at (same_if k j s.peers))
  | inr (p, e) ↦ elim (Result-cases (f p)) [
    | inl (q, d) ↦ rw (e, with_peer) (rw (d, attempted) (find-update k j (λ _. q) p s.peers e))
    | inr (w, d) ↦ rw (e, with_peer) (rw (d, attempted) (rw e at (same_if k j s.peers)))
  ]
]

pub find-remove_peer :
    (k j : String) (s : Server)
    → find j (remove_peer k s).peers ≡ (if text_eq k j then none else find j s.peers)
unfolding remove_peer
find-remove_peer k j s = elim (Option-cases (find k s.peers)) [
  | inl e ↦ rw (e, remove_peer) (rw e at (same_if k j s.peers))
  | inr (p, e) ↦ rw (e, remove_peer) (find-erase k j s.peers)
]

pub find-peer_after :
    (taken : String → TrackAnswer) (bytes : List ℕ) (stamp : ℕ) (j : String)
    (m : List (String × Peer))
    → find j (map (peer_after taken bytes stamp) m)
      ≡ Option.map (λ p. (frame_for taken bytes stamp (j, p)).0) (find j m)
unfolding find
find-peer_after taken bytes stamp j [] = refl
find-peer_after taken bytes stamp j ((i, p) ∷ m) =
    ground (arith, text_eq_iff i j, find-peer_after taken bytes stamp j m)

pub find-packet_for :
    (taken : String → TrackAnswer) (bytes : List ℕ) (stamp : ℕ) (j : String)
    (m : List (String × Peer))
    → find j (map (packet_for taken bytes stamp) m)
      ≡ Option.map (λ p. (frame_for taken bytes stamp (j, p)).1) (find j m)
unfolding find
find-packet_for taken bytes stamp j [] = refl
find-packet_for taken bytes stamp j ((i, p) ∷ m) =
    ground (arith, text_eq_iff i j, find-packet_for taken bytes stamp j m)

-- The names and identities of the entries.
abbrev pub names : List (String × Peer) → List String
names m = map (λ e. e.0) m

pub names-Apart :
    (m : List (String × Peer)) → Apart (λ i. i.name) (map ident m) → Apart (λ n. n) (names m)
names-Apart [] h = tt
names-Apart ((j, p) ∷ m) h = (each m h.0, names-Apart m h.1)
  where
    each :
        (l : List (String × Peer))
        → All (λ i. j ≢ i.name) (map ident l)
        → All (λ n. j ≢ n) (names l)
    each [] a = tt
    each ((i, q) ∷ l) a = (a.0, each l a.1)

pub idents-Distinct : (m : List (String × Peer)) → Apart (λ i. i.name) (map ident m) → Distinct m
idents-Distinct [] h = tt
idents-Distinct ((j, p) ∷ m) h = (each m h.0, idents-Distinct m h.1)
  where
    each : (l : List (String × Peer)) → All (λ i. j ≢ i.name) (map ident l) → Lacks j l
    each [] a = tt
    each ((i, q) ∷ l) a = (λ e. a.0 (sym e), each l a.1)

find-cons :
    (i n : String) (p : Peer) (m : List (String × Peer))
    → find n m ≢ none
    → find n ((i, p) ∷ m) ≢ none
unfolding find
find-cons i n p m h e = ground arith

cons-find :
    (i : String) (p : Peer) (m : List (String × Peer)) (ns : List String)
    → All (λ n. find n m ≢ none) ns
    → All (λ n. find n ((i, p) ∷ m) ≢ none) ns
cons-find i p m [] h = tt
cons-find i p m (n ∷ ns) h = (find-cons i n p m h.0, cons-find i p m ns h.1)

find_first : (i : String) (p : Peer) (m : List (String × Peer)) → find i ((i, p) ∷ m) ≢ none
unfolding find
find_first i p m e = ground (arith, text_eq_iff i i)

-- Every name of the map is found.
pub names-find : (m : List (String × Peer)) → All (λ n. find n m ≢ none) (names m)
names-find [] = tt
names-find ((i, p) ∷ m) = (find_first i p m, cons-find i p m (names m) (names-find m))

-- Who is not among the names is not found.
pub unnamed-find :
    (j : String) (m : List (String × Peer)) → All (λ n. n ≢ j) (names m) → find j m ≡ none
unfolding find
unnamed-find j [] h = refl
unnamed-find j ((i, p) ∷ m) h = ground (arith, text_eq_iff i j, unnamed-find j m h.1, h.0)

-- What holds of all identities holds of a peer that is found.
pub found-ident :
    (P : Ident → Type 0) (j : String) (p : Peer) (m : List (String × Peer))
    → All P (map ident m)
    → find j m ≡ some p
    → P (ident (j, p))
unfolding find
found-ident P j p [] h e = cc
found-ident P j p ((i, q) ∷ m) h e = ground (arith, text_eq_iff i j, found-ident P j p m h.1, h.0)
