-- ===== src/WebRtc/Registry.antt =====
-- What src/webrtc_server.cpp promises its clients: a registry that gives each name at most one
-- peer, and its moves. It knows neither the order of the map nor the threads.
use mathlib.Core.Option
use ioh_robodog_webrtc.Prelude.{
  ℕ, ◌≡◌, ◌≢◌, String, Bool, true, false, Option, none, some, List, [], ◌∷◌, All, length, text_eq,
  if◌then◌else◌,
}
use ioh_robodog_webrtc.Prelude.Int.{ℤ, pos, ◌≤ℤ◌}
use ioh_robodog_webrtc.Prelude.Thins.{Apart}
use ioh_robodog_webrtc.Prelude.Results.{Result, ok, err}
use ioh_robodog_webrtc.Config.{AppConfig}
use ioh_robodog_webrtc.Peer.{
  Rtc, Peer, TrackAnswer, on_state_change, on_track_open, start_offer as offer_of,
  handle_answer as answer_of, handle_candidate as candidate_of, setup_connection, fresh_peer,
}
use ioh_robodog_webrtc.WebRtc.PeerId.{generate_peer_id}
use ioh_robodog_webrtc.WebRtc.Broadcast.{frame_for}
use ioh_robodog_webrtc.WebRtc.Cleanup.{if_open}
use ioh_robodog_webrtc.WebRtc.Ops.{
  Op, creates, offers, answers, candidates, removes, broadcasts, cleans, state_changes, track_opens,
  starts, stops,
}

pub record Registry : Type 0 where
  pub peer : String → Option Peer
  pub running : Bool

abbrev pub nobody : Registry
nobody = record { peer = λ id. none; running = false }

-- The same peers under all names.
abbrev pub Same : Registry → Registry → Type 0
Same v w = (id : String) → w.peer id ≡ v.peer id

-- At least `limit` different names have a peer.
abbrev pub IsFull : ℤ → Registry → Type 0
IsFull limit v =
    (names : List String) × Apart (λ n. n) names
    × All (λ n. v.peer n ≢ none) names
    × (limit ≤ℤ pos (length names))

-- Fewer than `limit` names have a peer: there is none outside a list that short.
abbrev pub HasRoom : ℤ → Registry → Type 0
HasRoom limit v =
    (names : List String) × ((id : String) → All (λ n. n ≢ id) names → v.peer id ≡ none)
    × ¬ (limit ≤ℤ pos (length names))

-- No peer sends under this SSRC.
abbrev pub IsUnused : ℕ → Registry → Type 0
IsUnused ssrc v = (id : String) (p : Peer) → v.peer id ≡ some p → p.ssrc ≢ ssrc

-- The peer after a method of it, which may throw.
abbrev pub attempted : (Peer → Result Peer) → Peer → Peer
attempted f p = elim (f p) [ ok q ↦ q | err what ↦ p ]

-- The method that an operation calls, and the name of the peer that it calls it on.
abbrev pub method : Op → Option (String × (Peer → Peer))
method (offers answer id) = some (id, attempted (offer_of answer))
method (answers answer id) = some (id, attempted (answer_of answer))
method (candidates answer id) = some (id, candidate_of answer)
method (state_changes id t) = some (id, on_state_change t)
method (track_opens id) = some (id, on_track_open)
method _ = none

-- The moves that an operation may make from v to w.
pub data Moves (rtc : Rtc) (c : AppConfig) (v w : Registry) : Op → Type 0 where
  refuses_full :
      {draw : ℕ} {cb : Option ℕ}
      → IsFull c.webrtc.max_peers v
      → Same v w
      → w.running ≡ v.running
      → Moves rtc c v w (creates draw cb)
  refuses_failed :
      {draw : ℕ} {cb : Option ℕ} (ssrc : ℕ) (what : String)
      → rtc.make_connection (setup_connection rtc c.webrtc ssrc) ≡ err what
      → Same v w
      → w.running ≡ v.running
      → Moves rtc c v w (creates draw cb)
  admits :
      {draw : ℕ} {cb : Option ℕ} (ssrc : ℕ)
      → HasRoom c.webrtc.max_peers v
      → IsUnused ssrc v
      → rtc.make_connection (setup_connection rtc c.webrtc ssrc) ≡ ok tt
      → ((id : String)
          → w.peer id ≡ (
              if text_eq (generate_peer_id draw) id
              then some (fresh_peer rtc (generate_peer_id draw) c.webrtc cb ssrc)
              else v.peer id))
      → w.running ≡ v.running
      → Moves rtc c v w (creates draw cb)
  calls :
      {o : Op} (id : String) (f : Peer → Peer)
      → method o ≡ some (id, f)
      → ((j : String) → w.peer j ≡ (if text_eq id j then Option.map f (v.peer id) else v.peer j))
      → w.running ≡ v.running
      → Moves rtc c v w o
  forgets :
      {id : String}
      → ((j : String) → w.peer j ≡ (if text_eq id j then none else v.peer j))
      → w.running ≡ v.running
      → Moves rtc c v w (removes id)
  delivers :
      {taken : String → TrackAnswer} {bytes : List ℕ} {ts : ℕ} (stamp : ℕ)
      → ((j : String)
          → w.peer j ≡ Option.map (λ p. (frame_for taken bytes stamp (j, p)).0) (v.peer j))
      → w.running ≡ v.running
      → Moves rtc c v w (broadcasts taken bytes ts)
  sweeps :
      v.running ≡ true
      → ((j : String) → w.peer j ≡ if_open (v.peer j))
      → w.running ≡ true
      → Moves rtc c v w cleans
  rests : v.running ≡ false → Same v w → w.running ≡ false → Moves rtc c v w cleans
  runs : Same v w → w.running ≡ true → Moves rtc c v w starts
  halts : ((j : String) → w.peer j ≡ none) → w.running ≡ false → Moves rtc c v w stops

-- A sequence of operations takes v to w by moves.
abbrev pub Leads : Rtc → AppConfig → List Op → Registry → Registry → Type 0
Leads rtc c [] v w = Same v w × (w.running ≡ v.running)
Leads rtc c (o ∷ os) v w = (u : Registry) × Moves rtc c v u o × Leads rtc c os u w
