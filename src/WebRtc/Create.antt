-- ===== src/WebRtc/Create.antt =====
-- `create_peer` of src/webrtc_server.cpp: who gets in.
use ioh_robodog_webrtc.Prelude.{
  ℕ, ◌<◌, ◌^◌, ◌≡◌, ◌↔◌, ◌⊎◌, refl, arith, String, true, false, Option, some, length, if◌then◌else◌,
  text_eq, inl, inr, Bool-cases,
}
use ioh_robodog_webrtc.Prelude.Int.{ℤ, pos, negsuc, leb_ℤ, ◌≤ℤ◌, to_int32}
use ioh_robodog_webrtc.Prelude.Map.{find, insert, find-insert}
use ioh_robodog_webrtc.Prelude.Results.{Result, ok, err, Result-cases}
use ioh_robodog_webrtc.Peer.{Rtc, construct, setup_connection, fresh_peer}
use ioh_robodog_webrtc.WebRtc.{Server, is_full, create_peer}
use ioh_robodog_webrtc.WebRtc.PeerId.{generate_peer_id}

-- What the library says to a new peer of this server.
abbrev pub admission : Rtc → Server → Result (Unit {0})
admission rtc s = rtc.make_connection (setup_connection rtc s.config.webrtc s.globals.next_ssrc)

-- The two ends of `create_peer`: a refusal, and a peer that was stored.
abbrev pub IsRefused : Server → String × Server → Type 0
IsRefused s (id, t) = (id ≡ "") × (t.peers ≡ s.peers)

abbrev pub IsStored : Rtc → ℕ → Option ℕ → Server → String × Server → Type 0
IsStored rtc draw cb s (id, t) =
    (id ≡ generate_peer_id draw)
    × (t.peers ≡ insert id (fresh_peer rtc id s.config.webrtc cb s.globals.next_ssrc) s.peers)
    × ((j : String)
        → find j t.peers ≡ (
            if text_eq id j
            then some (fresh_peer rtc id s.config.webrtc cb s.globals.next_ssrc)
            else find j s.peers))

-- A full server, and one whose library refuses, returns the empty name and keeps its peers; any
-- other stores a fresh peer under the generated name and keeps the peers of all other names.
pub create_peer-cases :
    (rtc : Rtc) (draw : ℕ) (cb : Option ℕ) (s : Server)
    → ((is_full s ≡ true) × IsRefused s (create_peer rtc draw cb s))
      ⊎ ((is_full s ≡ false)
          × ((w : String) × (admission rtc s ≡ err w))
          × IsRefused s (create_peer rtc draw cb s))
      ⊎ ((is_full s ≡ false)
          × (admission rtc s ≡ ok tt)
          × IsStored rtc draw cb s (create_peer rtc draw cb s))
unfolding create_peer construct
create_peer-cases rtc draw cb s = elim (Bool-cases (is_full s)) [
  | inl full ↦ inl (full, rw full (refl, refl))
  | inr free ↦ elim (Result-cases (admission rtc s)) [
    | inl (u, e) ↦ inr (
        inr (
          free,
          e,
          rw free (rw e (refl, refl, λ j. find-insert (generate_peer_id draw) j _ s.peers)),
        ))
    | inr (w, e) ↦ inr (inl (free, (w, e), rw free (rw e (refl, refl))))
  ]
]

full_at :
    (limit : ℤ) (n : ℕ) → n < 2 ^ 31 → (leb_ℤ limit (to_int32 (pos n)) ≡ true) ↔ (limit ≤ℤ pos n)
full_at (pos k) n h = ground arith
full_at (negsuc k) n h = ground arith

-- With fewer than 2 ^ 31 peers a server is full exactly when it has at least `max_peers` of them,
-- so always where that limit is not positive.
pub is_full_iff :
    (s : Server)
    → length s.peers < 2 ^ 31
    → (is_full s ≡ true) ↔ (s.config.webrtc.max_peers ≤ℤ pos (length s.peers))
unfolding is_full
is_full_iff s h = full_at s.config.webrtc.max_peers (length s.peers) h
