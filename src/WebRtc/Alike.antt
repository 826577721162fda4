-- ===== src/WebRtc/Alike.antt =====
-- Two servers of src/webrtc_server.cpp that differ in the order of their unordered maps only, and
-- what the operations but `broadcast_nal` do to them.
use ioh_robodog_webrtc.Prelude.{
  ℕ, ◌≡◌, refl, sym, ap₂, ◌∙◌, String, Bool, true, false, Option, List, [], ◌∷◌, Bool-cases,
  Option-cases, inl, inr,
}
use ioh_robodog_webrtc.Prelude.Int.{pos, leb_ℤ, to_int32}
use ioh_robodog_webrtc.Prelude.Map.{find, Distinct}
use ioh_robodog_webrtc.Prelude.Orders.{
  Reorders, Reorders-keep, Reorders-insert, Reorders-erase, Reorders-update, find-Reorders,
  length-Reorders,
}
use ioh_robodog_webrtc.Prelude.Results.{Result, ok, err, Result-cases}
use ioh_robodog_webrtc.Peer.{Rtc, Peer, Globals, construct}
use ioh_robodog_webrtc.WebRtc.{
  Server, is_full, store_peer, create_peer, with_peer, remove_peer, cleanup_pass, cleanup_loop,
  start,
}
use ioh_robodog_webrtc.WebRtc.PeerId.{generate_peer_id}
use ioh_robodog_webrtc.WebRtc.Ops.{settled, started}

-- The same server, but for the order in which its map is walked.
pub record IsAlike (s t : Server) : Type 0 where
  pub config : s.config ≡ t.config
  pub cleaning : s.cleaning ≡ t.cleaning
  pub running : s.running ≡ t.running
  pub globals : s.globals ≡ t.globals
  pub peers : Reorders s.peers t.peers

-- The two servers with other peers, and with other globals.
abbrev with_peers : List (String × Peer) → Server → Server
with_peers m s = record s { peers = m }

pub peers-IsAlike :
    (s t : Server) (m n : List (String × Peer))
    → IsAlike s t
    → Reorders m n
    → IsAlike (with_peers m s) (with_peers n t)
peers-IsAlike s t m n k p = record {
  config = k.config;
  cleaning = k.cleaning;
  running = k.running;
  globals = k.globals;
  peers = p;
}

module _ (s t : Server) (k : IsAlike s t) (d : Distinct s.peers) where
  pub with_peer-IsAlike :
      (id : String) (f : Peer → Result Peer)
      → IsAlike (settled s (with_peer id f s)) (settled t (with_peer id f t))
  unfolding with_peer
  with_peer-IsAlike id f =
      let same = sym (find-Reorders id k.peers d) in
      elim (Option-cases (find id s.peers)) [
        | inl e ↦ rw (e, same ∙ e, with_peer) k
        | inr (p, e) ↦ elim (Result-cases (f p)) [
          | inr (w, g) ↦ rw (e, same ∙ e, with_peer) (rw g k)
          | inl (q, g) ↦
              rw (e, same ∙ e, with_peer)
                (rw g (peers-IsAlike s t _ _ k (Reorders-update id (λ x. q) k.peers d)))
        ]
      ]

  pub remove_peer-IsAlike : (id : String) → IsAlike (remove_peer id s) (remove_peer id t)
  unfolding remove_peer
  remove_peer-IsAlike id =
      let same = sym (find-Reorders id k.peers d) in
      elim (Option-cases (find id s.peers)) [
        | inl e ↦ rw (e, same ∙ e, remove_peer) k
        | inr (p, e) ↦
            rw (e, same ∙ e, remove_peer) (peers-IsAlike s t _ _ k (Reorders-erase id k.peers))
      ]

  full-IsAlike : is_full s ≡ is_full t
  unfolding is_full
  full-IsAlike =
      ap₂ (λ c n. leb_ℤ c.webrtc.max_peers (to_int32 (pos n))) k.config (length-Reorders k.peers)

  store-IsAlike :
      (id : String) (made : Result Peer × Globals)
      → IsAlike (store_peer id made s).1 (store_peer id made t).1
  unfolding store_peer
  store-IsAlike id (ok p, g) = record {
    config = k.config;
    cleaning = k.cleaning;
    running = k.running;
    globals = refl;
    peers = Reorders-insert id p k.peers d;
  }
  store-IsAlike id (err what, g) = record {
    config = k.config;
    cleaning = k.cleaning;
    running = k.running;
    globals = refl;
    peers = k.peers;
  }

  pub create_peer-IsAlike :
      (rtc : Rtc) (draw : ℕ) (cb : Option ℕ)
      → IsAlike (create_peer rtc draw cb s).1 (create_peer rtc draw cb t).1
  unfolding create_peer
  create_peer-IsAlike rtc draw cb =
      let id = generate_peer_id draw in
      let made = construct rtc id s.config.webrtc cb s.globals in
      let same : construct rtc id t.config.webrtc cb t.globals ≡ made =
        sym (ap₂ (λ c g. construct rtc id c.webrtc cb g) k.config k.globals) in
      elim (Bool-cases (is_full s)) [
        | inl full ↦ rw (full, sym full-IsAlike ∙ full) k
        | inr free ↦ rw (free, sym full-IsAlike ∙ free, same) (store-IsAlike id made)
      ]

  pub cleanup-IsAlike : (b : Bool) → IsAlike (cleanup_loop (b ∷ []) s) (cleanup_loop (b ∷ []) t)
  unfolding cleanup_loop cleanup_pass
  cleanup-IsAlike true = peers-IsAlike s t _ _ k (Reorders-keep _ k.peers)
  cleanup-IsAlike false = k

  pub start-IsAlike : IsAlike (started s (start s)) (started t (start t))
  unfolding start
  start-IsAlike = elim (Bool-cases s.cleaning) [
    | inl on ↦
        rw (on, sym k.cleaning ∙ on)
          (record {
            config = k.config;
            cleaning = refl;
            running = k.running;
            globals = k.globals;
            peers = k.peers;
          })
    | inr off ↦
        rw (off, sym k.cleaning ∙ off)
          (record {
            config = k.config;
            cleaning = refl;
            running = refl;
            globals = k.globals;
            peers = k.peers;
          })
  ]
