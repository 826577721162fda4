-- ===== src/Signaling/Interleaving.antt =====
-- Where the callbacks of the peers lead in src/signaling_server.cpp while handlers are under way, for
-- every interleaving of their steps.
use ioh_robodog_webrtc.Prelude.{
  ℕ, ◌≡◌, ◌≢◌, refl, sym, ap, ◌∙◌, arith, String, true, false, some, List, [], map, text_eq,
  text_empty, text_eq_iff, if◌then◌else◌, Bool-cases, if_taken, if_left, inl, inr, ◌⊎◌, subst,
}
use ioh_robodog_webrtc.Prelude.Map.{find, insert, find-insert}
use ioh_robodog_webrtc.Prelude.Thins.{Apart}
use ioh_robodog_webrtc.Prelude.Results.{Result}
use ioh_robodog_webrtc.Peer.{Rtc, Peer, fresh_peer}
use ioh_robodog_webrtc.WebRtc.{Server, create_peer}
use ioh_robodog_webrtc.WebRtc.Ops.{offers}
use ioh_robodog_webrtc.WebRtc.Ops.{step as step_server}
use ioh_robodog_webrtc.WebRtc.Idents.{ident, idents}
use ioh_robodog_webrtc.WebRtc.Invariant.{put-names, map-insert}
use ioh_robodog_webrtc.WebRtc.Create.{create_peer-cases}
use ioh_robodog_webrtc.Signaling.{SignalingServer, JsonLibrary, stop}
use ioh_robodog_webrtc.Signaling.Handlers.{
  Busy, idle, lowered, begin_connect, call_offer, stop_running, close_sessions, Step, connects,
  stores, calls_offer, hears, erases, drops, behind, stops, closes, Reach, here, next,
}
use ioh_robodog_webrtc.Signaling.Coherent.{
  Found, Served, IsCoherent, kept-IsCoherent, op-IsCoherent, store-IsCoherent, erase-IsCoherent,
  drop-IsCoherent, stopped-IsCoherent,
}
use ioh_robodog_webrtc.Signaling.Message.{Acts, on_client_message-Acts}
use ioh_robodog_webrtc.WebRtc.PeerId.{generate_peer_id-ne-nil}
use ioh_robodog_webrtc.Signaling.Executions.{named-ne-IsCreate}

module _ (s : Busy) (k : IsCoherent s) where
  -- A peer was made for the connection ws, and no other connection under its name is under way.
  module _ (id : String) (ws : ℕ) (t : Server) (fresh : Peer) where
    abbrev begun : Busy
    begun = record s {
      server = record (s.server) { webrtc_server = t };
      welcoming = insert id ws s.welcoming;
    }

    -- A peer that is found then is the new one or was there before.
    begun-Found :
        t.peers ≡ insert id fresh s.server.webrtc_server.peers
        → (n : String) (p : Peer) → Found t n p
        → ((text_eq id n ≡ true) × (p ≡ fresh))
          ⊎ ((text_eq id n ≡ false) × Found s.server.webrtc_server n p)
    begun-Found stored n p found =
        let at =
          sym (ap (find n) stored ∙ find-insert id n fresh s.server.webrtc_server.peers) ∙ found in
        elim (Bool-cases (text_eq id n)) [
          | inl same ↦ inl (same, sym (cc_some (sym (if_taken _ _ same) ∙ at)))
          | inr other ↦ inr (other, sym (if_left _ _ other) ∙ at)
        ]
      where
        cc_some : {x y : Peer} → some x ≡ some y → x ≡ y
        cc_some h = cc

    begun-Served :
        t.peers ≡ insert id fresh s.server.webrtc_server.peers
        → fresh.signaling_cb ≡ some ws
        → (n : String) (p : Peer) → Found t n p
        → Served begun n p
    begun-Served stored leads n p found = elim (begun-Found stored n p found) [
      | inl (same, e) ↦ inr (
          inl (
            ws,
            find-insert id n ws s.welcoming ∙ if_taken _ _ same,
            ap (λ q. q.signaling_cb) e ∙ leads,
          ))
      | inr (other, was) ↦ elim (k.served n p was) [
        | inl there ↦ inl there
        | inr (inl (w, comes, to_it)) ↦
            inr (inl (w, find-insert id n ws s.welcoming ∙ if_left _ _ other ∙ comes, to_it))
        | inr (inr (inl goes)) ↦ inr (inr (inl goes))
        | inr (inr (inr down)) ↦ inr (inr (inr down))
      ]
    ]

    begun-arriving :
        t.peers ≡ insert id fresh s.server.webrtc_server.peers
        → fresh.signaling_cb ≡ some ws
        → (n : String) (w : ℕ) → find n begun.welcoming ≡ some w
        → (p : Peer) → Found t n p
        → p.signaling_cb ≡ some w
    begun-arriving stored leads n w comes p found =
        let at = sym (find-insert id n ws s.welcoming) ∙ comes in
        elim (begun-Found stored n p found) [
          | inl (same, e) ↦ ap (λ q. q.signaling_cb) e ∙ leads ∙ sym (if_taken _ _ same) ∙ at
          | inr (other, was) ↦ k.arriving n w (sym (if_left _ _ other) ∙ at) p was
        ]

    begun-IsCoherent :
        t.peers ≡ insert id fresh s.server.webrtc_server.peers
        → fresh.signaling_cb ≡ some ws
        → IsCoherent begun
    begun-IsCoherent stored leads = record {
      names =
          subst (Apart (λ i. i.name))
            (sym (ap (map ident) stored ∙ map-insert id fresh s.server.webrtc_server.peers))
            (put-names (ident (id, fresh)) (idents s.server.webrtc_server) k.names);
      served = begun-Served stored leads;
      arriving = begun-arriving stored leads;
    }

  -- The handler of a connection that is refused ends, one that is not is under way.
  module _ (id : String) (ws : ℕ) (t : Server) where
    abbrev connected : List (String × ℕ) → Busy
    connected w = record s { server = record (s.server) { webrtc_server = t }; welcoming = w }

    abbrev handlers : List (String × ℕ)
    handlers = if text_empty id then s.welcoming else insert id ws s.welcoming

    refused-IsCoherent :
        id ≡ "" → t.peers ≡ s.server.webrtc_server.peers → IsCoherent (connected handlers)
    refused-IsCoherent name kept =
        subst (λ w. IsCoherent (connected w)) (sym (if_taken _ _ ((text_eq_iff id "").1 name)))
          (kept-IsCoherent s k t s.offering (λ n q found. (q, sym (ap (find n) kept) ∙ found, refl))
            (subst (Apart (λ i. i.name)) (sym (ap (map ident) kept)) k.names))

    stored-IsCoherent :
        (fresh : Peer)
        → id ≢ ""
        → t.peers ≡ insert id fresh s.server.webrtc_server.peers
        → fresh.signaling_cb ≡ some ws
        → IsCoherent (connected handlers)
    stored-IsCoherent fresh named stored leads = elim (Bool-cases (text_empty id)) [
      | inl empty ↦ absurd (named ((text_eq_iff id "").0 empty))
      | inr given ↦
          subst (λ w. IsCoherent (connected w)) (sym (if_left _ _ given))
            (begun-IsCoherent id ws t fresh stored leads)
    ]

  connect-IsCoherent : (rtc : Rtc) (draw ws : ℕ) → IsCoherent (begin_connect rtc draw ws s)
  unfolding begin_connect fresh_peer
  connect-IsCoherent rtc draw ws =
      let (id, t) = create_peer rtc draw (some ws) s.server.webrtc_server in
      elim (create_peer-cases rtc draw (some ws) s.server.webrtc_server) [
        | inl (full, (name, kept)) ↦ refused-IsCoherent id ws t name kept
        | inr (inl (free, why, (name, kept))) ↦ refused-IsCoherent id ws t name kept
        | inr (inr (free, ready, (name, stored, found))) ↦
            stored-IsCoherent id ws t _ (λ e. generate_peer_id-ne-nil draw (sym name ∙ e)) stored
              refl
      ]

module _ (rtc : Rtc) (json : JsonLibrary) (send : ℕ → String → Result (Unit {0})) where
  heard-IsCoherent :
      (s : Busy) (id : String) (t : SignalingServer)
      → IsCoherent s
      → Acts rtc id s.server t
      → IsCoherent (record s { server = t })
  heard-IsCoherent s id t k (inl e) = rw e k
  heard-IsCoherent s id t k (inr (o, (named, calm), e)) =
      rw e (op-IsCoherent s k rtc o s.offering (named-ne-IsCreate o id named))

  Step-IsCoherent : {s t : Busy} → Step rtc json send s t → IsCoherent s → IsCoherent t
  unfolding call_offer stop_running close_sessions stop step_server
  Step-IsCoherent {s} (connects draw ws fresh e) k = rw e (connect-IsCoherent s k rtc draw ws)
  Step-IsCoherent {s} (stores id ws comes e) k = rw e (store-IsCoherent s k id ws comes)
  Step-IsCoherent {s} (calls_offer answer id due e) k =
      rw e (op-IsCoherent s k rtc (offers answer id) (lowered id s.offering) (λ h. h))
  Step-IsCoherent {s} (hears calls id ws message e) k = rw e (
      heard-IsCoherent s id _ k (on_client_message-Acts rtc json send calls id ws message s.server))
  Step-IsCoherent {s} (erases id e) k = rw e (erase-IsCoherent s k id)
  Step-IsCoherent {s} (drops id due e) k = rw e (drop-IsCoherent s k rtc id)
  Step-IsCoherent {s} (behind o h e) k = rw e (op-IsCoherent s k rtc o s.offering h)
  Step-IsCoherent {s} (stops e) k = rw e (stopped-IsCoherent s k _ refl refl)
  Step-IsCoherent {s} (closes down e) k = rw e (stopped-IsCoherent s k _ refl refl)

  reached-IsCoherent : {s t : Busy} → IsCoherent s → Reach rtc json send s t → IsCoherent t
  reached-IsCoherent k here = k
  reached-IsCoherent k (next r st) = Step-IsCoherent st (reached-IsCoherent k r)

  -- Whatever steps of the handlers, messages and operations of the server of the peers happen in
  -- whatever order, on a server that had no peers when no handler was under way: every peer signals
  -- to the socket of the session under its name, or of the connection that is about to store that
  -- session; unless a disconnection has erased the session and is about to remove the peer, or the
  -- server has been stopped.
  pub Reach-IsCoherent :
      (s : SignalingServer) (t : Busy)
      → s.webrtc_server.peers ≡ []
      → Reach rtc json send (idle s) t
      → IsCoherent t
  unfolding find
  Reach-IsCoherent s t nobody r =
      reached-IsCoherent
        (record {
          names = rw nobody tt;
          served = λ id p found. absurd (ground (arith, ap (find id) nobody));
          arriving = λ id ws comes p found. absurd (ground (arith, ap (find id) nobody));
        })
        r
