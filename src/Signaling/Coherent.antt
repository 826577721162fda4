-- ===== src/Signaling/Coherent.antt =====
-- Where the callbacks of the peers lead in src/signaling_server.cpp while handlers are under way, and
-- what the steps of the handlers do to that.
use ioh_robodog_webrtc.Prelude.{
  ℕ, ◌<◌, ◌≡◌, ◌≢◌, refl, sym, ◌∙◌, arith, String, false, some, List, [], ◌∷◌, map, All, text_eq,
  text_eq_iff, Bool-cases, if_taken, if_left, inl, inr, ◌⊎◌, subst,
}
use ioh_robodog_webrtc.Prelude.Map.{find, erase, find-insert, find-erase}
use ioh_robodog_webrtc.Prelude.Thins.{Thins, Thins-All, Thins-Apart, Apart}
use ioh_robodog_webrtc.Peer.{Rtc, Peer}
use ioh_robodog_webrtc.WebRtc.{Server, remove_peer}
use ioh_robodog_webrtc.WebRtc.Ops.{Op, removes}
use ioh_robodog_webrtc.WebRtc.Ops.{step as step_server}
use ioh_robodog_webrtc.WebRtc.Idents.{Ident, ident, idents, step-idents, IsCreate}
use ioh_robodog_webrtc.WebRtc.Lookups.{found-ident, find-remove_peer}
use ioh_robodog_webrtc.Signaling.{ClientSession, SignalingServer}
use ioh_robodog_webrtc.Signaling.Handlers.{Busy, store_session, erase_session, drop_peer}

-- What peers are found, and where their callbacks lead.
abbrev pub Found : Server → String → Peer → Type 0
Found t id p = find id t.peers ≡ some p

-- In t every peer was in s under its name, with its callback.
abbrev Keeps : Server → Server → Type 0
Keeps s t =
    (id : String) (q : Peer)
    → Found t id q
    → (p : Peer) × Found s id p × (p.signaling_cb ≡ q.signaling_cb)

abbrev Holds : List (String × Peer) → Ident → Type 0
Holds m i = (p : Peer) × (find i.name m ≡ some p) × (p.signaling_cb ≡ i.target)

Holds-cons :
    (j : String) (p : Peer) (m : List (String × Peer)) (is : List Ident)
    → All (λ i. j ≢ i.name) is
    → All (Holds m) is
    → All (Holds ((j, p) ∷ m)) is
unfolding find
Holds-cons j p m [] a h = tt
Holds-cons j p m (i ∷ is) a h = ((h.0.0, passed i a.0 ∙ h.0.1, h.0.2), Holds-cons j p m is a.1 h.1)
  where
    passed : (i : Ident) → j ≢ i.name → find i.name ((j, p) ∷ m) ≡ find i.name m
    passed i n = ground (arith, text_eq_iff j i.name)

-- Where names are distinct, every entry is found under its name.
idents-Holds :
    (m : List (String × Peer)) → Apart (λ i. i.name) (map ident m) → All (Holds m) (map ident m)
unfolding find
idents-Holds [] a = tt
idents-Holds ((j, p) ∷ m) a =
    ((p, first, refl), Holds-cons j p m (map ident m) a.0 (idents-Holds m a.1))
  where
    first : find j ((j, p) ∷ m) ≡ some p
    first = ground (arith, text_eq_iff j j)

Thins-Keeps :
    (s t : Server) → Apart (λ i. i.name) (idents s) → Thins (idents t) (idents s) → Keeps s t
Thins-Keeps s t a thins id q found =
    found-ident (Holds s.peers) id q t.peers
      (Thins-All (Holds s.peers) thins (idents-Holds s.peers a)) found

-- The peer found under this name signals to the socket of its session, or of the connection that is
-- about to store one; unless its session was erased and it is about to be removed, or the server
-- has been stopped.
abbrev pub Served : Busy → String → Peer → Type 0
Served s id p =
    ((session : ClientSession) × (find id s.server.clients ≡ some session)
      × (p.signaling_cb ≡ some session.ws))
    ⊎ ((ws : ℕ) × (find id s.welcoming ≡ some ws) × (p.signaling_cb ≡ some ws))
    ⊎ (0 < s.leaving id)
    ⊎ (s.server.running ≡ false)

pub record IsCoherent (s : Busy) : Type 0 where
  pub names : Apart (λ i. i.name) (idents s.server.webrtc_server)
  pub served : (id : String) (p : Peer) → Found s.server.webrtc_server id p → Served s id p
  pub arriving :
      (id : String) (ws : ℕ)
      → find id s.welcoming ≡ some ws
      → (p : Peer) → Found s.server.webrtc_server id p
      → p.signaling_cb ≡ some ws

module _ (s : Busy) (k : IsCoherent s) where
  -- The peers change, and keep their callbacks.
  pub kept-IsCoherent :
      (t : Server) (offering : String → ℕ)
      → Keeps s.server.webrtc_server t
      → Apart (λ i. i.name) (idents t)
      → IsCoherent
          (record s { server = record (s.server) { webrtc_server = t }; offering = offering })
  kept-IsCoherent t offering keeps apart = record {
    names = apart;
    served = λ id q found.
        let (p, was, same) = keeps id q found in
        subst (λ cb. Served (record s { offering = offering }) id (record q { signaling_cb = cb }))
          same (k.served id p was);
    arriving = λ id ws comes q found.
        let (p, was, same) = keeps id q found in sym same ∙ k.arriving id ws comes p was;
  }

  pub op-IsCoherent :
      (rtc : Rtc) (o : Op) (offering : String → ℕ)
      → ¬ IsCreate o
      → IsCoherent (record s {
        server = record (s.server) { webrtc_server = step_server rtc o s.server.webrtc_server };
        offering = offering;
      })
  op-IsCoherent rtc o offering h =
      let thins = step-idents rtc o s.server.webrtc_server h in
      kept-IsCoherent (step_server rtc o s.server.webrtc_server) offering
        (Thins-Keeps s.server.webrtc_server (step_server rtc o s.server.webrtc_server) k.names
          thins)
        (Thins-Apart (λ i. i.name) thins k.names)

  -- A session is stored for the socket that its peer was made for.
  store-Served :
      (id : String) (ws : ℕ)
      → find id s.welcoming ≡ some ws
      → (n : String) (p : Peer) → Found s.server.webrtc_server n p
      → Served (store_session id ws s) n p
  unfolding store_session
  store-Served id ws comes n p found = elim (Bool-cases (text_eq id n)) [
    | inl same ↦
        let here_too : id ≡ n = (text_eq_iff id n).0 same in
        inl (
          record { ws = ws; peer_id = id },
          find-insert id n (record { ws = ws; peer_id = id }) s.server.clients ∙ if_taken _ _ same,
          k.arriving n ws (subst (λ j. find j s.welcoming ≡ some ws) here_too comes) p found,
        )
    | inr other ↦ elim (k.served n p found) [
      | inl (session, there, leads) ↦
          inl (session, find-insert id n _ s.server.clients ∙ if_left _ _ other ∙ there, leads)
      | inr (inl (w, there, leads)) ↦
          inr (inl (w, find-erase id n s.welcoming ∙ if_left _ _ other ∙ there, leads))
      | inr (inr (inl goes)) ↦ inr (inr (inl goes))
      | inr (inr (inr down)) ↦ inr (inr (inr down))
    ]
  ]

  -- A lookup in a map from which a name is erased.
  erase-other :
      (id n : String) (ws : ℕ)
      → find n (erase id s.welcoming) ≡ some ws
      → find n s.welcoming ≡ some ws
  erase-other id n ws e = ground (arith, find-erase id n s.welcoming)

  pub store-IsCoherent :
      (id : String) (ws : ℕ) → find id s.welcoming ≡ some ws → IsCoherent (store_session id ws s)
  unfolding store_session
  store-IsCoherent id ws comes = record {
    names = k.names;
    served = store-Served id ws comes;
    arriving = λ n w e. k.arriving n w (erase-other id n w e);
  }

  -- A session is erased, and its peer is about to be removed.
  erase-Served :
      (id n : String) (p : Peer)
      → Found s.server.webrtc_server n p
      → Served (erase_session id s) n p
  unfolding erase_session
  erase-Served id n p found = elim (Bool-cases (text_eq id n)) [
    | inl same ↦ inr (inr (inl (rw same (omega arith))))
    | inr other ↦ elim (k.served n p found) [
      | inl (session, there, leads) ↦
          inl (session, find-erase id n s.server.clients ∙ if_left _ _ other ∙ there, leads)
      | inr (inl comes) ↦ inr (inl comes)
      | inr (inr (inl goes)) ↦ inr (inr (inl (rw other goes)))
      | inr (inr (inr down)) ↦ inr (inr (inr down))
    ]
  ]

  pub erase-IsCoherent : (id : String) → IsCoherent (erase_session id s)
  unfolding erase_session
  erase-IsCoherent id = record { names = k.names; served = erase-Served id; arriving = k.arriving }

  removed-Found :
      (id n : String) (p : Peer)
      → Found (remove_peer id s.server.webrtc_server) n p
      → (text_eq id n ≡ false) × Found s.server.webrtc_server n p
  removed-Found id n p found = ground (arith, find-remove_peer id n s.server.webrtc_server)

  drop-Served :
      (id n : String) (p : Peer)
      → Found (remove_peer id s.server.webrtc_server) n p
      → Served (drop_peer id s) n p
  unfolding drop_peer
  drop-Served id n p found =
      let (other, was) = removed-Found id n p found in
      elim (k.served n p was) [
        | inl there ↦ inl there
        | inr (inl comes) ↦ inr (inl comes)
        | inr (inr (inl goes)) ↦ inr (inr (inl (rw other goes)))
        | inr (inr (inr down)) ↦ inr (inr (inr down))
      ]

  pub drop-IsCoherent : (rtc : Rtc) (id : String) → IsCoherent (drop_peer id s)
  unfolding drop_peer step_server
  drop-IsCoherent rtc id = record {
    names =
        Thins-Apart (λ i. i.name) (step-idents rtc (removes id) s.server.webrtc_server (λ h. h))
          k.names;
    served = drop-Served id;
    arriving = λ n w e p found. k.arriving n w e p (removed-Found id n p found).1;
  }

  -- Once the server is stopped nothing is asked of the peers that are left.
  pub stopped-IsCoherent :
      (t : SignalingServer)
      → t.running ≡ false
      → t.webrtc_server ≡ s.server.webrtc_server
      → IsCoherent (record s { server = t })
  stopped-IsCoherent t down same = record {
    names = subst (λ w. Apart (λ i. i.name) (idents w)) (sym same) k.names;
    served = λ id p found. inr (inr (inr down));
    arriving = λ id ws e p found. k.arriving id ws e p (subst (λ w. Found w id p) same found);
  }
