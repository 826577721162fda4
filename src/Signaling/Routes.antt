-- ===== src/Signaling/Routes.antt =====
-- Where the callbacks of the peers lead in src/signaling_server.cpp, by the sessions it keeps.
use ioh_robodog_webrtc.Prelude.{
  ℕ, ◌≡◌, ◌≢◌, refl, sym, ap, ◌∙◌, arith, String, false, none, some, List, [], ◌∷◌, map, All,
  text_eq, text_empty, text_eq_iff, Bool-cases, inl, inr, subst, ◌⊎◌,
}
use ioh_robodog_webrtc.Prelude.Map.{find, insert, find-insert}
use ioh_robodog_webrtc.Prelude.Thins.{Thins, Thins-refl, Thins-All, Thins-Apart, Apart}
use ioh_robodog_webrtc.Prelude.Results.{Result, Result-cases}
use ioh_robodog_webrtc.Peer.{Rtc, Peer, fresh_peer}
use ioh_robodog_webrtc.WebRtc.{Server, create_peer, start_offer}
use ioh_robodog_webrtc.WebRtc.PeerId.{generate_peer_id-ne-nil}
use ioh_robodog_webrtc.WebRtc.Ops.{offers}
use ioh_robodog_webrtc.WebRtc.Ops.{step as step_server}
use ioh_robodog_webrtc.WebRtc.Idents.{Ident, ident, idents, step-idents}
use ioh_robodog_webrtc.WebRtc.Invariant.{put, map-insert, put-names}
use ioh_robodog_webrtc.WebRtc.Create.{create_peer-cases}
use ioh_robodog_webrtc.Signaling.{
  ClientSession, SignalingServer, Calls, JsonLibrary, on_client_connected, admit, open_session,
}

-- One peer is led right: to the socket of its session; only after `stop` it may be without one.
abbrev pub IsLed : SignalingServer → Ident → Type 0
IsLed s i = elim (find i.name s.clients) [
  | none ↦ s.running ≡ false
  | some session ↦ i.target ≡ some session.ws
]

pub record IsRouted (s : SignalingServer) : Type 0 where
  pub names : Apart (λ i. i.name) (idents s.webrtc_server)
  pub led : All (IsLed s) (idents s.webrtc_server)

-- The peers may change as long as their identities thin out.
pub Thins-IsRouted :
    (s : SignalingServer) (t : Server)
    → Thins (idents t) (idents s.webrtc_server)
    → IsRouted s
    → IsRouted (record s { webrtc_server = t })
Thins-IsRouted s t thins r = record {
  names = Thins-Apart (λ i. i.name) thins r.names;
  led = Thins-All (IsLed s) thins r.led;
}

-- A session is stored for the peer i.
module _ (s : SignalingServer) (i : Ident) (session : ClientSession) where
  abbrev with_session : SignalingServer
  with_session = record s { clients = insert i.name session s.clients }

  other-IsLed : (k : Ident) → i.name ≢ k.name → IsLed s k → IsLed with_session k
  other-IsLed k ne led =
      ground (arith, text_eq_iff i.name k.name, find-insert i.name k.name session s.clients)

  others-IsLed :
      (js : List Ident)
      → All (λ k. i.name ≢ k.name) js
      → All (IsLed s) js
      → All (IsLed with_session) js
  others-IsLed [] a led = tt
  others-IsLed (k ∷ js) a led = (other-IsLed k a.0 led.0, others-IsLed js a.1 led.1)

  own-IsLed : i.target ≡ some session.ws → IsLed with_session i
  own-IsLed e =
      ground (arith, text_eq_iff i.name i.name, find-insert i.name i.name session s.clients)

  put-IsLed :
      (js : List Ident)
      → i.target ≡ some session.ws
      → Apart (λ k. k.name) js
      → All (IsLed s) js
      → All (IsLed with_session) (put i js)
  unfolding put
  put-IsLed [] e a led = (own-IsLed e, tt)
  put-IsLed (j ∷ js) e a led = elim (Bool-cases (text_eq j.name i.name)) [
    | inl same ↦ rw same (
      own-IsLed e,
      others-IsLed js
          (subst (λ n. All (λ k. n ≢ k.name) js) ((text_eq_iff j.name i.name).0 same) a.0) led.1,
    )
    | inr other ↦ rw other (
      other-IsLed j (λ d. ground (arith, (text_eq_iff j.name i.name).1 (sym d))) led.0,
      put-IsLed js e a.1 led.1,
    )
  ]

-- The session is stored, and the peers become those after the offer, whether it throws or not.
pub open_session-step :
    (rtc : Rtc) (json : JsonLibrary) (send : ℕ → String → Result (Unit {0}))
    (offer : Result (Unit {0})) (ws : ℕ) (id : String) (s : SignalingServer)
    → (open_session json send offer ws id s).0 ≡ record s {
      clients = insert id (record { ws = ws; peer_id = id }) s.clients;
      webrtc_server = step_server rtc (offers offer id) s.webrtc_server;
    }
unfolding open_session step_server
open_session-step rtc json send offer ws id s =
    elim (Result-cases (start_offer offer id s.webrtc_server)) [
      | inl (t, e) ↦ rw (e, open_session) refl
      | inr (w, e) ↦ rw (e, open_session) refl
    ]

-- A peer that was made for this socket, and its session.
stored-IsRouted :
    (s : SignalingServer) (t : Server) (id : String) (p : Peer) (ws : ℕ)
    → t.peers ≡ insert id p s.webrtc_server.peers
    → p.signaling_cb ≡ some ws
    → IsRouted s
    → IsRouted (record s {
      webrtc_server = t;
      clients = insert id (record { ws = ws; peer_id = id }) s.clients;
    })
stored-IsRouted s t id p ws e target r =
    let is : idents t ≡ put (ident (id, p)) (idents s.webrtc_server) =
      ap (map ident) e ∙ map-insert id p s.webrtc_server.peers in
    record {
      names = rw is (put-names (ident (id, p)) (idents s.webrtc_server) r.names);
      led = rw is (
          put-IsLed s (ident (id, p)) (record { ws = ws; peer_id = id }) (idents s.webrtc_server)
            target r.names r.led);
    }

module _ (rtc : Rtc) (json : JsonLibrary) (send : ℕ → String → Result (Unit {0})) where
  admit-IsRouted :
      (calls : Calls) (ws : ℕ) (id : String) (s : SignalingServer) (t : Server)
      → ((id ≡ "") × (t.peers ≡ s.webrtc_server.peers))
        ⊎ ((id ≢ "")
            × ((p : Peer) × (t.peers ≡ insert id p s.webrtc_server.peers)
                × (p.signaling_cb ≡ some ws)))
      → IsRouted s
      → IsRouted (admit json send calls ws id (record s { webrtc_server = t })).0
  unfolding admit
  admit-IsRouted calls ws id s t (inl (e, kept)) r =
      rw ((text_eq_iff id "").1 e) (Thins-IsRouted s t (rw kept (Thins-refl _)) r)
  admit-IsRouted calls ws id s t (inr (ne, (p, e, target))) r = elim (Bool-cases (text_empty id)) [
    | inl empty ↦ absurd (ne ((text_eq_iff id "").0 empty))
    | inr some_id ↦
        rw
          (
            some_id,
            open_session-step rtc json send calls.offer ws id (record s { webrtc_server = t }),
          )
          (Thins-IsRouted _ _ (step-idents rtc (offers calls.offer id) t (λ h. h))
            (stored-IsRouted s t id p ws e target r))
  ]

  pub connected-IsRouted :
      (draw : ℕ) (calls : Calls) (ws : ℕ) (s : SignalingServer)
      → IsRouted s
      → IsRouted (on_client_connected json send rtc draw calls ws s).0
  unfolding on_client_connected fresh_peer
  connected-IsRouted draw calls ws s r =
      let (id, t) = create_peer rtc draw (some ws) s.webrtc_server in
      admit-IsRouted calls ws id s t
        (elim (create_peer-cases rtc draw (some ws) s.webrtc_server) [
          | inl (full, refused) ↦ inl refused
          | inr (inl (free, why, refused)) ↦ inl refused
          | inr (inr (free, ready, (e, stored, found))) ↦
              inr ((λ d. generate_peer_id-ne-nil draw (sym e ∙ d)), (_, stored, refl))
        ])
        r
