-- ===== src/Signaling/Connect.antt =====
-- `on_client_connected` and `on_client_disconnected` of src/signaling_server.cpp: who gets in, and
-- what is left of whom goes.
use mathlib.Core.Bool.{true≢false}
use mathlib.Core.Option
use ioh_robodog_webrtc.Prelude.{
  ℕ, ◌≡◌, ◌≢◌, ◌<◌, ◌^◌, ◌⊎◌, List, length, if_taken, refl, sym, ap, ◌∙◌, String, Bool, true, false,
  not, ◌&&◌, ap₂, Option, none, some, [], ◌∷◌, ◌++◌, if◌then◌else◌, text_eq, text_empty,
  text_eq_iff, Bool-cases, inl, inr,
}
use ioh_robodog_webrtc.Prelude.Int.{pos, ◌≤ℤ◌}
use ioh_robodog_webrtc.Config.{WebRtcConfig}
use ioh_robodog_webrtc.WebRtc.Lookups.{find-with_peer}
use ioh_robodog_webrtc.WebRtc.Registry.{attempted}
use ioh_robodog_webrtc.WebRtc.Ops.{step}
use ioh_robodog_webrtc.Signaling.Routes.{open_session-step}
use ioh_robodog_webrtc.Prelude.Map.{find, find-insert, find-erase}
use ioh_robodog_webrtc.Prelude.Results.{Result, ok, err, Result-cases}
use ioh_robodog_webrtc.Peer.{Rtc, Peer, fresh_peer, start_offer as offer_of}
use ioh_robodog_webrtc.WebRtc.{Server, is_full, create_peer, start_offer}
use ioh_robodog_webrtc.WebRtc.PeerId.{generate_peer_id, generate_peer_id-ne-nil}
use ioh_robodog_webrtc.WebRtc.Create.{create_peer-cases, admission, is_full_iff}
use ioh_robodog_webrtc.Signaling.Executions.{remove_peer-peers}
use ioh_robodog_webrtc.Signaling.{
  SignalingServer, welcome, subscribed, sent, closed_socket, send_message, ice_servers, JsonLibrary,
  Calls, reject, on_client_connected, on_client_disconnected, admit, open_session,
}

abbrev pub is_ready : Result (Unit {0}) → Bool
is_ready (ok ready) = true
is_ready (err what) = false

-- A client gets in where there is room and the library makes the connection.
abbrev pub admits : Rtc → Server → Bool
admits rtc s = not (is_full s) && is_ready (admission rtc s)

admits_ready :
    (rtc : Rtc) (s : Server) → is_full s ≡ false → admission rtc s ≡ ok tt → admits rtc s ≡ true
admits_ready rtc s free ready = ap₂ (λ b r. not b && is_ready r) free ready

admits_full : (rtc : Rtc) (s : Server) → is_full s ≡ true → admits rtc s ≡ false
admits_full rtc s full = ap (λ b. not b && is_ready (admission rtc s)) full

and_false : (b : Bool) → (b && false) ≡ false
and_false true = refl
and_false false = refl

admits_failed :
    (rtc : Rtc) (s : Server) (w : String) → admission rtc s ≡ err w → admits rtc s ≡ false
admits_failed rtc s w e = ap (λ r. not (is_full s) && is_ready r) e ∙ and_false (not (is_full s))

-- The result of `create_peer` by that test.
refused_create :
    (rtc : Rtc) (draw : ℕ) (cb : Option ℕ) (s : Server)
    → admits rtc s ≡ false
    → let (id, t) = create_peer rtc draw cb s in (id ≡ "") × (t.peers ≡ s.peers)
refused_create rtc draw cb s shut = elim (create_peer-cases rtc draw cb s) [
  | inl (full, refused) ↦ refused
  | inr (inl (free, why, refused)) ↦ refused
  | inr (inr (free, ready, stored)) ↦
      absurd (true≢false (sym (admits_ready rtc s free ready) ∙ shut))
]

stored_create :
    (rtc : Rtc) (draw : ℕ) (cb : Option ℕ) (s : Server)
    → admits rtc s ≡ true
    → let (id, t) = create_peer rtc draw cb s in
      let name = generate_peer_id draw in
      (id ≡ name)
      × (find name t.peers ≡ some (fresh_peer rtc name s.config.webrtc cb s.globals.next_ssrc))
stored_create rtc draw cb s wide = elim (create_peer-cases rtc draw cb s) [
  | inl (full, refused) ↦ absurd (true≢false (sym wide ∙ admits_full rtc s full))
  | inr (inl (free, (w, e), refused)) ↦ absurd (true≢false (sym wide ∙ admits_failed rtc s w e))
  | inr (inr (free, ready, (e, stored, found))) ↦ (
    e,
    found (generate_peer_id draw)
        ∙ if_taken _ _ ((text_eq_iff _ _).1 e)
        ∙ ap (λ n. some (fresh_peer rtc n s.config.webrtc cb s.globals.next_ssrc)) e,
  )
]

admit_refused :
    (json : JsonLibrary) (send : ℕ → String → Result (Unit {0})) (calls : Calls) (ws : ℕ)
    (id : String) (s : SignalingServer)
    → id ≡ ""
    → admit json send calls ws id s ≡ (s, reject json send ws, none)
unfolding admit
admit_refused json send calls ws id s e = rw ((text_eq_iff id "").1 e) refl

-- The text of the error that a client gets who is not let in.
abbrev pub IsRejection : JsonLibrary → String → Type 0
IsRejection json m =
    json.dump (
      json.object (
        ("type", json.text "error") ∷ ("message", json.text "Server full, max peers reached") ∷ []))
    ≡ ok m

-- The servers for ICE that are configured: those with a text.
abbrev pub configured : (json : JsonLibrary) → WebRtcConfig → List json.Json
configured json c =
    (if text_eq c.stun_server ""
      then []
      else json.object (("urls", json.text c.stun_server) ∷ []) ∷ [])
    ++ (if text_eq c.turn_server ""
        then []
        else json.object (
            ("urls", json.text c.turn_server)
            ∷ ("username", json.text c.turn_username)
            ∷ ("credential", json.text c.turn_credential)
            ∷ [])
          ∷ [])

-- The text of the welcome to a client under this name.
abbrev pub IsWelcome : JsonLibrary → String → WebRtcConfig → String → Type 0
IsWelcome json id c m =
    json.dump (
      json.object (
        ("type", json.text "welcome")
        ∷ ("peerId", json.text id)
        ∷ ("iceServers", json.array (configured json c))
        ∷ []))
    ≡ ok m

reject_sent :
    (json : JsonLibrary) (send : ℕ → String → Result (Unit {0})) (ws : ℕ) (m : String)
    → IsRejection json m
    → send ws m ≡ ok tt
    → reject json send ws ≡ sent ws m ∷ closed_socket ws ∷ []
unfolding reject send_message
reject_sent json send ws m dumped taken = rw dumped (rw taken refl)

welcome_sent :
    (json : JsonLibrary) (send : ℕ → String → Result (Unit {0})) (ws : ℕ) (id : String)
    (c : WebRtcConfig) (m : String)
    → IsWelcome json id c m
    → send ws m ≡ ok tt
    → welcome json send ws id c ≡ sent ws m ∷ []
unfolding welcome send_message ice_servers
welcome_sent json send ws id c m dumped taken = rw dumped (rw taken refl)

refused_admits :
    (rtc : Rtc) (s : Server)
    → length s.peers < 2 ^ 31
    → (s.config.webrtc.max_peers ≤ℤ pos (length s.peers))
      ⊎ ((w : String) × (admission rtc s ≡ err w))
    → admits rtc s ≡ false
refused_admits rtc s few (inl full) = admits_full rtc s ((is_full_iff s few).1 full)
refused_admits rtc s few (inr (w, e)) = admits_failed rtc s w e

free_admits :
    (rtc : Rtc) (s : Server)
    → length s.peers < 2 ^ 31
    → ¬ (s.config.webrtc.max_peers ≤ℤ pos (length s.peers))
    → admission rtc s ≡ ok tt
    → admits rtc s ≡ true
free_admits rtc s few free ready = elim (Bool-cases (is_full s)) [
  | inl full ↦ absurd (free ((is_full_iff s few).0 full))
  | inr room ↦ admits_ready rtc s room ready
]

-- A client that comes while there are `max_peers` peers (of fewer than 2 ^ 31), or for which the
-- library makes no connection, and to which the text of the error can be sent, is sent that and
-- then closed; sessions and peers are as they were, and no exception escapes.
pub on_client_connected-refused :
    (rtc : Rtc) (json : JsonLibrary) (send : ℕ → String → Result (Unit {0})) (draw : ℕ)
    (calls : Calls) (ws : ℕ) (m : String) (s : SignalingServer)
    → length s.webrtc_server.peers < 2 ^ 31
    → (s.webrtc_server.config.webrtc.max_peers ≤ℤ pos (length s.webrtc_server.peers))
      ⊎ ((w : String) × (admission rtc s.webrtc_server ≡ err w))
    → IsRejection json m
    → send ws m ≡ ok tt
    → let (t, effects, escaped) = on_client_connected json send rtc draw calls ws s in
      (effects ≡ sent ws m ∷ closed_socket ws ∷ [])
      × (t.clients ≡ s.clients)
      × (t.webrtc_server.peers ≡ s.webrtc_server.peers)
      × (escaped ≡ none)
unfolding on_client_connected
on_client_connected-refused rtc json send draw calls ws m s few why dumped taken =
    let shut = refused_admits rtc s.webrtc_server few why in
    let (e, kept) = refused_create rtc draw (some ws) s.webrtc_server shut in
    rw (admit_refused json send calls ws _ _ e)
      (reject_sent json send ws m dumped taken, refl, kept, refl)

offer-signaling_cb :
    (a : Result (Unit {0})) (p : Peer) → (attempted (offer_of a) p).signaling_cb ≡ p.signaling_cb
unfolding offer_of
offer-signaling_cb (ok d) p = refl
offer-signaling_cb (err w) p = refl

admit_accepted :
    (json : JsonLibrary) (send : ℕ → String → Result (Unit {0})) (calls : Calls) (ws : ℕ)
    (id : String) (s : SignalingServer)
    → id ≢ ""
    → (admit json send calls ws id s).1
      ≡ welcome json send ws id s.config.webrtc ++ subscribed ws id ∷ []
unfolding admit open_session
admit_accepted json send calls ws id s ne = elim (Bool-cases (text_empty id)) [
  | inl empty ↦ absurd (ne ((text_eq_iff id "").0 empty))
  | inr free ↦ elim (Result-cases (start_offer calls.offer id s.webrtc_server)) [
    | inl (t, e) ↦ rw (free, e, open_session) refl
    | inr (w, e) ↦ rw (free, e, open_session) refl
  ]
]

-- The session and the peer of a client that gets in.
abbrev pub IsKnown : ℕ → String → SignalingServer → Type 0
IsKnown ws id t =
    (find id t.clients ≡ some (record { ws = ws; peer_id = id }))
    × ((p : Peer) × (find id t.webrtc_server.peers ≡ some p) × (p.signaling_cb ≡ some ws))

admit-IsKnown :
    (rtc : Rtc) (json : JsonLibrary) (send : ℕ → String → Result (Unit {0})) (calls : Calls)
    (ws : ℕ) (id : String) (p : Peer) (s : SignalingServer)
    → id ≢ ""
    → find id s.webrtc_server.peers ≡ some p
    → p.signaling_cb ≡ some ws
    → IsKnown ws id (admit json send calls ws id s).0
unfolding admit step start_offer
admit-IsKnown rtc json send calls ws id p s ne found target = elim (Bool-cases (text_empty id)) [
  | inl empty ↦ absurd (ne ((text_eq_iff id "").0 empty))
  | inr free ↦
      let same = (text_eq_iff id id).1 refl in
      rw (free, open_session-step rtc json send calls.offer ws id s)
        (
          find-insert id id _ s.clients ∙ if_taken _ _ same,
          (
            attempted (offer_of calls.offer) p,
            find-with_peer id id (offer_of calls.offer) s.webrtc_server
                ∙ if_taken _ _ same
                ∙ ap (Option.map (attempted (offer_of calls.offer))) found,
            offer-signaling_cb calls.offer p ∙ target,
          ),
        )
]

-- A client that comes while there are fewer than `max_peers` peers (and than 2 ^ 31), for which the
-- library makes a connection, and to which its welcome can be sent, is sent the welcome with the
-- drawn name and the servers for ICE, and then listened to; its session is found under that name,
-- and so is a peer that signals to its WebSocket, also where the offer throws.
pub on_client_connected-accepted :
    (rtc : Rtc) (json : JsonLibrary) (send : ℕ → String → Result (Unit {0})) (draw : ℕ)
    (calls : Calls) (ws : ℕ) (m : String) (s : SignalingServer)
    → length s.webrtc_server.peers < 2 ^ 31
    → ¬ (s.webrtc_server.config.webrtc.max_peers ≤ℤ pos (length s.webrtc_server.peers))
    → admission rtc s.webrtc_server ≡ ok tt
    → IsWelcome json (generate_peer_id draw) s.config.webrtc m
    → send ws m ≡ ok tt
    → let (t, effects, escaped) = on_client_connected json send rtc draw calls ws s in
      let id = generate_peer_id draw in
      (effects ≡ sent ws m ∷ subscribed ws id ∷ []) × IsKnown ws id t
unfolding on_client_connected fresh_peer
on_client_connected-accepted rtc json send draw calls ws m s few free ready dumped taken =
    let id = generate_peer_id draw in
    let t = (create_peer rtc draw (some ws) s.webrtc_server).1 in
    let ne = generate_peer_id-ne-nil draw in
    let wide = free_admits rtc s.webrtc_server few free ready in
    let (name, found) = stored_create rtc draw (some ws) s.webrtc_server wide in
    rw name (
      admit_accepted json send calls ws id (record s { webrtc_server = t }) ne
          ∙ ap (λ es. es ++ subscribed ws id ∷ [])
              (welcome_sent json send ws id s.config.webrtc m dumped taken),
      admit-IsKnown rtc json send calls ws id
          (fresh_peer rtc id s.webrtc_server.config.webrtc (some ws)
            s.webrtc_server.globals.next_ssrc)
          (record s { webrtc_server = t }) ne found refl,
    )

-- A client that goes takes its session and its peer along, and nobody else's.
pub on_client_disconnected-find :
    (id other : String) (s : SignalingServer)
    → let t = on_client_disconnected id s in
      (find other t.clients ≡ (if text_eq id other then none else find other s.clients))
      × (find other t.webrtc_server.peers
          ≡ (if text_eq id other then none else find other s.webrtc_server.peers))
unfolding on_client_disconnected
on_client_disconnected-find id other s = (
  find-erase id other s.clients,
  rw (remove_peer-peers id s.webrtc_server) (find-erase id other s.webrtc_server.peers),
)
