-- ===== src/Signaling/Message.antt =====
-- `on_client_message` of src/signaling_server.cpp: what a message may do.
use ioh_robodog_webrtc.Prelude.{
  ℕ, ◌≡◌, ◌≢◌, refl, ap, ◌∙◌, arith, String, Bool, true, ◌&&◌, none, some, [], ◌∷◌, if◌then◌else◌,
  All, text_eq, text_empty, Bool-cases, inl, inr, ◌⊎◌,
}
use ioh_robodog_webrtc.Prelude.Int.{ℤ, pos, negsuc, ltb_ℤ, ◌<ℤ◌}
use ioh_robodog_webrtc.Prelude.Map.{find}
use ioh_robodog_webrtc.Prelude.Results.{Result, Result-cases}
use ioh_robodog_webrtc.Peer.{Rtc}
use ioh_robodog_webrtc.WebRtc.{handle_answer, handle_candidate}
use ioh_robodog_webrtc.WebRtc.Ops.{Op, answers, candidates, step}
use ioh_robodog_webrtc.WebRtc.Viewers.{Spares}
use ioh_robodog_webrtc.WebRtc.Isolation.{target, step-other, step-missing}
use ioh_robodog_webrtc.Signaling.{
  SignalingServer, Effect, bitrate_requested, JsonLibrary, Calls, Caught, done, settle, on_answer,
  on_candidate, on_ping, on_set_bitrate, handle_message, on_client_message,
}

-- Nothing changes, or one operation of the server that names the sender's peer, and leaves every
-- peer in its place, happens.
abbrev pub Acts : Rtc → String → SignalingServer → SignalingServer → Type 0
Acts rtc id s t =
    (t ≡ s)
    ⊎ ((o : Op) × ((target o ≡ some id) × ((b : Bool) (k : String) → Spares b k o))
        × (t ≡ record s { webrtc_server = step rtc o s.webrtc_server }))

-- A bit rate that is asked for is positive.
abbrev pub IsPositive : Effect → Type 0
IsPositive (bitrate_requested n) = pos 0 <ℤ n
IsPositive _ = Unit

module _ (rtc : Rtc) (json : JsonLibrary) (send : ℕ → String → Result (Unit {0})) where
  open json use {Json, parse, value_text, value_int, value_json, text, object, dump}

  abbrev Fine : String → SignalingServer → Caught → Type 0
  Fine id s c = Acts rtc id s (settle s c).0 × All IsPositive (settle s c).1

  on_answer-Fine :
      (calls : Calls) (id : String) (msg : Json) (s : SignalingServer)
      → Fine id s (on_answer json send calls id msg s)
  unfolding on_answer settle step
  on_answer-Fine calls id msg s = elim (Result-cases (value_text msg "sdp" "")) [
    | inr (w, e) ↦ rw (e, on_answer) (inl refl, tt)
    | inl (sdp, e) ↦ elim (Bool-cases (text_empty sdp)) [
      | inl b ↦ rw (e, b, on_answer) (inl refl, tt)
      | inr b ↦ elim (Result-cases (handle_answer (calls.answer sdp) id s.webrtc_server)) [
        | inr (w, d) ↦ rw (e, b, d, on_answer) (inl refl, tt)
        | inl (t, d) ↦
            rw (e, b, d, on_answer)
              (inr (answers (calls.answer sdp) id, (refl, λ b k. tt), rw (d, step) refl), tt)
      ]
    ]
  ]

  on_candidate-Fine :
      (calls : Calls) (id : String) (msg : Json) (s : SignalingServer)
      → Fine id s (on_candidate json send calls id msg s)
  unfolding on_candidate settle step
  on_candidate-Fine calls id msg s = elim (Result-cases (value_json msg "data" (object []))) [
    | inr (w, e) ↦ rw (e, on_candidate) (inl refl, tt)
    | inl (v, e) ↦ elim (Result-cases (value_text v "candidate" "")) [
      | inr (w, f) ↦ rw (e, f, on_candidate) (inl refl, tt)
      | inl (c, f) ↦ elim (Result-cases (value_text v "sdpMid" "0")) [
        | inr (w, g) ↦ rw (e, f, g, on_candidate) (inl refl, tt)
        | inl (mid, g) ↦ elim (Bool-cases (text_empty c)) [
          | inl b ↦ rw (e, f, g, b, on_candidate) (inl refl, tt)
          | inr b ↦
              elim (Result-cases (handle_candidate (calls.candidate c mid) id s.webrtc_server)) [
                | inr (w, d) ↦ rw (e, f, g, b, d, on_candidate) (inl refl, tt)
                | inl (t, d) ↦
                    rw (e, f, g, b, d, on_candidate)
                      (
                        inr (
                          candidates (calls.candidate c mid) id,
                          (refl, λ b k. tt),
                          rw (d, step) refl,
                        ),
                        tt,
                      )
              ]
        ]
      ]
    ]
  ]

  on_ping-Fine : (id : String) (ws : ℕ) (s : SignalingServer) → Fine id s (on_ping json send ws s)
  unfolding on_ping settle
  on_ping-Fine id ws s = elim (Result-cases (dump (object (("type", text "pong") ∷ [])))) [
    | inr (w, e) ↦ rw (e, on_ping) (inl refl, tt)
    | inl (pong, e) ↦ elim (Result-cases (send ws pong)) [
      | inr (w, d) ↦ rw (e, d, on_ping) (inl refl, tt)
      | inl (u, d) ↦ rw (e, d, on_ping) (inl refl, (tt, tt))
    ]
  ]

  positive : (n : ℤ) (b : Bool) → (ltb_ℤ (pos 0) n && b) ≡ true → pos 0 <ℤ n
  positive (pos n) b e = ground arith
  positive (negsuc n) b e = ground arith

  on_set_bitrate-Fine :
      (id : String) (msg : Json) (s : SignalingServer) → Fine id s (on_set_bitrate json send msg s)
  unfolding on_set_bitrate settle
  on_set_bitrate-Fine id msg s = elim (Result-cases (value_int msg "bitrate_kbps" (pos 0))) [
    | inr (w, e) ↦ rw (e, on_set_bitrate) (inl refl, tt)
    | inl (n, e) ↦ elim (Bool-cases (ltb_ℤ (pos 0) n && s.bitrate_cb)) [
      | inl b ↦ rw (e, b, on_set_bitrate) (inl refl, (positive n s.bitrate_cb b, tt))
      | inr b ↦ rw (e, b, on_set_bitrate) (inl refl, tt)
    ]
  ]

  by_kind-Fine :
      (calls : Calls) (id : String) (ws : ℕ) (msg : Json) (kind : String) (s : SignalingServer)
      → Fine id s (
          if text_eq kind "answer"
          then on_answer json send calls id msg s
          else if text_eq kind "candidate"
          then on_candidate json send calls id msg s
          else if text_eq kind "ping"
          then on_ping json send ws s
          else if text_eq kind "set_bitrate"
          then on_set_bitrate json send msg s
          else done s [])
  by_kind-Fine calls id ws msg kind s = elim (Bool-cases (text_eq kind "answer")) [
    | inl a ↦ rw a (on_answer-Fine calls id msg s)
    | inr a ↦ elim (Bool-cases (text_eq kind "candidate")) [
      | inl c ↦ rw (a, c) (on_candidate-Fine calls id msg s)
      | inr c ↦ elim (Bool-cases (text_eq kind "ping")) [
        | inl p ↦ rw (a, c, p) (on_ping-Fine id ws s)
        | inr p ↦ elim (Bool-cases (text_eq kind "set_bitrate")) [
          | inl b ↦ rw (a, c, p, b) (on_set_bitrate-Fine id msg s)
          | inr b ↦ rw (a, c, p, b) (unfold settle in (inl refl, tt))
        ]
      ]
    ]
  ]

  handle_message-Fine :
      (calls : Calls) (id : String) (ws : ℕ) (message : String) (s : SignalingServer)
      → Fine id s (handle_message json send calls id ws message s)
  unfolding handle_message settle
  handle_message-Fine calls id ws message s = elim (Result-cases (parse message)) [
    | inr (w, e) ↦ rw (e, handle_message) (inl refl, tt)
    | inl (msg, e) ↦ elim (Result-cases (value_text msg "type" "")) [
      | inr (w, d) ↦ rw (e, d, handle_message) (inl refl, tt)
      | inl (kind, d) ↦ rw (e, d, handle_message) (by_kind-Fine calls id ws msg kind s)
    ]
  ]

  -- A message does nothing to the state, or one operation on the peer of its sender.
  pub on_client_message-Acts :
      (calls : Calls) (id : String) (ws : ℕ) (message : String) (s : SignalingServer)
      → Acts rtc id s (on_client_message json send calls id ws message s).0
  unfolding on_client_message
  on_client_message-Acts calls id ws message s = (handle_message-Fine calls id ws message s).0

  -- Whatever a client sends, valid or not, the sessions and the peers of all other clients stay as
  -- they are.
  pub on_client_message-other :
      (calls : Calls) (id other : String) (ws : ℕ) (message : String) (s : SignalingServer)
      → id ≢ other
      → let t = (on_client_message json send calls id ws message s).0 in
        (t.clients ≡ s.clients)
        × (find other t.webrtc_server.peers ≡ find other s.webrtc_server.peers)
  on_client_message-other calls id other ws message s ne =
      elim (on_client_message-Acts calls id ws message s) [
        | inl e ↦ rw e (refl, refl)
        | inr (o, (named, calm), e) ↦
            rw e (refl, step-other rtc o s.webrtc_server id other named ne)
      ]

  -- A message whose sender has lost its peer, as a late one does, changes nothing.
  pub on_client_message-missing :
      (calls : Calls) (id : String) (ws : ℕ) (message : String) (s : SignalingServer)
      → find id s.webrtc_server.peers ≡ none
      → (on_client_message json send calls id ws message s).0 ≡ s
  on_client_message-missing calls id ws message s lost =
      elim (on_client_message-Acts calls id ws message s) [
        | inl e ↦ e
        | inr (o, (named, calm), e) ↦
            e
            ∙ ap (λ t. record s { webrtc_server = t })
                (step-missing rtc o s.webrtc_server id named lost)
      ]

  -- The encoder is never asked for a bit rate that is not positive, whatever a client sends.
  pub on_client_message-IsPositive :
      (calls : Calls) (id : String) (ws : ℕ) (message : String) (s : SignalingServer)
      → All IsPositive (on_client_message json send calls id ws message s).1
  unfolding on_client_message
  on_client_message-IsPositive calls id ws message s = (handle_message-Fine calls id ws message s).1
