-- ===== src/Peer/Life.antt =====
-- The life of one peer of src/peer_connection.cpp: any sequence of the library's callbacks and of
-- the server's calls, against what the history of events says.
use ioh_robodog_webrtc.Prelude.{
  ℕ, ◌+◌, ◌≡◌, refl, ap, ◌∙◌, arith, Bool, true, false, Option, none, some, List, [], ◌∷◌, ◌++◌,
  ◌↔◌, ◌||◌, String, length, if◌then◌else◌,
}
use ioh_robodog_webrtc.Prelude.Results.{Result, ok, err}
use ioh_robodog_webrtc.Peer.{
  RtcState, Rtc, Peer, Globals, Packet, TrackAnswer, state_name, is_up, is_final, on_state_change,
  on_track_open, start_offer, handle_answer, handle_candidate, keyframe_sent, send_h264_nal,
  fresh_stats, is_connected, is_closed, get_stats,
}

-- What can happen to a peer, with the library's answers.
pub data Event : Type 0 where
  state_changed : RtcState → Event
  track_opened : Event
  offers : Result (Unit {0}) → Event
  answered : Result (Unit {0}) → Event
  candidate : Result (Unit {0}) → Event
  keyframe : Event
  sends : TrackAnswer → List ℕ → ℕ → Event

-- A call that throws leaves the peer as it was.
unfoldable pub after : Peer → Result Peer → Peer
after p (ok q) = q
after p (err what) = p

unfoldable pub step : Rtc → Event → Peer → Globals → Peer × Globals × Option Packet
unfolding after
step rtc (state_changed s) p g = (on_state_change s p, g, none)
step rtc track_opened p g = (on_track_open p, g, none)
step rtc (offers answer) p g = (after p (start_offer answer p), g, none)
step rtc (answered answer) p g = (after p (handle_answer answer p), g, none)
step rtc (candidate answer) p g = (handle_candidate answer p, g, none)
step rtc keyframe p g = (keyframe_sent p, g, none)
step rtc (sends answer bytes ts) p g = send_h264_nal rtc answer bytes ts p g

abbrev pub packets : Option Packet → List Packet
packets none = []
packets (some packet) = packet ∷ []

-- The peer after the events, and the packets that its track took, in order.
unfoldable pub run : Rtc → List Event → Peer → Globals → Peer × Globals × List Packet
run rtc [] p g = (p, g, [])
run rtc (e ∷ es) p g =
    let (q, h, packet) = step rtc e p g in
    let (r, k, rest) = run rtc es q h in (r, k, packets packet ++ rest)

-- The state that the library reported last.
unfoldable pub last_state : RtcState → List Event → RtcState
last_state s [] = s
last_state s (state_changed t ∷ es) = last_state t es
last_state s (_ ∷ es) = last_state s es

-- Whether the library reported the end of the connection, as closed or as failed.
unfoldable pub has_ended : List Event → Bool
has_ended [] = false
has_ended (state_changed RtcState.closed ∷ es) = true
has_ended (state_changed RtcState.failed ∷ es) = true
has_ended (_ ∷ es) = has_ended es

-- The names of the states.
abbrev pub name_of : RtcState → String
name_of RtcState.new = "new"
name_of RtcState.connecting = "connecting"
name_of RtcState.connected = "connected"
name_of RtcState.disconnected = "disconnected"
name_of RtcState.failed = "failed"
name_of RtcState.closed = "closed"

abbrev pub total_bytes : List Packet → ℕ
total_bytes [] = 0
total_bytes (p ∷ ps) = length p.bytes + total_bytes ps

-- The flags of a peer are those of a state that was reported.
abbrev Reflects : Peer → RtcState → Type 0
Reflects p s = ((p.connected ≡ true) ↔ (s ≡ RtcState.connected)) × (p.stats.state ≡ name_of s)

up_iff : (s : RtcState) → (is_up s ≡ true) ↔ (s ≡ RtcState.connected)
up_iff RtcState.new = (λ e. cc, λ e. cc)
up_iff RtcState.connecting = (λ e. cc, λ e. cc)
up_iff RtcState.connected = (λ e. refl, λ e. refl)
up_iff RtcState.disconnected = (λ e. cc, λ e. cc)
up_iff RtcState.failed = (λ e. cc, λ e. cc)
up_iff RtcState.closed = (λ e. cc, λ e. cc)

state_name-name_of : (s : RtcState) → state_name s ≡ name_of s
unfolding state_name
state_name-name_of RtcState.new = refl
state_name-name_of RtcState.connecting = refl
state_name-name_of RtcState.connected = refl
state_name-name_of RtcState.disconnected = refl
state_name-name_of RtcState.failed = refl
state_name-name_of RtcState.closed = refl

-- A report on a peer that is closed or not.
ends_with :
    (t : RtcState) (b : Bool) (es : List Event)
    → ((if is_final t then true else b) || has_ended es) ≡ (b || has_ended (state_changed t ∷ es))
unfolding has_ended
ends_with RtcState.new b es = refl
ends_with RtcState.connecting b es = refl
ends_with RtcState.connected b es = refl
ends_with RtcState.disconnected b es = refl
ends_with RtcState.failed true es = refl
ends_with RtcState.failed false es = refl
ends_with RtcState.closed true es = refl
ends_with RtcState.closed false es = refl

send-keeps :
    (rtc : Rtc) (answer : TrackAnswer) (bytes : List ℕ) (ts : ℕ) (p : Peer) (g : Globals)
    → let q = (send_h264_nal rtc answer bytes ts p g).0 in
      (q.connected ≡ p.connected) × (q.closed ≡ p.closed) × (q.stats.state ≡ p.stats.state)
unfolding send_h264_nal
send-keeps rtc answer bytes ts p g = ground arith

or_false : (b : Bool) → b ≡ (b || false)
or_false true = refl
or_false false = refl

same_state : {b c : Bool} {P : Type 0} → c ≡ b → ((b ≡ true) ↔ P) → (c ≡ true) ↔ P
same_state e r = rw e r

run_state :
    (rtc : Rtc) (es : List Event) (p : Peer) (g : Globals) (s : RtcState)
    → Reflects p s
    → Reflects (run rtc es p g).0 (last_state s es)
      × ((run rtc es p g).0.closed ≡ (p.closed || has_ended es))
unfolding run last_state has_ended step on_state_change on_track_open start_offer handle_answer
    handle_candidate keyframe_sent
run_state rtc [] p g s r = (r, or_false p.closed)
run_state rtc (state_changed t ∷ es) p g s r =
    let rest = run_state rtc es (on_state_change t p) g t (up_iff t, state_name-name_of t) in
    (rest.0, rest.1 ∙ ends_with t p.closed es)
run_state rtc (track_opened ∷ es) p g s r = run_state rtc es (on_track_open p) g s r
run_state rtc (offers (ok d) ∷ es) p g s r = run_state rtc es p g s r
run_state rtc (offers (err w) ∷ es) p g s r = run_state rtc es p g s r
run_state rtc (answered (ok d) ∷ es) p g s r =
    run_state rtc es (record p { needs_keyframe = true }) g s r
run_state rtc (answered (err w) ∷ es) p g s r = run_state rtc es p g s r
run_state rtc (candidate (ok d) ∷ es) p g s r = run_state rtc es p g s r
run_state rtc (candidate (err w) ∷ es) p g s r = run_state rtc es p g s r
run_state rtc (keyframe ∷ es) p g s r = run_state rtc es (keyframe_sent p) g s r
run_state rtc (sends answer bytes ts ∷ es) p g s r =
    let (same, ended, name) = send-keeps rtc answer bytes ts p g in
    let rest =
      run_state rtc es (send_h264_nal rtc answer bytes ts p g).0
        (send_h264_nal rtc answer bytes ts p g).1 s (same_state same r.0, name ∙ r.1) in
    (rest.0, rest.1 ∙ ap (λ b. b || has_ended es) ended)

-- After any events a peer that was new is connected exactly when the state reported last is
-- `connected`, its statistics name that state, and it is closed exactly when the end of its
-- connection, as closed or as failed, was ever reported.
pub run-state :
    (rtc : Rtc) (es : List Event) (p : Peer) (g : Globals)
    → p.connected ≡ false
    → p.closed ≡ false
    → p.stats ≡ fresh_stats
    → let q = (run rtc es p g).0 in
      ((is_connected q ≡ true) ↔ (last_state RtcState.new es ≡ RtcState.connected))
      × ((get_stats q).state ≡ name_of (last_state RtcState.new es))
      × (is_closed q ≡ has_ended es)
unfolding is_connected is_closed get_stats
run-state rtc es p g c d f =
    let down : (p.connected ≡ true) ↔ (RtcState.new ≡ RtcState.connected) =
      same_state c (up_iff RtcState.new) in
    let (r, ended) = run_state rtc es p g RtcState.new (down, ap (λ t. t.state) f) in
    (r.0, r.1, ended ∙ ap (λ b. b || has_ended es) d)
