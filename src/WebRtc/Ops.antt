-- ===== src/WebRtc/Ops.antt =====
-- Executions of src/webrtc_server.cpp: the operations, which the mutex makes atomic, and the
-- library's callbacks on single peers, in any order.
use ioh_robodog_webrtc.Prelude.{ℕ, String, Option, none, some, List, [], ◌∷◌}
use ioh_robodog_webrtc.Prelude.Map.{update}
use ioh_robodog_webrtc.Prelude.Results.{Result, ok, err}
use ioh_robodog_webrtc.Peer.{Rtc, RtcState, TrackAnswer, on_state_change, on_track_open}
use ioh_robodog_webrtc.WebRtc.{
  Server, create_peer, start_offer, handle_answer, handle_candidate, remove_peer, broadcast_nal,
  cleanup_loop, start, stop,
}

pub data Op : Type 0 where
  creates : ℕ → Option ℕ → Op
  offers : Result (Unit {0}) → String → Op
  answers : Result (Unit {0}) → String → Op
  candidates : Result (Unit {0}) → String → Op
  removes : String → Op
  broadcasts : (String → TrackAnswer) → List ℕ → ℕ → Op
  cleans : Op
  state_changes : String → RtcState → Op
  track_opens : String → Op
  starts : Op
  stops : Op

-- An operation that throws, or that would end the process, changes nothing.
abbrev pub settled : Server → Result Server → Server
settled s (ok t) = t
settled s (err what) = s

abbrev pub started : Server → Option Server → Server
started s (some t) = t
started s none = s

unfoldable pub step : Rtc → Op → Server → Server
step rtc (creates draw cb) s = (create_peer rtc draw cb s).1
step rtc (offers answer id) s = settled s (start_offer answer id s)
step rtc (answers answer id) s = settled s (handle_answer answer id s)
step rtc (candidates answer id) s = settled s (handle_candidate answer id s)
step rtc (removes id) s = remove_peer id s
step rtc (broadcasts taken bytes ts) s = (broadcast_nal rtc taken bytes ts s).0
step rtc cleans s = cleanup_loop (s.running ∷ []) s
step rtc (state_changes id t) s = record s { peers = update id (on_state_change t) s.peers }
step rtc (track_opens id) s = record s { peers = update id on_track_open s.peers }
step rtc starts s = started s (start s)
step rtc stops s = stop s

unfoldable pub run : Rtc → List Op → Server → Server
run rtc [] s = s
run rtc (o ∷ os) s = run rtc os (step rtc o s)
