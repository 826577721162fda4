-- ===== src/WebRtc/Refinement.antt =====
-- src/webrtc_server.cpp keeps the promise of `WebRtc.Registry`: what a client finds under the names
-- moves as the registry does.
use ioh_robodog_webrtc.Prelude.{
  ◌+◌, ◌<◌, ◌^◌, refl, sym, ◌∙◌, arith, List, [], ◌∷◌, length, subst, Bool-cases, inl, inr,
}
use ioh_robodog_webrtc.Prelude.Int.{IsInt32}
use ioh_robodog_webrtc.Prelude.Map.{find}
use ioh_robodog_webrtc.Prelude.Results.{ok}
use ioh_robodog_webrtc.Config.{AppConfig}
use ioh_robodog_webrtc.Peer.{
  Rtc, on_state_change, on_track_open, start_offer as offer_of, handle_answer as answer_of,
  handle_candidate as candidate_of,
}
use ioh_robodog_webrtc.WebRtc.{
  Server, init, start_offer, handle_answer, handle_candidate, broadcast_nal, cleanup_loop, start,
  stop,
}
use ioh_robodog_webrtc.WebRtc.Ops.{
  Op, creates, offers, answers, candidates, removes, broadcasts, cleans, state_changes, track_opens,
  starts, stops, started, step, run,
}
use ioh_robodog_webrtc.WebRtc.Invariant.{IsConsistent, step-IsConsistent, run-IsConsistent}
use ioh_robodog_webrtc.WebRtc.Lookups.{find-remove_peer}
use ioh_robodog_webrtc.WebRtc.Registry.{nobody, Moves, Leads, forgets, halts}
use ioh_robodog_webrtc.WebRtc.Moves.{
  registry, IsPaired, with_peer-flags, create_peer-flags, create_peer-Moves, with_peer-Moves,
  update-Moves, remove_peer-flags, broadcast-Moves, cleanup-Moves, start-Moves,
}

-- Each operation makes a move of the registry.
step-Moves :
    (rtc : Rtc) (c : AppConfig) (o : Op) (s : Server)
    → IsInt32 c.webrtc.max_peers
    → IsConsistent c s
    → IsPaired s
    → Moves rtc c (registry s) (registry (step rtc o s)) o
unfolding step start_offer handle_answer handle_candidate stop find
step-Moves rtc c (creates draw cb) s i k p = create_peer-Moves rtc c draw cb s i k
step-Moves rtc c (offers a id) s i k p = with_peer-Moves rtc c _ id (offer_of a) s refl
step-Moves rtc c (answers a id) s i k p = with_peer-Moves rtc c _ id (answer_of a) s refl
step-Moves rtc c (candidates a id) s i k p =
    with_peer-Moves rtc c _ id (λ q. ok (candidate_of a q)) s refl
step-Moves rtc c (removes id) s i k p =
    forgets (λ j. find-remove_peer id j s) (remove_peer-flags id s).0
step-Moves rtc c (broadcasts taken bytes ts) s i k p = broadcast-Moves rtc c taken bytes ts s
step-Moves rtc c cleans s i k p = cleanup-Moves rtc c s k
step-Moves rtc c (state_changes id t) s i k p = update-Moves rtc c _ id (on_state_change t) s refl
step-Moves rtc c (track_opens id) s i k p = update-Moves rtc c _ id on_track_open s refl
step-Moves rtc c starts s i k p = start-Moves rtc c s p
step-Moves rtc c stops s i k p = halts (λ j. refl) refl

cleanup-IsPaired : (s : Server) → IsPaired s → IsPaired (cleanup_loop (s.running ∷ []) s)
unfolding cleanup_loop
cleanup-IsPaired s p = elim (Bool-cases s.running) [
  | inl on ↦ subst (λ b. IsPaired (cleanup_loop (b ∷ []) s)) (sym on) p
  | inr off ↦ subst (λ b. IsPaired (cleanup_loop (b ∷ []) s)) (sym off) p
]

start-IsPaired : (s : Server) → IsPaired s → IsPaired (started s (start s))
unfolding start
start-IsPaired s p = ground arith

step-IsPaired : (rtc : Rtc) (o : Op) (s : Server) → IsPaired s → IsPaired (step rtc o s)
unfolding step start_offer handle_answer handle_candidate stop broadcast_nal
step-IsPaired rtc (creates draw cb) s p =
    let (running, cleaning) = create_peer-flags rtc draw cb s in cleaning ∙ p ∙ sym running
step-IsPaired rtc (offers a id) s p =
    let (running, cleaning) = with_peer-flags id (offer_of a) s in cleaning ∙ p ∙ sym running
step-IsPaired rtc (answers a id) s p =
    let (running, cleaning) = with_peer-flags id (answer_of a) s in cleaning ∙ p ∙ sym running
step-IsPaired rtc (candidates a id) s p =
    let (running, cleaning) = with_peer-flags id (λ q. ok (candidate_of a q)) s in
    cleaning ∙ p ∙ sym running
step-IsPaired rtc (removes id) s p =
    let (running, cleaning) = remove_peer-flags id s in cleaning ∙ p ∙ sym running
step-IsPaired rtc (broadcasts taken bytes ts) s p = p
step-IsPaired rtc cleans s p = cleanup-IsPaired s p
step-IsPaired rtc (state_changes id t) s p = p
step-IsPaired rtc (track_opens id) s p = p
step-IsPaired rtc starts s p = start-IsPaired s p
step-IsPaired rtc stops s p = refl

run-Leads :
    (rtc : Rtc) (os : List Op) (c : AppConfig) (s : Server)
    → IsInt32 c.webrtc.max_peers
    → s.globals.next_ssrc + length os < 2 ^ 32
    → IsConsistent c s
    → IsPaired s
    → Leads rtc c os (registry s) (registry (run rtc os s))
unfolding run
run-Leads rtc [] c s i fits k p = (λ id. refl, refl)
run-Leads rtc (o ∷ os) c s i fits k p =
    let (k', n) = step-IsConsistent rtc o c s i (omega arith) k in
    (
      registry (step rtc o s),
      step-Moves rtc c o s i k p,
      run-Leads rtc os c (step rtc o s) i (omega arith) k' (step-IsPaired rtc o s p),
    )

-- The server refines the registry: any sequence of operations on a new server, short enough for the
-- 32-bit SSRCs not to repeat, leads from the empty registry, by one move for each operation, to what
-- a client finds in the end. So a peer is refused only for want of room or by the library, is new
-- under a name and an unused SSRC, and changes by nothing but the methods called on it, broadcasts,
-- its removal, the sweeping of closed peers and the stop.
pub run-refines :
    (rtc : Rtc) (os : List Op) (c : AppConfig)
    → IsInt32 c.webrtc.max_peers
    → 42 + length os < 2 ^ 32
    → Leads rtc c os nobody (registry (run rtc os (init c)))
unfolding init find run
run-refines rtc os c i fits =
    run-Leads rtc os c (init c) i fits (run-IsConsistent rtc [] c i (omega arith)) refl
