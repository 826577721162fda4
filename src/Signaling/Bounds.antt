-- ===== src/Signaling/Bounds.antt =====
-- The peers that src/webrtc_server.cpp keeps while handlers of src/signaling_server.cpp are under way.
use native.Mathlib.Omega.{arith}
use ioh_robodog_webrtc.Prelude.{ℕ, ◌+◌, ◌<◌, ◌^◌, ◌≡◌, ◌∙◌, sym, ap, String, some, subst, inl, inr}
use ioh_robodog_webrtc.Prelude.Int.{IsInt32}
use ioh_robodog_webrtc.Prelude.Results.{Result}
use ioh_robodog_webrtc.Config.{AppConfig}
use ioh_robodog_webrtc.Peer.{Rtc}
use ioh_robodog_webrtc.WebRtc
use ioh_robodog_webrtc.WebRtc.Ops
use ioh_robodog_webrtc.WebRtc.Ops.{creates, offers, removes}
use ioh_robodog_webrtc.WebRtc.Invariant.{IsConsistent, run-IsConsistent}
use ioh_robodog_webrtc.Signaling.{SignalingServer, JsonLibrary, stop}
use ioh_robodog_webrtc.Signaling.Message.{Acts, on_client_message-Acts}
use ioh_robodog_webrtc.Signaling.Factors.{Operates, Operates-refl, Operates-one, Operates-trans}
use ioh_robodog_webrtc.Signaling.Handlers.{
  Busy, idle, begin_connect, store_session, call_offer, erase_session, drop_peer, stop_running,
  close_sessions, Step, connects, stores, calls_offer, hears, erases, drops, behind, stops, closes,
  Reach, here, next,
}

module _ (rtc : Rtc) (json : JsonLibrary) (send : ℕ → String → Result (Unit {0})) where
  heard-Operates :
      (id : String) (s t : SignalingServer)
      → Acts rtc id s t
      → Operates rtc 1 s.webrtc_server t.webrtc_server
  heard-Operates id s t (inl e) =
      subst (Operates rtc 1 s.webrtc_server) (sym (ap (λ u. u.webrtc_server) e))
        (Operates-refl rtc 1 s.webrtc_server)
  heard-Operates id s t (inr (o, (named, calm), e)) =
      subst (Operates rtc 1 s.webrtc_server) (sym (ap (λ u. u.webrtc_server) e))
        (Operates-one rtc 1 o s.webrtc_server (omega arith))

  -- A step is one operation of the server of the peers at most.
  Step-Operates :
      {s t : Busy}
      → Step rtc json send s t
      → Operates rtc 1 s.server.webrtc_server t.server.webrtc_server
  unfolding begin_connect store_session call_offer erase_session drop_peer stop_running
      close_sessions stop Ops.step
  Step-Operates {s} (connects draw ws fresh e) =
      rw e (Operates-one rtc 1 (creates draw (some ws)) s.server.webrtc_server (omega arith))
  Step-Operates {s} (stores id ws comes e) = rw e (Operates-refl rtc 1 s.server.webrtc_server)
  Step-Operates {s} (calls_offer answer id due e) =
      rw e (Operates-one rtc 1 (offers answer id) s.server.webrtc_server (omega arith))
  Step-Operates {s} (hears calls id ws message e) = rw e (
      heard-Operates id s.server _
        (on_client_message-Acts rtc json send calls id ws message s.server))
  Step-Operates {s} (erases id e) = rw e (Operates-refl rtc 1 s.server.webrtc_server)
  Step-Operates {s} (drops id due e) =
      rw e (Operates-one rtc 1 (removes id) s.server.webrtc_server (omega arith))
  Step-Operates {s} (behind o h e) =
      rw e (Operates-one rtc 1 o s.server.webrtc_server (omega arith))
  Step-Operates {s} (stops e) = rw e (Operates-refl rtc 1 s.server.webrtc_server)
  Step-Operates {s} (closes down e) = rw e (Operates-refl rtc 1 s.server.webrtc_server)

  -- The number of steps.
  abbrev pub count_steps : {s t : Busy} → Reach rtc json send s t → ℕ
  count_steps here = 0
  count_steps (next r st) = count_steps r + 1

  Reach-Operates :
      {s t : Busy} (r : Reach rtc json send s t)
      → Operates rtc (count_steps r) s.server.webrtc_server t.server.webrtc_server
  Reach-Operates here = Operates-refl rtc 0 _
  Reach-Operates (next r st) =
      Operates-trans rtc (count_steps r) 1 _ _ _ (Reach-Operates r) (Step-Operates st)

  -- However the steps of the handlers are interleaved, on a server that is new when no handler is
  -- under way, and in few enough steps for the 32-bit SSRCs not to repeat: the names of the peers are
  -- distinct, each peer is kept under its own identifier, no two peers share an SSRC, and there are
  -- at most `max_peers` of them.
  pub Reach-IsConsistent :
      (c : AppConfig) (s : SignalingServer) (t : Busy)
      → IsInt32 c.webrtc.max_peers
      → s.webrtc_server ≡ WebRtc.init c
      → (r : Reach rtc json send (idle s) t) → 42 + count_steps r < 2 ^ 32
      → IsConsistent c t.server.webrtc_server
  Reach-IsConsistent c s t i fresh r fits =
      let (os, e, n) = Reach-Operates r in
      subst (IsConsistent c) (sym (e ∙ ap (Ops.run rtc os) fresh))
        (run-IsConsistent rtc os c i (omega arith))
