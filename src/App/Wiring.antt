-- ===== src/App/Wiring.antt =====
-- How `main` of src/main.cpp wires the components: a frame's way from the pipeline to the peers, and
-- a bit rate's from a browser to the encoder.
use ioh_robodog_webrtc.Prelude.{
  ℕ, ◌*◌, ◌+◌, ◌/◌, ◌%◌, ◌^◌, ◌≡◌, refl, ap, ap₂, arith, String, true, false, not, ◌&&◌, Option,
  none, some, List, [], ◌∷◌, map, length, if◌then◌else◌, All, Bool-cases, Option-cases, inl, inr,
  ◌==◌,
}
use ioh_robodog_webrtc.Prelude.Int.{ℤ, pos, ◌≤ℤ◌}
use ioh_robodog_webrtc.Prelude.Results.{Result}
use ioh_robodog_webrtc.Peer.{Rtc, TrackAnswer}
use ioh_robodog_webrtc.WebRtc.Broadcast.{peer_after, packet_for, broadcast_stamp, broadcast_nal-map}
use ioh_robodog_webrtc.Signaling.{
  JsonLibrary, Calls, Effect, sent, closed_socket, subscribed, bitrate_requested, on_client_message,
}
use ioh_robodog_webrtc.Rtsp.{
  RtspPipeline, Sample, Setting, on_new_sample, timestamp_us, count_frame, set_bitrate,
}
use ioh_robodog_webrtc.Rtsp.Bitrate.{set_bitrate-within}
use ioh_robodog_webrtc.App.{App, on_sample, on_message, settings}

-- The encoder's rate and its peak are those of a rate within the limits of the configuration.
abbrev pub IsWithin : RtspPipeline → Setting → Type 0
IsWithin p g =
    (r : ℕ) × (p.config.webrtc.video.min_bitrate_kbps ≤ℤ pos r)
    × (pos r ≤ℤ p.config.webrtc.video.max_bitrate_kbps)
    × (g.bitrate ≡ r * (if p.is_hw_encode then 1000 else 1))
    × (g.most ≡ r * (if p.is_hw_encode then 1200 else 1))

module _ (p : RtspPipeline) (low : pos 0 ≤ℤ p.config.webrtc.video.min_bitrate_kbps)
    (order : p.config.webrtc.video.min_bitrate_kbps ≤ℤ p.config.webrtc.video.max_bitrate_kbps)
    (high : p.config.webrtc.video.max_bitrate_kbps ≤ℤ pos 1789569) where
  -- A request either does nothing or gives a setting within the limits.
  added-IsWithin :
      (n : ℤ) (rest : List Setting)
      → All (IsWithin p) rest
      → All (IsWithin p) (elim (set_bitrate n p) [ none ↦ rest | some g ↦ g ∷ rest ])
  unfolding set_bitrate
  added-IsWithin n rest h = elim (Option-cases p.encoder) [
    | inl e ↦ rw (e, set_bitrate) h
    | inr (element, e) ↦ elim (Bool-cases p.running) [
      | inr down ↦ rw (e, set_bitrate) (rw down h)
      | inl up ↦
          let (r, above, below, set) = set_bitrate-within n p element e up low order high in
          rw set ((r, above, below, refl, refl), h)
    ]
  ]

  settings-IsWithin : (effects : List Effect) → All (IsWithin p) (settings p effects)
  unfolding settings
  settings-IsWithin [] = tt
  settings-IsWithin (bitrate_requested n ∷ effects) =
      added-IsWithin n (settings p effects) (settings-IsWithin effects)
  settings-IsWithin (sent ws message ∷ effects) = settings-IsWithin effects
  settings-IsWithin (closed_socket ws ∷ effects) = settings-IsWithin effects
  settings-IsWithin (subscribed ws id ∷ effects) = settings-IsWithin effects

-- Under limits 0 ≤ min ≤ max ≤ 1789569 whatever a client sends, of any type and with any number in
-- it, the encoder gets no rate outside them; the message changes nothing of the pipeline.
pub on_message-IsWithin :
    (json : JsonLibrary) (send : ℕ → String → Result (Unit {0})) (calls : Calls) (id : String)
    (ws : ℕ) (message : String) (a : App)
    → pos 0 ≤ℤ a.rtsp.config.webrtc.video.min_bitrate_kbps
    → a.rtsp.config.webrtc.video.min_bitrate_kbps ≤ℤ a.rtsp.config.webrtc.video.max_bitrate_kbps
    → a.rtsp.config.webrtc.video.max_bitrate_kbps ≤ℤ pos 1789569
    → let (b, set) = on_message json send calls id ws message a in
      All (IsWithin a.rtsp) set × (b.rtsp ≡ a.rtsp)
unfolding on_message
on_message-IsWithin json send calls id ws message a low order high = (
  settings-IsWithin a.rtsp low order high
      (on_client_message json send calls id ws message a.signaling).1,
  refl,
)

on_new_sample-call :
    (now b : ℕ) (bs : List ℕ) (pts : Option ℕ) (p : RtspPipeline)
    → p.nal_callback ≡ true
    → on_new_sample now (some (some (some (record { pts = pts; bytes = b ∷ bs })))) p ≡ (
      record p { stats = count_frame (length (b ∷ bs)) p.stats },
      some (b ∷ bs, timestamp_us now pts),
    )
unfolding on_new_sample
on_new_sample-call now b bs pts p set =
    let filled : (length (b ∷ bs) == 0) ≡ false = ground arith in
    ap
      (λ c. (
        record p { stats = count_frame (length (b ∷ bs)) p.stats },
        if c then some (b ∷ bs, timestamp_us now pts) else none,
      ))
      (ap₂ (λ x y. x && not y) set filled)

-- A frame that is not empty goes to every peer that is connected and whose track is open, whole, and
-- stamped by its own time in microseconds, or by the clock where it has none; it is counted at the
-- peers whose tracks take it, and at the pipeline with its size, which is then connected. No session
-- changes.
pub on_sample-delivers :
    (rtc : Rtc) (answers : String → TrackAnswer) (now b : ℕ) (bs : List ℕ) (pts : Option ℕ)
    (a : App)
    → a.rtsp.nal_callback ≡ true
    → let m : Sample = record { pts = pts; bytes = b ∷ bs } in
      let (t, packets) = on_sample rtc answers now (some (some (some m))) a in
      let s = a.signaling.webrtc_server in
      let us : ℕ = elim pts [ none ↦ now | some ns ↦ ns / 1000 ] in
      let stamp = broadcast_stamp rtc answers (b ∷ bs) us s.globals in
      (packets ≡ map (packet_for answers (b ∷ bs) stamp) s.peers)
      × (t.signaling.webrtc_server.peers ≡ map (peer_after answers (b ∷ bs) stamp) s.peers)
      × (t.signaling.clients ≡ a.signaling.clients)
      × (t.rtsp.stats ≡ record (a.rtsp.stats) {
        frames_received = (a.rtsp.stats.frames_received + 1) % 2 ^ 64;
        bytes_received = (a.rtsp.stats.bytes_received + length (b ∷ bs)) % 2 ^ 64;
        connected = true;
      })
unfolding on_sample timestamp_us count_frame
on_sample-delivers rtc answers now b bs none a set =
    let (peers, packets) = broadcast_nal-map rtc answers (b ∷ bs) now a.signaling.webrtc_server in
    let call = on_new_sample-call now b bs none a.rtsp set in
    rw (call, on_sample) (packets, peers, refl, ap (λ c. c.0.stats) call)
on_sample-delivers rtc answers now b bs (some ns) a set =
    let (peers, packets) =
      broadcast_nal-map rtc answers (b ∷ bs) (ns / 1000) a.signaling.webrtc_server in
    let call = on_new_sample-call now b bs (some ns) a.rtsp set in
    rw (call, on_sample) (packets, peers, refl, ap (λ c. c.0.stats) call)
