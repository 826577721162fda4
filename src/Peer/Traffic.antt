-- ===== src/Peer/Traffic.antt =====
-- What a peer of src/peer_connection.cpp sends over its life: counters, silence before the
-- connection, order of the timestamps.
use ioh_robodog_webrtc.Prelude.{
  ℕ, ◌+◌, ◌-◌, ◌%◌, ◌^◌, ◌≤◌, ◌<◌, ◌≡◌, refl, ap, arith, true, false, Option, none, some, List, [],
  ◌∷◌, ◌++◌, length, length-append, ◌⊎◌, inl, inr,
}
use ioh_robodog_webrtc.Prelude.Results.{ok, err}
use ioh_robodog_webrtc.Peer.{
  Rtc, Peer, Globals, Packet, TrackAnswer, is_up, fresh_stats, get_stats, on_state_change,
  on_track_open, start_offer, handle_answer, handle_candidate, keyframe_sent, send_h264_nal,
  rtp_time,
}
use ioh_robodog_webrtc.Peer.Clock.{rtp_time_mono}
use ioh_robodog_webrtc.Peer.Life.{
  Event, state_changed, track_opened, offers, answered, candidate, keyframe, sends, step, run,
  packets, total_bytes,
}

-- The counters are those of the packets that were sent so far.
abbrev Counts : Peer → ℕ → ℕ → Type 0
Counts p n b = (p.stats.rtp_packets_sent ≡ n % 2 ^ 64) × (p.stats.bytes_sent ≡ b % 2 ^ 64)

step-Counts :
    (rtc : Rtc) (e : Event) (p : Peer) (g : Globals) (n b : ℕ)
    → Counts p n b
    → let (q, h, packet) = step rtc e p g in
      Counts q (n + length (packets packet)) (b + total_bytes (packets packet))
unfolding step on_state_change on_track_open start_offer handle_answer handle_candidate
    keyframe_sent send_h264_nal
step-Counts rtc (state_changed s) p g n b c = ground arith
step-Counts rtc (sends answer bytes ts) p g n b c = ground arith
step-Counts rtc _ p g n b c = ground arith

total_bytes-append :
    (ps qs : List Packet) → total_bytes (ps ++ qs) ≡ total_bytes ps + total_bytes qs
total_bytes-append [] qs = omega arith
total_bytes-append (p ∷ ps) qs = omega (arith, total_bytes-append ps qs)

run-Counts :
    (rtc : Rtc) (es : List Event) (p : Peer) (g : Globals) (n b : ℕ)
    → Counts p n b
    → let (q, h, ps) = run rtc es p g in Counts q (n + length ps) (b + total_bytes ps)
unfolding run
run-Counts rtc [] p g n b c = omega arith
run-Counts rtc (e ∷ es) p g n b c =
    let (q, h, packet) = step rtc e p g in
    let rest =
      run-Counts rtc es (step rtc e p g).0 (step rtc e p g).1
        (n + length (packets (step rtc e p g).2)) (b + total_bytes (packets (step rtc e p g).2))
        (step-Counts rtc e p g n b c) in
    omega (
      arith,
      rest,
      length-append (packets (step rtc e p g).2)
          (run rtc es (step rtc e p g).0 (step rtc e p g).1).2,
      total_bytes-append (packets (step rtc e p g).2)
          (run rtc es (step rtc e p g).0 (step rtc e p g).1).2,
    )

-- The counters of a peer that was new are, modulo 2 ^ 64, the number and the total size of the
-- packets that its track took.
pub run-counters :
    (rtc : Rtc) (es : List Event) (p : Peer) (g : Globals)
    → p.stats ≡ fresh_stats
    → let (q, h, ps) = run rtc es p g in
      ((get_stats q).rtp_packets_sent ≡ length ps % 2 ^ 64)
      × ((get_stats q).bytes_sent ≡ total_bytes ps % 2 ^ 64)
unfolding get_stats
run-counters rtc es p g f =
    let c = run-Counts rtc es p g 0 0 (ap (λ t. t.rtp_packets_sent) f, ap (λ t. t.bytes_sent) f) in
    omega (arith, c)

-- No event reports that the connection is up.
abbrev pub NeverUp : List Event → Type 0
NeverUp [] = Unit
NeverUp (state_changed s ∷ es) = (is_up s ≡ false) × NeverUp es
NeverUp (_ ∷ es) = NeverUp es

down_silent :
    (rtc : Rtc) (answer : TrackAnswer) (bytes : List ℕ) (ts : ℕ) (p : Peer) (g : Globals)
    → p.connected ≡ false
    → send_h264_nal rtc answer bytes ts p g ≡ (p, g, none)
unfolding send_h264_nal
down_silent rtc answer bytes ts p g d = ground arith

-- A peer whose connection never came up has sent nothing, and has not started the clock.
pub run-NeverUp :
    (rtc : Rtc) (es : List Event) (p : Peer) (g : Globals)
    → p.connected ≡ false
    → NeverUp es
    → let (q, h, ps) = run rtc es p g in (ps ≡ []) × (h ≡ g) × (q.connected ≡ false)
unfolding run step on_state_change on_track_open start_offer handle_answer handle_candidate
    keyframe_sent
run-NeverUp rtc [] p g d n = (refl, refl, d)
run-NeverUp rtc (state_changed s ∷ es) p g d n = run-NeverUp rtc es (on_state_change s p) g n.0 n.1
run-NeverUp rtc (track_opened ∷ es) p g d n = run-NeverUp rtc es (on_track_open p) g d n
run-NeverUp rtc (offers (ok a) ∷ es) p g d n = run-NeverUp rtc es p g d n
run-NeverUp rtc (offers (err w) ∷ es) p g d n = run-NeverUp rtc es p g d n
run-NeverUp rtc (answered (ok a) ∷ es) p g d n =
    run-NeverUp rtc es (record p { needs_keyframe = true }) g d n
run-NeverUp rtc (answered (err w) ∷ es) p g d n = run-NeverUp rtc es p g d n
run-NeverUp rtc (candidate (ok a) ∷ es) p g d n = run-NeverUp rtc es p g d n
run-NeverUp rtc (candidate (err w) ∷ es) p g d n = run-NeverUp rtc es p g d n
run-NeverUp rtc (keyframe ∷ es) p g d n = run-NeverUp rtc es (keyframe_sent p) g d n
run-NeverUp rtc (sends answer bytes ts ∷ es) p g d n =
    rw (down_silent rtc answer bytes ts p g d) (run-NeverUp rtc es p g d n)

-- The frames that the server offers come in order of time, from lo to hi.
abbrev pub Rising : ℕ → ℕ → List Event → Type 0
Rising lo hi [] = lo ≤ hi
Rising lo hi (sends answer bytes ts ∷ es) = (lo ≤ ts) × (ts ≤ hi) × Rising ts hi es
Rising lo hi (_ ∷ es) = Rising lo hi es

-- The packets' timestamps never fall, from m on.
abbrev pub IsSortedFrom : ℕ → List Packet → Type 0
IsSortedFrom m [] = Unit
IsSortedFrom m (p ∷ ps) = (m ≤ p.timestamp) × IsSortedFrom p.timestamp ps

IsSortedFrom-mono : (m n : ℕ) (ps : List Packet) → m ≤ n → IsSortedFrom n ps → IsSortedFrom m ps
IsSortedFrom-mono m n [] h s = tt
IsSortedFrom-mono m n (p ∷ ps) h s = (omega arith, s.1)

-- A frame is dropped, or sent under its own timestamp; a running clock keeps its origin.
send_cases :
    (rtc : Rtc) (answer : TrackAnswer) (bytes : List ℕ) (ts : ℕ) (p : Peer) (g : Globals)
    (rate start : ℕ)
    → rtc.default_clock_rate ≡ rate
    → g.start_time ≡ start
    → 0 < start
    → let (q, h, packet) = send_h264_nal rtc answer bytes ts p g in
      (h.start_time ≡ start)
      × ((packet ≡ none)
          ⊎ (packet ≡ some (record { timestamp = rtp_time rate ts start; bytes = bytes })))
unfolding send_h264_nal
send_cases rtc answer bytes ts p g rate start r e h = ground arith

sorted_sends :
    (m k : ℕ) (packet : Option Packet) (bytes : List ℕ) (rest : List Packet)
    → m ≤ k
    → (packet ≡ none) ⊎ (packet ≡ some (record { timestamp = k; bytes = bytes }))
    → IsSortedFrom k rest
    → IsSortedFrom m (packets packet ++ rest)
sorted_sends m k packet bytes rest h (inl e) s = rw e (IsSortedFrom-mono m k rest h s)
sorted_sends m k packet bytes rest h (inr e) s = rw e (h, s)

module _ (rtc : Rtc) (start hi : ℕ) (rate : rtc.default_clock_rate ≡ 90000) (positive : 0 < start)
    (near : hi - start ≤ 47721858800) (fits : hi < 2 ^ 64) where
  run_sorted :
      (es : List Event) (p : Peer) (g : Globals) (lo : ℕ)
      → g.start_time ≡ start
      → start ≤ lo
      → Rising lo hi es
      → IsSortedFrom (rtp_time 90000 lo start) (run rtc es p g).2
  unfolding run step
  run_sorted [] p g lo e h r = tt
  run_sorted (sends answer bytes ts ∷ es) p g lo e h r =
      let (kept, cases) = send_cases rtc answer bytes ts p g 90000 start rate e positive in
      sorted_sends (rtp_time 90000 lo start) (rtp_time 90000 ts start)
        (send_h264_nal rtc answer bytes ts p g).2 bytes _
        (rtp_time_mono lo ts start h r.0 (omega arith) (omega arith)) cases
        (run_sorted es (send_h264_nal rtc answer bytes ts p g).0
          (send_h264_nal rtc answer bytes ts p g).1 ts kept (omega arith) r.2)
  run_sorted (state_changed s ∷ es) p g lo e h r = run_sorted es (on_state_change s p) g lo e h r
  run_sorted (track_opened ∷ es) p g lo e h r = run_sorted es (on_track_open p) g lo e h r
  run_sorted (offers a ∷ es) p g lo e h r = run_sorted es _ g lo e h r
  run_sorted (answered a ∷ es) p g lo e h r = run_sorted es _ g lo e h r
  run_sorted (candidate a ∷ es) p g lo e h r = run_sorted es _ g lo e h r
  run_sorted (keyframe ∷ es) p g lo e h r = run_sorted es (keyframe_sent p) g lo e h r

-- Once the clock runs, frames that come in order of time within thirteen hours of its origin leave
-- in order of their RTP timestamps, whatever else happens to the peer in between.
pub run-IsSorted :
    (rtc : Rtc) (es : List Event) (p : Peer) (g : Globals) (hi : ℕ)
    → rtc.default_clock_rate ≡ 90000
    → 0 < g.start_time
    → hi < 2 ^ 64
    → hi - g.start_time ≤ 47721858800
    → Rising g.start_time hi es
    → IsSortedFrom 0 (run rtc es p g).2
run-IsSorted rtc es p g hi rate positive fits near r =
    IsSortedFrom-mono 0 (rtp_time 90000 g.start_time g.start_time) _ (omega arith) (
      run_sorted rtc g.start_time hi rate positive near fits es p g g.start_time refl (omega arith)
        r)
