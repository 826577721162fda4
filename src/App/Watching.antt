-- ===== src/App/Watching.antt =====
-- The watchdog's loop of src/main.cpp, and what its end leaves.
use ioh_robodog_webrtc.Prelude.{
  ℕ, ◌≡◌, if◌then◌else◌, if_taken, if_left, refl, sym, ap, ◌∙◌, subst, Bool, true, false, ◌||◌,
  Option, none, some, List, [], ◌∷◌, Bool-cases, inl, inr, leb, ◌+◌, ◌*◌, ◌^◌, not, ◌&&◌,
}
use ioh_robodog_webrtc.WebRtc
use ioh_robodog_webrtc.Signaling
use ioh_robodog_webrtc.Rtsp.Starts.{stop-stopped}
use ioh_robodog_webrtc.Http
use ioh_robodog_webrtc.App.{App, watchdog, shutdown}
use ioh_robodog_webrtc.App.Life.{restart_succeeds}
use ioh_robodog_webrtc.App.Main.{
  Tick, Ending, returned, terminated, watching, signal_handler, signalled, destroy, watch,
}

-- Nothing runs, no thread is left, there are no sessions and no peers, and nothing listens.
pub record IsDown (a : App) : Type 0 where
  pub pipeline_thread : a.rtsp.joinable ≡ false
  pub pipeline : a.rtsp.pipeline ≡ none
  pub reading : a.rtsp.running ≡ false
  pub http_thread : a.http.joinable ≡ false
  pub listening : a.http.server_fd ≡ none
  pub serving : a.http.running ≡ false
  pub signaling : a.signaling.running ≡ false
  pub sessions : a.signaling.clients ≡ []
  pub peers : a.signaling.webrtc_server.peers ≡ []
  pub cleanup_thread : a.signaling.webrtc_server.cleaning ≡ false

pub destroy-IsDown : (a : App) → IsDown (destroy a)
unfolding destroy Http.stop Signaling.stop WebRtc.stop
destroy-IsDown a = record {
  pipeline_thread = (stop-stopped a.rtsp).0;
  pipeline = (stop-stopped a.rtsp).1;
  reading = (stop-stopped a.rtsp).2;
  http_thread = refl;
  listening = refl;
  serving = refl;
  signaling = refl;
  sessions = refl;
  peers = refl;
  cleanup_thread = refl;
}

-- The watchdog never ends the process, in whatever state it finds the components.
pub watchdog-some :
    (last now : ℕ) (g : Bool) (a : App)
    → (b : App) × ((watchdog last now g a).1 ≡ some b) × (b.signaling ≡ a.signaling)
unfolding watchdog
watchdog-some last now g a = elim (Bool-cases (leb (last + 10 * 10 ^ 9) now)) [
  | inr early ↦ (a, rw early refl, refl)
  | inl due ↦ elim (Bool-cases (not a.rtsp.running && not g)) [
    | inl down ↦
        let (b, e, joinable, going, signaling, http) = restart_succeeds a in
        (b, rw (due, down) e, signaling)
    | inr up ↦ (a, rw (due, up) refl, refl)
  ]
]

-- What becomes of the loop by what happens from outside, where g says that a signal came earlier:
-- in the first round in which one of the two happens, another thread ends the process, or `main`
-- sees the signal and returns.
pub data Fate : Type 0 where
  goes_on returns dies : Fate

abbrev pub fate : List Tick → Bool → Fate
fate [] g = goes_on
fate (t ∷ ticks) g =
    let rest = fate ticks t.later_signal in
    if t.dies then dies else if g || t.signal then returns else rest

-- From the watchdog's loop on.
abbrev pub IsWatched : Fate → Ending → Type 0
IsWatched goes_on e = (a : App) × (e ≡ watching a)
IsWatched returns e = (a : App) × (e ≡ returned 0 a) × IsDown a
IsWatched dies e = e ≡ terminated

signalled-or : (came g : Bool) → signalled came g ≡ (g || came)
unfolding signal_handler
signalled-or true true = refl
signalled-or true false = refl
signalled-or false true = refl
signalled-or false false = refl

-- One round, by what `g_shutdown` is at its first test and at its end.
module _ (t : Tick) (ticks : List Tick) (g : Bool) (last : ℕ) (a : App) where
  abbrev first : Bool
  first = signalled t.signal g

  abbrev flag : Bool
  flag = signalled t.later_signal first

  abbrev round : ℕ × Option App
  round = watchdog last t.now flag (t.meanwhile a)

  -- The end of the round.
  abbrev onward : Bool → Bool → Option App → Ending
  onward dead off b = elim dead as (λ y. Ending) [
    | true ↦ terminated
    | false ↦ elim off as (λ y. Ending) [
      | true ↦ returned 0 (destroy (shutdown a).0)
      | false ↦ elim b as (λ y. Ending) [ none ↦ terminated | some c ↦ watch ticks flag round.0 c ]
    ]
  ]

  watch-onward : watch (t ∷ ticks) g last a ≡ onward t.dies first round.1
  unfolding watch
  watch-onward = refl

  dies-IsWatched : t.dies ≡ true → IsWatched (fate (t ∷ ticks) g) (watch (t ∷ ticks) g last a)
  dies-IsWatched dead =
      subst (λ f. IsWatched f (watch (t ∷ ticks) g last a)) (sym (if_taken _ _ dead))
        (watch-onward ∙ ap (λ d. onward d first round.1) dead)

  returns-IsWatched :
      t.dies ≡ false
      → (g || t.signal) ≡ true
      → IsWatched (fate (t ∷ ticks) g) (watch (t ∷ ticks) g last a)
  returns-IsWatched lives on =
      subst (λ f. IsWatched f (watch (t ∷ ticks) g last a))
        (sym (if_left _ _ lives ∙ if_taken _ _ on))
        (
          destroy (shutdown a).0,
          watch-onward
              ∙ ap (λ d. onward d first round.1) lives
              ∙ ap (λ f. onward false f round.1) (signalled-or t.signal g ∙ on),
          destroy-IsDown (shutdown a).0,
        )

  goes_on-IsWatched :
      t.dies ≡ false
      → (g || t.signal) ≡ false
      → ((b : App) → IsWatched (fate ticks flag) (watch ticks flag round.0 b))
      → IsWatched (fate (t ∷ ticks) g) (watch (t ∷ ticks) g last a)
  goes_on-IsWatched lives off rest =
      let (b, e, kept) = watchdog-some last t.now flag (t.meanwhile a) in
      let still : first ≡ false = signalled-or t.signal g ∙ off in
      let later : flag ≡ t.later_signal =
        signalled-or t.later_signal first ∙ ap (λ x. x || t.later_signal) still in
      subst (λ f. IsWatched f (watch (t ∷ ticks) g last a))
        (ap (fate ticks) later ∙ sym (if_left _ _ lives ∙ if_left _ _ off))
        (subst (IsWatched (fate ticks flag))
          (sym (
            watch-onward
            ∙ ap (λ d. onward d first round.1) lives
            ∙ ap (λ f. onward false f round.1) still
            ∙ ap (onward false false) e))
          (rest b))

pub watch-IsWatched :
    (ticks : List Tick) (g : Bool) (last : ℕ) (a : App)
    → IsWatched (fate ticks g) (watch ticks g last a)
unfolding watch
watch-IsWatched [] g last a = (a, refl)
watch-IsWatched (t ∷ ticks) g last a = elim (Bool-cases t.dies) [
  | inl dead ↦ dies-IsWatched t ticks g last a dead
  | inr lives ↦ elim (Bool-cases (g || t.signal)) [
    | inl on ↦ returns-IsWatched t ticks g last a lives on
    | inr off ↦ goes_on-IsWatched t ticks g last a lives off (watch-IsWatched ticks _ _)
  ]
]
