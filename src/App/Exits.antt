-- ===== src/App/Exits.antt =====
-- How the program of src/main.cpp ends.
use ioh_robodog_webrtc.Prelude.{
  ℕ, ◌≡◌, refl, sym, ap, subst, String, ◌≢◌, Bool-cases, text_empty, text_eq_iff, some, false, none,
  some, List, Option-cases, inl, inr, ◌⊎◌,
}
use ioh_robodog_webrtc.Prelude.Results.{Result, ok, err, Result-cases}
use native.Mathlib.Omega.{arith}
use ioh_robodog_webrtc.Prelude.Int.{scale_ℤ, to_int32, wrap_unsigned}
use ioh_robodog_webrtc.Config.{AppConfig, LoggingConfig}
use ioh_robodog_webrtc.Config.Load.{Yaml, Env, load_config}
use ioh_robodog_webrtc.Http
use ioh_robodog_webrtc.App.{App, parse_arguments, startup, FileSink, Logger, init_logger, logger}
use ioh_robodog_webrtc.App.Life.{startup-cases}
use ioh_robodog_webrtc.App.Arguments.{Parses, parse_arguments-Parses}
use ioh_robodog_webrtc.App.Main.{
  Tick, Ending, returned_early, returned, terminated, destroy, proceed, main,
}
use ioh_robodog_webrtc.App.Watching.{IsDown, destroy-IsDown, fate, IsWatched, watch-IsWatched}

-- With components that start, and with those that do not.
proceed-IsWatched :
    (listen : ℕ → Result (Unit {0})) (l : Http.Listening) (c : AppConfig) (ticks : List Tick)
    (began : ℕ)
    → ((w : String) × (a : App) × (listen c.server.signaling_port ≡ err w)
        × (proceed ticks began (startup listen l c) ≡ returned 1 a)
        × IsDown a)
      ⊎ ((listen c.server.signaling_port ≡ ok tt)
          × IsWatched (fate ticks false) (proceed ticks began (startup listen l c)))
unfolding proceed
proceed-IsWatched listen l c ticks began = elim (startup-cases listen l c) [
  | inl (w, a, refused, e) ↦
      inl (w, destroy a, refused, ap (proceed ticks began) e, destroy-IsDown a)
  | inr (listens, up) ↦ inr (
    listens,
    subst (IsWatched (fate ticks false)) (sym (ap (proceed ticks began) up.1))
        (watch-IsWatched ticks false began up.0),
  )
]

-- The log file that is configured, at its size in bytes and with its number of files.
abbrev pub configured : LoggingConfig → FileSink
configured c = record {
  file = c.file;
  max_size =
      wrap_unsigned 64 (to_int32 (scale_ℤ (to_int32 (scale_ℤ c.max_file_size_mb 1024)) 1024));
  max_files = wrap_unsigned 64 c.max_files;
}

-- A log file is configured, and cannot be opened.
abbrev pub IsLogRefused : (FileSink → Result (Unit {0})) → LoggingConfig → Type 0
IsLogRefused open_file c = (c.file ≢ "") × ((w : String) × (open_file (configured c) ≡ err w))

refused-IsLogRefused :
    (open_file : FileSink → Result (Unit {0})) (c : LoggingConfig) (w : String)
    → init_logger open_file c ≡ err w
    → IsLogRefused open_file c
unfolding init_logger logger
refused-IsLogRefused open_file c w e = elim (Bool-cases (text_empty c.file)) [
  | inl none_given ↦ absurd (ground (arith, e, none_given))
  | inr given ↦ elim (Result-cases (open_file (configured c))) [
    | inl (u, opens) ↦ absurd (ground (arith, e, given, opens))
    | inr (v, shut) ↦ (λ d. ground (arith, given, (text_eq_iff c.file "").1 d), (v, shut))
  ]
]

opened-IsLogRefused :
    (open_file : FileSink → Result (Unit {0})) (c : LoggingConfig) (logs : Logger)
    → init_logger open_file c ≡ ok logs
    → ¬ IsLogRefused open_file c
unfolding init_logger logger
opened-IsLogRefused open_file c logs e (given, (w, shut)) = elim (Bool-cases (text_empty c.file)) [
  | inl none_given ↦ given ((text_eq_iff c.file "").0 none_given)
  | inr some_file ↦ absurd (ground (arith, e, some_file, shut))
]

-- How the program may end, case by case, for its libraries, arguments and signals.
abbrev pub Ends :
    Yaml
    → Env
    → (FileSink → Result (Unit {0}))
    → (ℕ → Result (Unit {0}))
    → List String
    → List Tick
    → Ending
    → Type 0
Ends yaml env open_file listen arguments ticks e =
    (Parses arguments "config.yaml" none × (e ≡ returned_early 0))
    ⊎ ((path : String) × Parses arguments "config.yaml" (some path)
        × (((w : String) × (load_config yaml env path ≡ err w) × (e ≡ returned_early 1))
            ⊎ ((c : AppConfig) × (load_config yaml env path ≡ ok c)
                × ((IsLogRefused open_file c.logging × (e ≡ terminated))
                    ⊎ ((¬ IsLogRefused open_file c.logging)
                        × (((w : String) × (a : App) × (listen c.server.signaling_port ≡ err w)
                              × (e ≡ returned 1 a)
                              × IsDown a)
                            ⊎ ((listen c.server.signaling_port ≡ ok tt)
                                × IsWatched (fate ticks false) e)))))))

-- The program returns 0 with the help where an argument, not taken as a path, asks for that, and
-- otherwise takes the path
-- after the last `--config` or `-c`; it returns 1 where the configuration cannot be loaded; where
-- the log file cannot be opened an exception that no handler catches ends it; where the signaling
-- port cannot be had it returns 1 with all components down. Otherwise it is in the watchdog's loop
-- until, in the first round in which one of the two happens, another thread ends the process, or
-- a signal has come; in the latter case it returns 0 with all components down.
pub main-cases :
    (yaml : Yaml) (env : Env) (open_file : FileSink → Result (Unit {0}))
    (listen : ℕ → Result (Unit {0})) (l : Http.Listening) (arguments : List String)
    (ticks : List Tick) (began : ℕ)
    → Ends yaml env open_file listen arguments ticks
        (main yaml env open_file listen l arguments ticks began)
unfolding main
main-cases yaml env open_file listen l arguments ticks began =
    let parsed = parse_arguments-Parses arguments "config.yaml" in
    elim (Option-cases (parse_arguments arguments "config.yaml")) [
      | inl help ↦ inl (subst (Parses arguments "config.yaml") help parsed, rw (help, main) refl)
      | inr (path, p) ↦ inr (
        path,
        subst (Parses arguments "config.yaml") p parsed,
        elim (Result-cases (load_config yaml env path)) [
          | inr (w, failed) ↦ inl (w, failed, rw (p, main) (rw (failed, main) refl))
          | inl (c, loaded) ↦ inr (
            c,
            loaded,
            elim (Result-cases (init_logger open_file c.logging)) [
              | inr (w, refused) ↦ inl (
                refused-IsLogRefused open_file c.logging w refused,
                rw (p, main) (rw (loaded, main) (rw (refused, main) refl)),
              )
              | inl (logs, opened) ↦ inr (
                opened-IsLogRefused open_file c.logging logs opened,
                rw (p, main)
                    (rw (loaded, main)
                      (rw (opened, main) (proceed-IsWatched listen l c ticks began))),
              )
            ],
          )
        ],
      )
    ]
