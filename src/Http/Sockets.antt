-- ===== src/Http/Sockets.antt =====
-- The socket of the HTTP server: `start` and `stop` of src/http_server.cpp.
use ioh_robodog_webrtc.Prelude.{
  ℕ, ◌≡◌, refl, Bool, true, false, ◌&&◌, none, some, List, [], ◌∷◌, ◌++◌, inl, inr, Option-cases,
  Bool-cases,
}
use ioh_robodog_webrtc.Http.{HttpServer, Listening, start, start_thread, stop}

-- The descriptors that the kernel gave.
abbrev pub opened : Listening → List ℕ
opened l = elim l.socket [ none ↦ [] | some fd ↦ fd ∷ [] ]

abbrev pub succeeds : Listening → Bool
succeeds l = elim l.socket [ none ↦ false | some fd ↦ l.bind && l.listen ]

-- A server without a thread always starts or reports a failure, and is then running exactly when
-- it reports success; whatever step fails, `start` and a later `stop` together close each
-- descriptor that was opened exactly once, and leave the server as `stop` alone would.
pub start-stop :
    (l : Listening) (s : HttpServer)
    → s.joinable ≡ false
    → s.running ≡ false
    → (t : HttpServer) × (closed : List ℕ) × (start l s ≡ some (succeeds l, t, closed))
      × (t.running ≡ succeeds l)
      × (t.joinable ≡ succeeds l)
      × (closed ++ (stop t).1 ≡ opened l)
      × ((stop t).0 ≡ (stop s).0)
unfolding start start_thread stop
start-stop l s idle down = elim (Option-cases l.socket) [
  | inr (fd, e) ↦ elim (Bool-cases (l.bind && l.listen)) [
    | inl b ↦ (
      record s { server_fd = some fd; running = true; joinable = true },
      [],
      rw (e, b, idle) refl,
      rw (e, b) refl,
      rw (e, b) refl,
      rw e refl,
      refl,
    )
    | inr b ↦ (
      record s { server_fd = none },
      fd ∷ [],
      rw (e, b) refl,
      rw (e, b) down,
      rw (e, b) idle,
      rw e refl,
      refl,
    )
  ]
  | inl e ↦ (record s { server_fd = none }, [], rw e refl, rw e down, rw e idle, rw e refl, refl)
]
