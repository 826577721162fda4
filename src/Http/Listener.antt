-- ===== src/Http/Listener.antt =====
-- The socket and the threads of src/http_server.cpp.

use ioh_robodog_webrtc.Prelude.{
  ℕ, Bool, true, false, ◌&&◌, Option, none, some, List, [], ◌∷◌, if◌then◌else◌,
}

pub record HttpServer : Type 0 where
  pub port : ℕ
  pub web_root : List ℕ
  pub server_fd : Option ℕ
  pub running : Bool
  pub joinable : Bool

-- The answers of `socket`, `bind` and `listen`; `none` and `false` are their failures.
pub record Listening : Type 0 where
  pub socket : Option ℕ
  pub bind : Bool
  pub listen : Bool

unfoldable pub init : ℕ → List ℕ → HttpServer
init port root = record {
  port = port;
  web_root = root;
  server_fd = none;
  running = false;
  joinable = false;
}

-- The thread starts; over one that is joinable that ends the process.
unfoldable pub start_thread : ℕ → HttpServer → Option (Bool × HttpServer × List ℕ)
start_thread fd s =
    if s.joinable
    then none
    else some (true, record s { server_fd = some fd; running = true; joinable = true }, [])

-- The result, the server, and the descriptors that are closed on the way.
unfoldable pub start : Listening → HttpServer → Option (Bool × HttpServer × List ℕ)
unfolding start_thread
start l s = elim l.socket [
  | none ↦ some (false, record s { server_fd = none }, [])
  | some fd ↦
      if l.bind && l.listen
      then start_thread fd s
      else some (false, record s { server_fd = none }, fd ∷ [])
]

unfoldable pub stop : HttpServer → HttpServer × List ℕ
stop s = (
  record s { running = false; joinable = false; server_fd = none },
  elim s.server_fd [ none ↦ [] | some fd ↦ fd ∷ [] ],
)

-- `server_thread`: for each round what `running_` reads and what `accept` gives; the result is the
-- clients that are handed to a detached thread, in order.
unfoldable pub server_thread : List (Bool × Option ℕ) → List ℕ
server_thread [] = []
server_thread ((false, accepted) ∷ rounds) = []
server_thread ((true, none) ∷ rounds) = server_thread rounds
server_thread ((true, some client) ∷ rounds) = client ∷ server_thread rounds
