-- ===== src/Http.antt =====
-- src/http_server.hpp and src/http_server.cpp: the file server of the web viewer.
-- The file system is the parameter `Fs`; what the socket calls answer are arguments.
mod Resolve
mod Types
mod Listener
pub mod Bytes
pub mod Response
pub mod Request
pub mod Paths
pub mod Mime
pub mod Serving
pub mod Sockets
mod Tests
unfoldable pub use Resolve.*
unfoldable pub use Types.*
unfoldable pub use Listener.*
use mathlib.Core.Option
use ioh_robodog_webrtc.Prelude.{
  ℕ, ◌+◌, ◌-◌, ◌<◌, Option, none, some, List, [], ◌∷◌, ◌++◌, length, take, if◌then◌else◌, codes,
}
use ioh_robodog_webrtc.Prelude.Decimal.{decimal}
use ioh_robodog_webrtc.Prelude.Results.{Result, ok, err, ◌>>=◌}
use Bytes.{eq, find_byte, find_byte_from, has_prefix, find, substr, c_string}

abbrev pub crlf : List ℕ
crlf = 13 ∷ 10 ∷ []

-- The one message of `send_response`.
unfoldable pub send_response : ℕ → List ℕ → List ℕ → List ℕ → List (List ℕ)
unfolding decimal
send_response status status_text content_type body =
    (codes "HTTP/1.1 "
      ++ decimal status
      ++ codes " "
      ++ status_text
      ++ crlf
      ++ codes "Content-Type: "
      ++ content_type
      ++ crlf
      ++ codes "Content-Length: "
      ++ decimal (length body)
      ++ crlf
      ++ codes "Access-Control-Allow-Origin: *"
      ++ crlf
      ++ codes "Connection: close"
      ++ crlf
      ++ crlf
      ++ body)
    ∷ []

-- The header and the body of a file, sent one after the other.
unfoldable pub file_header : List ℕ → ℕ → List ℕ
unfolding decimal
file_header mime size =
    codes "HTTP/1.1 200 OK"
    ++ crlf
    ++ codes "Content-Type: "
    ++ mime
    ++ crlf
    ++ codes "Content-Length: "
    ++ decimal size
    ++ crlf
    ++ codes "Access-Control-Allow-Origin: *"
    ++ crlf
    ++ codes "Cache-Control: no-cache"
    ++ crlf
    ++ codes "Connection: close"
    ++ crlf
    ++ crlf

unfoldable pub send_file : Fs → List ℕ → List (List ℕ)
unfolding send_response file_header get_mime_type
send_file fs path = elim (fs.read path) [
  | none ↦
      send_response 500 (codes "Internal Server Error") (codes "text/plain")
        (codes "Cannot read file")
  | some body ↦ file_header (get_mime_type path) (length body) ∷ body ∷ []
]

-- `find(…) + 1`, where `npos + 1` is 0.
abbrev next_position : Option ℕ → ℕ
next_position none = 0
next_position (some i) = i + 1

-- The URI of a request line that begins with "GET ": up to the next space, less its query.
unfoldable pub request_uri : List ℕ → Result (List ℕ)
request_uri first_line = do
  let path_start = next_position (find_byte b' ' first_line)
  let path_end = find_byte_from b' ' path_start first_line
  uri ← substr path_start (Option.map (λ e. e - path_start) path_end) first_line
  elim (find_byte b'?' uri) [ none ↦ ok uri | some query ↦ substr 0 (some query) uri ]

-- What a client gets: nothing, or messages; or an exception leaves the detached thread and ends the
-- process.
pub data Outcome : Type 0 where
  silent : Outcome
  responded : List (List ℕ) → Outcome
  terminated : Outcome

unfoldable pub serve : Fs → List ℕ → Outcome
unfolding send_response send_file
serve fs file_path =
    if eq file_path []
    then responded (
        send_response 404 (codes "Not Found") (codes "text/html")
          (codes "<html><body><h1>404 Not Found</h1></body></html>"))
    else responded (send_file fs file_path)

unfoldable pub outcome : Fs → Result (List ℕ) → Outcome
unfolding serve
outcome fs (ok file_path) = serve fs file_path
outcome fs (err what) = terminated

-- From the first line on.
unfoldable pub handle_line : Fs → List ℕ → List ℕ → Outcome
unfolding has_prefix find_byte_from substr request_uri resolve_path outcome
handle_line fs root first_line =
    if has_prefix (codes "GET ") first_line
    then outcome fs (request_uri first_line >>= resolve_path fs root)
    else responded (
        send_response 405 (codes "Method Not Allowed") (codes "text/plain")
          (codes "Only GET supported"))

-- From the text of the request on.
unfoldable pub handle_request : Fs → List ℕ → List ℕ → Outcome
handle_request fs root request = elim (find crlf request) [
  | none ↦ silent
  | some first_line_end ↦ handle_line fs root (take first_line_end request)
]

-- `received` is what the client has sent when `recv` returns, `none` where it fails; the buffer
-- takes 4095 bytes of it.
unfoldable pub handle_client : Fs → List ℕ → Option (List ℕ) → Outcome
handle_client fs root none = silent
handle_client fs root (some []) = silent
handle_client fs root (some (b ∷ received)) =
    handle_request fs root (c_string (take 4095 (b ∷ received)))
