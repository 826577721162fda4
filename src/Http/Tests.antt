-- ===== src/Http/Tests.antt =====
-- Requests to the HTTP server.
use ioh_robodog_webrtc.Prelude.{
  none, length, ℕ, List, [], ◌∷◌, ◌++◌, ◌≡◌, ◌↔◌, refl, arith, true, false, some, codes, map,
  if◌then◌else◌,
}
use ioh_robodog_webrtc.Prelude.Results.{ok}
use ioh_robodog_webrtc.Http.{
  Fs, get_mime_type, request_uri, handle_client, resolve_path, terminated, send_response, join,
}
use ioh_robodog_webrtc.Http.Bytes.{eq, find_byte-Lacks}
use ioh_robodog_webrtc.Http.Paths.{
  IsServed, IsInside, relative, resolve_path_iff, resolve_path_outside,
}
use ioh_robodog_webrtc.Http.{Listening, HttpServer, start, stop, init}
use ioh_robodog_webrtc.Http.Sockets.{start-stop}
use ioh_robodog_webrtc.Http.Request.{before, handle_client-terminated_iff}
use ioh_robodog_webrtc.Http.Response.{
  read_lines, response_lines, file_lines, read_lines-send_response,
}
use ioh_robodog_webrtc.Http.Serving.{
  get_request, IsRequest, Reads, not_found, handle_client-served, handle_client-unserved,
}
use ioh_robodog_webrtc.Http.Bytes.{substr}
use ioh_robodog_webrtc.Http.Bytes.{find_byte}
use ioh_robodog_webrtc.Http.Bytes.{find_byte_from}

uri_test : request_uri (codes "GET /a?b HTTP/1.1") ≡ ok (codes "/a")
unfolding request_uri substr find_byte find_byte_from
uri_test = refl

-- A disk where every path is canonical and every file holds its own path.
abbrev disk : Fs
disk = record { canonical = λ p. ok p; is_regular_file = λ p. ok true; read = λ p. some p }

resolve_path_iff_example :
    (resolve_path disk (codes "/srv") (codes "/app.js") ≡ ok (codes "/srv/app.js"))
    ↔ IsServed disk
        (codes "/srv")
        (join (codes "/srv") (relative (codes "/app.js")))
        (codes "/srv/app.js")
resolve_path_iff_example =
    resolve_path_iff disk (codes "/srv") b'/' (codes "app.js") (codes "/srv/app.js") (λ e. cc)

-- A disk where the requested name is a link into a sibling of the root.
abbrev linked : Fs
linked = record {
  canonical = λ p. if eq p (codes "/srv") then ok p else ok (codes "/srv-old/key");
  is_regular_file = λ p. ok true;
  read = λ p. some p;
}

resolve_path_outside_example :
    (resolve_path linked (codes "/srv") (codes "/key") ≡ ok (codes "/srv-old/key"))
    × ¬ IsInside (codes "/srv") (codes "/srv-old/key")
unfolding eq join
resolve_path_outside_example =
    resolve_path_outside linked (codes "/srv") b'/' (codes "key") (codes "/srv") b'-'
      (codes "old/key") (λ e. cc) (λ e. cc) refl refl refl

handle_client-terminated_iff_example :
    (handle_client disk (codes "/srv") (some (codes "GET ?x HTTP/1.1" ++ 13 ∷ 10 ∷ []))
      ≡ terminated)
    ↔ (before b'?' (codes "?x") ≡ [])
unfolding find_byte
handle_client-terminated_iff_example =
    handle_client-terminated_iff disk (codes "/srv") (codes "?x") (codes "HTTP/1.1") []
      (find_byte-Lacks b' ' (codes "?x") refl) (find_byte-Lacks 13 (codes "GET ?x HTTP/1.1") refl)
      (find_byte-Lacks 0 (codes "GET ?x HTTP/1.1" ++ 13 ∷ 10 ∷ []) refl) (omega arith)

read_lines-send_response_example :
    map (read_lines 6) (send_response 404 (codes "Not Found") (codes "text/html") (codes "no"))
    ≡ some (response_lines 404 (codes "Not Found") (codes "text/html") 2, codes "no") ∷ []
unfolding find_byte
read_lines-send_response_example =
    read_lines-send_response 404 (codes "Not Found") (codes "text/html") (codes "no")
      (find_byte-Lacks 13 (codes "Not Found") refl) (find_byte-Lacks 13 (codes "text/html") refl)

-- A port that another program listens on.
abbrev taken_port : Listening
taken_port = record { socket = some 5; bind = false; listen = true }

start-stop_example :
    (t : HttpServer) × (closed : List ℕ) × (start taken_port (init 8081 (codes "/srv"))
      ≡ some (false, t, closed))
    × (t.running ≡ false)
    × (t.joinable ≡ false)
    × (closed ++ (stop t).1 ≡ 5 ∷ [])
    × ((stop t).0 ≡ (stop (init 8081 (codes "/srv"))).0)
unfolding init
start-stop_example = start-stop taken_port (init 8081 (codes "/srv")) refl refl

-- The bytes of "GET /app.js?v=3 HTTP/1.1".
asked-IsRequest : IsRequest (codes "/app.js?v=3") (codes "HTTP/1.1") []
unfolding find_byte
asked-IsRequest = (
  find_byte-Lacks b' ' (codes "/app.js?v=3") refl,
  find_byte-Lacks 13 (codes "GET /app.js?v=3 HTTP/1.1") refl,
  find_byte-Lacks 0 (codes "GET /app.js?v=3 HTTP/1.1" ++ 13 ∷ 10 ∷ []) refl,
  omega arith,
)

handle_client-served_example :
    Reads
      (handle_client disk
        (codes "/srv")
        (some (get_request (codes "/app.js?v=3") (codes "HTTP/1.1") [])))
      7
      (file_lines (get_mime_type (codes "/srv/app.js")) 11)
      (codes "/srv/app.js")
unfolding join eq
handle_client-served_example =
    handle_client-served disk (codes "/srv") (codes "/app.js?v=3") (codes "HTTP/1.1") [] b'/'
      (codes "app.js") (codes "/srv/app.js") (codes "/srv/app.js") asked-IsRequest refl
      (codes "/srv", codes "/app.js", refl, refl, refl, refl) (λ e. cc) refl

-- A disk of directories.
abbrev folders : Fs
folders = record { canonical = λ p. ok p; is_regular_file = λ p. ok false; read = λ p. none }

handle_client-unserved_example :
    Reads
      (handle_client folders
        (codes "/srv")
        (some (get_request (codes "/app.js?v=3") (codes "HTTP/1.1") [])))
      6
      (response_lines 404 (codes "Not Found") (codes "text/html") (length not_found))
      not_found
handle_client-unserved_example =
    handle_client-unserved folders (codes "/srv") (codes "/app.js?v=3") (codes "HTTP/1.1") [] b'/'
      (codes "app.js") asked-IsRequest refl (λ p n (root_str, r, e, d, split, regular). cc)
