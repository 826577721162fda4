-- ===== src/Http/Serving.antt =====
-- `handle_client` of src/http_server.cpp from the bytes of a request to what its client reads.
use mathlib.Core.List.{flatten, append-nil}
use ioh_robodog_webrtc.Prelude.{
  ℕ, ◌≤◌, ◌≡◌, ◌≢◌, refl, ap, ◌∙◌, arith, Option, none, some, List, [], ◌∷◌, ◌++◌, codes, length,
  map,
}
use ioh_robodog_webrtc.Prelude.Results.{ok}
use ioh_robodog_webrtc.Http.Bytes.{eq, Lacks}
use ioh_robodog_webrtc.Http.{
  Fs, Outcome, responded, join, check_path, or_empty, resolve_path, handle_client, outcome, serve,
  send_file, send_response, get_mime_type,
}
use ioh_robodog_webrtc.Http.Request.{get, before, handle_line-target, handle_client-line}
use ioh_robodog_webrtc.Http.Paths.{relative, IsServed, resolve_path_iff, resolve_path-relative}
use ioh_robodog_webrtc.Http.Response.{
  read_lines, file_lines, response_lines, read_lines-send_response,
}
use ioh_robodog_webrtc.Http.Mime.{read_lines-send_file}

-- The bytes of a request "GET target rest", with further lines.
abbrev pub get_request : List ℕ → List ℕ → List ℕ → List ℕ
get_request target rest more = (get ++ target ++ b' ' ∷ rest) ++ 13 ∷ 10 ∷ more

-- A request whose first line is its only text before the first CR LF, and that fits the buffer.
abbrev pub IsRequest : List ℕ → List ℕ → List ℕ → Type 0
IsRequest target rest more =
    Lacks b' ' target
    × Lacks 13 (get ++ target ++ b' ' ∷ rest)
    × Lacks 0 (get_request target rest more)
    × (length (get_request target rest more) ≤ 4095)

abbrev pub not_found : List ℕ
not_found = codes "<html><body><h1>404 Not Found</h1></body></html>"

handle_client-outcome :
    (fs : Fs) (root target rest more : List ℕ)
    → IsRequest target rest more
    → handle_client fs root (some (get_request target rest more))
      ≡ outcome fs (resolve_path fs root (before b'?' target))
handle_client-outcome fs root target rest more (spaces, returns, zeros, fits) =
    handle_client-line fs root (get ++ target ++ b' ' ∷ rest) more returns zeros fits
    ∙ handle_line-target fs root target rest spaces

serve-cons : (fs : Fs) (p : List ℕ) → p ≢ [] → serve fs p ≡ responded (send_file fs p)
unfolding serve eq
serve-cons fs [] n = absurd (n refl)
serve-cons fs (c ∷ p) n = refl

serve-nil :
    (fs : Fs)
    → serve fs [] ≡ responded (send_response 404 (codes "Not Found") (codes "text/html") not_found)
unfolding serve eq
serve-nil fs = refl

-- What a client that sent a GET request reads: the messages, one after the other, are these lines,
-- an empty line, and this body.
abbrev pub Reads : Outcome → ℕ → List (List ℕ) → List ℕ → Type 0
Reads o n lines body =
    (messages : List (List ℕ)) × (o ≡ responded messages)
    × (read_lines n (flatten messages) ≡ some (lines, body))

-- A GET request that fits the buffer, for a file that is served under the root and opens, is
-- answered with the file: the client reads status 200, the type of its path, the length of its
-- contents, and its contents, whatever query and further lines the request has.
pub handle_client-served :
    (fs : Fs) (root target rest more : List ℕ) (b : ℕ) (uri p body : List ℕ)
    → IsRequest target rest more
    → before b'?' target ≡ b ∷ uri
    → IsServed fs root (join root (relative (b ∷ uri))) p
    → p ≢ []
    → fs.read p ≡ some body
    → Reads
        (handle_client fs root (some (get_request target rest more)))
        7
        (file_lines (get_mime_type p) (length body))
        body
unfolding outcome
handle_client-served fs root target rest more b uri p body request path served n opens = (
  send_file fs p,
  handle_client-outcome fs root target rest more request
      ∙ ap (λ u. outcome fs (resolve_path fs root u)) path
      ∙ ap (outcome fs) ((resolve_path_iff fs root b uri p n).1 served)
      ∙ serve-cons fs p n,
  read_lines-send_file fs p body opens,
)

read_one :
    (n : ℕ) (m : List ℕ) (r : List (List ℕ) × List ℕ)
    → map (read_lines n) (m ∷ []) ≡ some r ∷ []
    → read_lines n (flatten (m ∷ [])) ≡ some r
unfolding flatten
read_one n m r e = ap (read_lines n) (append-nil m) ∙ head_eq e
  where
    head_eq : {x y : Option (List (List ℕ) × List ℕ)} → ◌≡◌ {A = List _} (x ∷ []) (y ∷ []) → x ≡ y
    head_eq h = cc

-- Reading back the one message of `send_response`.
read-send_response :
    (status : ℕ) (status_text content_type body : List ℕ)
    → Lacks 13 status_text
    → Lacks 13 content_type
    → read_lines 6 (flatten (send_response status status_text content_type body))
      ≡ some (response_lines status status_text content_type (length body), body)
unfolding send_response
read-send_response status status_text content_type body h k =
    read_one 6 _ _ (read_lines-send_response status status_text content_type body h k)

unresolved :
    (fs : Fs) (root : List ℕ) (b : ℕ) (uri : List ℕ)
    → ((p : List ℕ) → p ≢ [] → ¬ IsServed fs root (join root (relative (b ∷ uri))) p)
    → resolve_path fs root (b ∷ uri) ≡ ok []
unresolved fs root b uri none_served =
    let full = join root (relative (b ∷ uri)) in
    resolve_path-relative fs root b uri
    ∙ ap ok (
        unserved (or_empty (check_path fs root full)) (λ n. none_served _ n (
          (resolve_path_iff fs root b uri (or_empty (check_path fs root full)) n).0
            (resolve_path-relative fs root b uri))))
  where
    unserved : (p : List ℕ) → ¬ (p ≢ []) → p ≡ []
    unserved [] h = refl
    unserved (c ∷ p) h = absurd (h (λ e. cc))

-- A GET request that fits the buffer, whose target has a path before any query, and for which no file
-- is served, is answered with 404: the client reads the status and the header lines of a small
-- page, with its length, and the page.
pub handle_client-unserved :
    (fs : Fs) (root target rest more : List ℕ) (b : ℕ) (uri : List ℕ)
    → IsRequest target rest more
    → before b'?' target ≡ b ∷ uri
    → ((p : List ℕ) → p ≢ [] → ¬ IsServed fs root (join root (relative (b ∷ uri))) p)
    → Reads
        (handle_client fs root (some (get_request target rest more)))
        6
        (response_lines 404 (codes "Not Found") (codes "text/html") (length not_found))
        not_found
unfolding outcome
handle_client-unserved fs root target rest more b uri request path none_served = (
  send_response 404 (codes "Not Found") (codes "text/html") not_found,
  handle_client-outcome fs root target rest more request
      ∙ ap (λ u. outcome fs (resolve_path fs root u)) path
      ∙ ap (outcome fs) (unresolved fs root b uri none_served)
      ∙ serve-nil fs,
  read-send_response 404 (codes "Not Found") (codes "text/html") not_found (omega arith)
      (omega arith),
)

send_file-none :
    (fs : Fs) (p : List ℕ)
    → fs.read p ≡ none
    → send_file fs p
      ≡ send_response 500
          (codes "Internal Server Error")
          (codes "text/plain")
          (codes "Cannot read file")
unfolding send_file
send_file-none fs p shut = rw (shut, send_file) refl

-- One whose file is served but does not open is answered with 500.
pub handle_client-unreadable :
    (fs : Fs) (root target rest more : List ℕ) (b : ℕ) (uri p : List ℕ)
    → IsRequest target rest more
    → before b'?' target ≡ b ∷ uri
    → IsServed fs root (join root (relative (b ∷ uri))) p
    → p ≢ []
    → fs.read p ≡ none
    → Reads
        (handle_client fs root (some (get_request target rest more)))
        6
        (response_lines 500 (codes "Internal Server Error") (codes "text/plain") 16)
        (codes "Cannot read file")
unfolding outcome
handle_client-unreadable fs root target rest more b uri p request path served n shut = (
  send_response 500 (codes "Internal Server Error") (codes "text/plain") (codes "Cannot read file"),
  handle_client-outcome fs root target rest more request
      ∙ ap (λ u. outcome fs (resolve_path fs root u)) path
      ∙ ap (outcome fs) ((resolve_path_iff fs root b uri p n).1 served)
      ∙ serve-cons fs p n
      ∙ ap responded (send_file-none fs p shut),
  read-send_response 500 (codes "Internal Server Error") (codes "text/plain")
      (codes "Cannot read file") (omega arith) (omega arith),
)
