-- ===== src/Http/Types.antt =====
-- `get_mime_type` of src/http_server.cpp: the type of a file by the extension of its path.

use ioh_robodog_webrtc.Prelude.{
  ℕ, Bool, false, ◌||◌, Option, none, some, List, [], ◌∷◌, map, ◌==◌, if◌then◌else◌, codes,
}
use ioh_robodog_webrtc.Http.Bytes.{eq, tolower}

unfoldable pub has_byte : ℕ → List ℕ → Bool
has_byte c [] = false
has_byte c (b ∷ s) = b == c || has_byte c s

-- `fs::path(p).filename()`: what follows the last slash.
unfoldable pub file_name : List ℕ → List ℕ
unfolding has_byte
file_name [] = []
file_name (b ∷ s) = let rest = file_name s in if b == b'/' || has_byte b'/' s then rest else b ∷ s

-- From the last dot on.
unfoldable pub from_last_dot : List ℕ → List ℕ
unfolding has_byte
from_last_dot [] = []
from_last_dot (b ∷ s) =
    let rest = from_last_dot s in if has_byte b'.' s then rest else if b == b'.' then b ∷ s else []

unfoldable pub dot_after_first : List ℕ → List ℕ
unfolding from_last_dot
dot_after_first [] = []
dot_after_first (b ∷ s) = from_last_dot s

-- `fs::path(p).extension()`: "." and ".." have none, nor has a name whose only dot comes first.
unfoldable pub extension : List ℕ → List ℕ
unfolding file_name dot_after_first eq
extension path =
    let name = file_name path in
    if eq name (codes ".") || eq name (codes "..") then [] else dot_after_first name

abbrev pub mime_types : List (List ℕ × List ℕ)
mime_types =
    (codes ".html", codes "text/html")
    ∷ (codes ".css", codes "text/css")
    ∷ (codes ".js", codes "application/javascript")
    ∷ (codes ".json", codes "application/json")
    ∷ (codes ".png", codes "image/png")
    ∷ (codes ".jpg", codes "image/jpeg")
    ∷ (codes ".jpeg", codes "image/jpeg")
    ∷ (codes ".gif", codes "image/gif")
    ∷ (codes ".svg", codes "image/svg+xml")
    ∷ (codes ".ico", codes "image/x-icon")
    ∷ (codes ".woff", codes "font/woff")
    ∷ (codes ".woff2", codes "font/woff2")
    ∷ (codes ".ttf", codes "font/ttf")
    ∷ []

unfoldable pub lookup_type : List ℕ → List (List ℕ × List ℕ) → Option (List ℕ)
unfolding eq
lookup_type ext [] = none
lookup_type ext ((k, v) ∷ table) = if eq k ext then some v else lookup_type ext table

-- The search in `mime_types_`.
unfoldable pub type_of : List ℕ → List ℕ
unfolding lookup_type
type_of ext = elim (lookup_type ext mime_types) [
  | some v ↦ v
  | none ↦ codes "application/octet-stream"
]

unfoldable pub get_mime_type : List ℕ → List ℕ
unfolding extension tolower type_of
get_mime_type path = type_of (map tolower (extension path))
