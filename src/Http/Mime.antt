-- ===== src/Http/Mime.antt =====
-- `get_mime_type` of src/http_server.cpp.
use mathlib.Core.Option.{some-injective}
use mathlib.Core.List.{flatten, append-nil}
use ioh_robodog_webrtc.Prelude.{
  ℕ, ◌≡◌, refl, ap, ap₂, ◌∙◌, arith, Bool, true, false, ◌||◌, ◌&&◌, some, List, [], ◌∷◌, ◌++◌,
  codes, map, length, All, Bool-cases, Option-cases, inl, inr, subst, if◌then◌else◌, ◌==◌,
}
use ioh_robodog_webrtc.Http.Bytes.{eq, tolower, Lacks}
use ioh_robodog_webrtc.Http.Response.{read_lines, file_lines, read_lines-file_header}
use ioh_robodog_webrtc.Http.{
  has_byte, file_name, from_last_dot, dot_after_first, extension, lookup_type, type_of, mime_types,
  get_mime_type, Fs, send_file, file_header,
}

tolower_idem : (c : ℕ) → tolower (tolower c) ≡ tolower c
unfolding tolower
tolower_idem c = ground arith

-- The bytes that structure a path are not letters.
tolower-dot : (c : ℕ) → (tolower c == b'.') ≡ (c == b'.')
unfolding tolower
tolower-dot c = ground arith

tolower-slash : (c : ℕ) → (tolower c == b'/') ≡ (c == b'/')
unfolding tolower
tolower-slash c = ground arith

has_byte-map :
    (d : ℕ) (s : List ℕ)
    → ((c : ℕ) → (tolower c == d) ≡ (c == d))
    → has_byte d (map tolower s) ≡ has_byte d s
unfolding has_byte
has_byte-map d [] h = refl
has_byte-map d (c ∷ s) h = ap₂ ◌||◌ (h c) (has_byte-map d s h)

file_name-map : (s : List ℕ) → file_name (map tolower s) ≡ map tolower (file_name s)
unfolding file_name
file_name-map [] = refl
file_name-map (c ∷ s) =
    ground (arith, file_name-map s, tolower-slash c, has_byte-map b'/' s tolower-slash)

from_last_dot-map : (s : List ℕ) → from_last_dot (map tolower s) ≡ map tolower (from_last_dot s)
unfolding from_last_dot
from_last_dot-map [] = refl
from_last_dot-map (c ∷ s) =
    ground (arith, from_last_dot-map s, tolower-dot c, has_byte-map b'.' s tolower-dot)

dot_after_first-map :
    (s : List ℕ) → dot_after_first (map tolower s) ≡ map tolower (dot_after_first s)
unfolding dot_after_first
dot_after_first-map [] = refl
dot_after_first-map (c ∷ s) = from_last_dot-map s

eq_dot-map : (s : List ℕ) → eq (map tolower s) (codes ".") ≡ eq s (codes ".")
unfolding eq
eq_dot-map [] = refl
eq_dot-map (c ∷ []) = ap (λ b. b && true) (tolower-dot c)
eq_dot-map (c ∷ d ∷ s) = ground (arith, tolower-dot c)

eq_dots-map : (s : List ℕ) → eq (map tolower s) (codes "..") ≡ eq s (codes "..")
unfolding eq
eq_dots-map [] = refl
eq_dots-map (c ∷ []) = ground (arith, tolower-dot c)
eq_dots-map (c ∷ d ∷ s) = ap₂ ◌&&◌ (tolower-dot c) (eq_dot-map (d ∷ s))

map_if :
    (b : Bool) (s : List ℕ) → (if b then [] else map tolower s) ≡ map tolower (if b then [] else s)
map_if true s = refl
map_if false s = refl

extension-map : (s : List ℕ) → extension (map tolower s) ≡ map tolower (extension s)
unfolding extension
extension-map s =
    rw
      (
        file_name-map s,
        eq_dot-map (file_name s),
        eq_dots-map (file_name s),
        dot_after_first-map (file_name s),
      )
      (map_if (eq (file_name s) (codes ".") || eq (file_name s) (codes ".."))
        (dot_after_first (file_name s)))

map-tolower_idem : (s : List ℕ) → map tolower (map tolower s) ≡ map tolower s
map-tolower_idem [] = refl
map-tolower_idem (c ∷ s) = ap₂ ◌∷◌ (tolower_idem c) (map-tolower_idem s)

-- The type of a file does not depend on the case of the letters in its path.
pub get_mime_type-tolower : (path : List ℕ) → get_mime_type (map tolower path) ≡ get_mime_type path
unfolding get_mime_type
get_mime_type-tolower path =
    ap type_of (ap (map tolower) (extension-map path) ∙ map-tolower_idem (extension path))

-- No byte of a media type ends its header line.
lookup_type-Lacks :
    (ext : List ℕ) (table : List (List ℕ × List ℕ)) (v : List ℕ)
    → All (λ e. Lacks 13 e.1) table
    → lookup_type ext table ≡ some v
    → Lacks 13 v
unfolding lookup_type
lookup_type-Lacks ext [] v h e = cc
lookup_type-Lacks ext ((k, w) ∷ table) v h e = elim (Bool-cases (eq k ext)) [
  | inl hit ↦ subst (Lacks 13) (some-injective w v (rw hit at e)) h.0
  | inr miss ↦ lookup_type-Lacks ext table v h.1 (rw miss at e)
]

type_of-Lacks : (ext : List ℕ) → Lacks 13 (type_of ext)
unfolding type_of
type_of-Lacks ext = elim (Option-cases (lookup_type ext mime_types)) [
  | inl e ↦ rw (e, type_of) (omega arith)
  | inr (v, e) ↦ rw (e, type_of) (lookup_type-Lacks ext mime_types v (omega arith) e)
]

get_mime_type-Lacks : (path : List ℕ) → Lacks 13 (get_mime_type path)
unfolding get_mime_type
get_mime_type-Lacks path = type_of-Lacks (map tolower (extension path))

send_file-read :
    (fs : Fs) (path body : List ℕ)
    → fs.read path ≡ some body
    → send_file fs path ≡ file_header (get_mime_type path) (length body) ∷ body ∷ []
unfolding send_file
send_file-read fs path body e = rw (e, send_file) refl

-- A reader of what `send_file` sends for a file that opens gets six header lines, with the type of
-- the path and the length of the contents, and then the contents.
pub read_lines-send_file :
    (fs : Fs) (path body : List ℕ)
    → fs.read path ≡ some body
    → read_lines 7 (flatten (send_file fs path))
      ≡ some (file_lines (get_mime_type path) (length body), body)
unfolding flatten
read_lines-send_file fs path body e =
    ap (λ m. read_lines 7 (flatten m)) (send_file-read fs path body e)
    ∙ ap (λ b. read_lines 7 (file_header (get_mime_type path) (length body) ++ b)) (append-nil body)
    ∙ read_lines-file_header (get_mime_type path) body (get_mime_type-Lacks path)
