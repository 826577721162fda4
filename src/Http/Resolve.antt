-- ===== src/Http/Resolve.antt =====
-- `resolve_path` of src/http_server.cpp, over the file system as a parameter.

use ioh_robodog_webrtc.Prelude.{
  ℕ, Bool, true, false, Option, none, List, [], ◌∷◌, ◌++◌, ◌==◌, if◌then◌else◌, codes,
}
use ioh_robodog_webrtc.Prelude.Results.{Result, ok, err, ◌>>=◌}
use ioh_robodog_webrtc.Http.Bytes.{eq, has_prefix, substr}

-- `std::filesystem` and `std::ifstream`: `err` is an exception, `none` a file that does not open.
pub record Fs : Type 0 where
  pub canonical : List ℕ → Result (List ℕ)
  pub is_regular_file : List ℕ → Result Bool
  pub read : List ℕ → Option (List ℕ)

-- `fs::path(root) / rel`: an absolute path replaces the root.
unfoldable pub ends_in_slash : List ℕ → Bool
ends_in_slash [] = true
ends_in_slash (b ∷ []) = b == b'/'
ends_in_slash (b ∷ c ∷ s) = ends_in_slash (c ∷ s)

unfoldable pub starts_with_slash : List ℕ → Bool
starts_with_slash [] = false
starts_with_slash (b ∷ s) = b == b'/'

unfoldable pub join : List ℕ → List ℕ → List ℕ
unfolding ends_in_slash starts_with_slash
join root rel =
    if starts_with_slash rel
    then rel
    else if ends_in_slash root
    then root ++ rel
    else root ++ b'/' ∷ rel

-- The `try` block of `resolve_path`; the empty text stands for "not found".
unfoldable pub check_path : Fs → List ℕ → List ℕ → Result (List ℕ)
check_path fs root full = do
  canonical ← fs.canonical full
  root_str ← fs.canonical root
  elim (has_prefix root_str canonical) [
    | false ↦ ok []
    | true ↦ (do regular ← fs.is_regular_file canonical; ok (if regular then canonical else []))
  ]

-- `catch (...)`.
unfoldable pub or_empty : Result (List ℕ) → List ℕ
or_empty (ok path) = path
or_empty (err what) = []

-- `err` is the exception of `substr`, which is thrown outside the `try` block.
unfoldable pub resolve_path : Fs → List ℕ → List ℕ → Result (List ℕ)
unfolding substr join has_prefix check_path or_empty
resolve_path fs root uri = do
  let path = if eq uri (codes "/") then codes "/index.html" else uri
  rel ← substr 1 none path
  ok (or_empty (check_path fs root (join root rel)))
