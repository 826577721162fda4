-- ===== src/Http/Paths.antt =====
-- `resolve_path` of src/http_server.cpp: which files are served.
use ioh_robodog_webrtc.Prelude.{
  ℕ, ◌≡◌, ◌≢◌, ◌↔◌, ◌⊎◌, inl, inr, refl, sym, ap, ◌∙◌, arith, Bool, true, false, none, List, [],
  ◌∷◌, ◌++◌, codes, Bool-cases, length, length-append, if◌then◌else◌,
}
use ioh_robodog_webrtc.Prelude.Results.{Result, ok, err, ◌>>=◌, Result-cases}
use ioh_robodog_webrtc.Http.Bytes.{eq, has_prefix, has_prefix_iff, substr}
use ioh_robodog_webrtc.Http.{Fs, join, check_path, or_empty, resolve_path}

-- The text that follows the first byte of a path, "/" standing for "/index.html".
abbrev pub relative : List ℕ → List ℕ
relative [] = []
relative (b ∷ s) = if eq (b ∷ s) (codes "/") then codes "index.html" else s

substr_one : (b : ℕ) (s : List ℕ) → substr 1 none (b ∷ s) ≡ ok s
unfolding substr
substr_one b s = ground arith

pub resolve_path-relative :
    (fs : Fs) (root : List ℕ) (b : ℕ) (s : List ℕ)
    → resolve_path fs root (b ∷ s)
      ≡ ok (or_empty (check_path fs root (join root (relative (b ∷ s)))))
unfolding resolve_path
resolve_path-relative fs root b s = elim (Bool-cases (eq (b ∷ s) (codes "/"))) [
  | inl e ↦ rw e refl
  | inr e ↦ rw e (rw (substr_one b s) refl)
]

-- A file that may be served for a request: the canonical form of the joined path, a regular file,
-- whose text begins with the text of the canonical root.
abbrev pub IsServed : Fs → List ℕ → List ℕ → List ℕ → Type 0
IsServed fs root full p =
    (root_str : List ℕ) × (r : List ℕ) × (fs.canonical full ≡ ok p)
    × (fs.canonical root ≡ ok root_str)
    × (p ≡ root_str ++ r)
    × (fs.is_regular_file p ≡ ok true)

ok-injective {ℓ} : {A : Type ℓ} {a b : A} → ok a ≡ ok b → a ≡ b
ok-injective h = cc

found_regular :
    (c p : List ℕ) (r : Result Bool)
    → or_empty (r >>= λ regular. ok (if regular then c else [])) ≡ p
    → p ≢ []
    → (c ≡ p) × (r ≡ ok true)
unfolding or_empty
found_regular c p (ok true) h n = (h, refl)
found_regular c p (ok false) h n = absurd (n (sym h))
found_regular c p (err w) h n = absurd (n (sym h))

check_path-found :
    (fs : Fs) (root full p : List ℕ)
    → or_empty (check_path fs root full) ≡ p
    → p ≢ []
    → IsServed fs root full p
unfolding check_path or_empty
check_path-found fs root full p h n = elim (Result-cases (fs.canonical full)) [
  | inr (w, e) ↦ absurd (n (sym (rw e at h)))
  | inl (c, e) ↦ elim (Result-cases (fs.canonical root)) [
    | inr (w, d) ↦ absurd (n (sym (rw d at (rw e at h))))
    | inl (root_str, d) ↦ elim (Bool-cases (has_prefix root_str c)) [
      | inr outside ↦ absurd (n (sym (rw (outside, or_empty) at (rw d at (rw e at h)))))
      | inl inside ↦
          let (r, split) = (has_prefix_iff root_str c).0 inside in
          let (same, regular) =
            found_regular c p (fs.is_regular_file c)
              (rw (inside, or_empty) at (rw d at (rw e at h))) n in
          (
            root_str,
            r,
            e ∙ ap ok same,
            d,
            sym same ∙ split,
            ap fs.is_regular_file (sym same) ∙ regular,
          )
    ]
  ]
]

check_path-served :
    (fs : Fs) (root full p : List ℕ)
    → IsServed fs root full p
    → or_empty (check_path fs root full) ≡ p
unfolding check_path or_empty
check_path-served fs root full p (root_str, r, e, d, split, regular) =
    let inside : has_prefix root_str p ≡ true = (has_prefix_iff root_str p).1 (r, split) in
    rw e (rw d (rw (inside, or_empty) (rw (regular, or_empty) refl)))

-- A request for a path that is not empty resolves to a file exactly when that is a regular file,
-- the canonical form of the root joined with the path, and begins with the canonical root's text.
pub resolve_path_iff :
    (fs : Fs) (root : List ℕ) (b : ℕ) (s p : List ℕ)
    → p ≢ []
    → (resolve_path fs root (b ∷ s) ≡ ok p) ↔ IsServed fs root (join root (relative (b ∷ s))) p
resolve_path_iff fs root b s p n = (
  λ h.
      check_path-found fs root (join root (relative (b ∷ s))) p
        (ok-injective (sym (resolve_path-relative fs root b s) ∙ h)) n,
  λ i.
      resolve_path-relative fs root b s
      ∙ ap ok (check_path-served fs root (join root (relative (b ∷ s))) p i),
)

-- The root itself, and what lies below it; below "/" is every path that begins with a slash.
abbrev pub IsInside : List ℕ → List ℕ → Type 0
IsInside root_str p =
    (p ≡ root_str)
    ⊎ ((r : List ℕ) × (p ≡ root_str ++ b'/' ∷ r))
    ⊎ ((root_str ≡ codes "/") × ((r : List ℕ) × (p ≡ b'/' ∷ r)))

append_cancel : (s t u : List ℕ) → s ++ t ≡ s ++ u → t ≡ u
append_cancel [] t u h = h
append_cancel (x ∷ s) t u h = append_cancel s t u (cc)

head_eq : {x y : ℕ} {s t : List ℕ} → x ∷ s ≡ y ∷ t → x ≡ y
head_eq h = cc

-- The check compares texts and not the components of paths: for a root other than "/", a regular file
-- whose canonical path continues the root's by a byte other than a slash lies outside the root, as
-- one in a sibling directory /srv/web-old beside the root /srv/web does, and a request with a path
-- that leads to it resolves to it all the same.
pub resolve_path_outside :
    (fs : Fs) (root : List ℕ) (b : ℕ) (s root_str : List ℕ) (c : ℕ) (r : List ℕ)
    → c ≢ b'/'
    → root_str ≢ codes "/"
    → fs.canonical root ≡ ok root_str
    → fs.canonical (join root (relative (b ∷ s))) ≡ ok (root_str ++ c ∷ r)
    → fs.is_regular_file (root_str ++ c ∷ r) ≡ ok true
    → (resolve_path fs root (b ∷ s) ≡ ok (root_str ++ c ∷ r))
      × ¬ IsInside root_str (root_str ++ c ∷ r)
resolve_path_outside fs root b s root_str c r n deep d e regular = (
  resolve_path-relative fs root b s
      ∙ ap ok (
          check_path-served fs root (join root (relative (b ∷ s))) (root_str ++ c ∷ r)
            (root_str, c ∷ r, e, d, refl, regular)),
  outside,
)
  where
    outside : ¬ IsInside root_str (root_str ++ c ∷ r)
    outside (inl same) = absurd (omega (arith, ap length same, length-append root_str (c ∷ r)))
    outside (inr (inr (top, below))) = deep top
    outside (inr (inl (q, same))) = n (head_eq (append_cancel root_str (c ∷ r) (b'/' ∷ q) same))
