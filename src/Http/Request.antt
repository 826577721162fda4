-- ===== src/Http/Request.antt =====
-- `handle_client` of src/http_server.cpp: which part of a request is its path, and what comes of it.
use mathlib.Core.Option
use ioh_robodog_webrtc.Prelude.{
  ℕ, zero, suc, ◌+◌, ◌-◌, ◌≤◌, ◌<◌, ◌≡◌, ◌≢◌, ◌↔◌, ◌⊎◌, inl, inr, refl, sym, ap, ◌∙◌, arith, Option,
  none, some, List, [], ◌∷◌, ◌++◌, codes, Bool-cases, length, length-append, take, take-append,
  if◌then◌else◌, ◌==◌, All-append,
}
use ioh_robodog_webrtc.Prelude.Results.{Result, ok, err, ◌>>=◌}
use ioh_robodog_webrtc.Http.Bytes.{
  substr, find, find_byte, find_byte_from, c_string, Lacks, find_byte-append, find_byte_missing,
}
use ioh_robodog_webrtc.Http.{
  Fs, terminated, request_uri, resolve_path, handle_line, handle_request, handle_client, outcome,
  serve, crlf,
}
use ioh_robodog_webrtc.Http.Paths.{resolve_path-relative}

abbrev pub get : List ℕ
get = codes "GET "

-- What comes before the first byte c.
abbrev pub before : ℕ → List ℕ → List ℕ
before c [] = []
before c (b ∷ s) = let rest = before c s in if b == c then [] else b ∷ rest

-- The last step of `request_uri`.
abbrev strip : List ℕ → Result (List ℕ)
strip uri = elim (find_byte b'?' uri) [ none ↦ ok uri | some query ↦ substr 0 (some query) uri ]

find_byte-before :
    (c : ℕ) (s : List ℕ)
    → ((find_byte c s ≡ none) × (before c s ≡ s))
      ⊎ ((i : ℕ) × (find_byte c s ≡ some i) × (take i s ≡ before c s))
unfolding find_byte
find_byte-before c [] = inl (refl, refl)
find_byte-before c (b ∷ s) = elim (Bool-cases (b == c)) [
  | inl e ↦ rw e (inr (0, refl, refl))
  | inr e ↦ elim (find_byte-before c s) [
    | inl (f, same) ↦ rw e (inl (ap (Option.map suc) f, ap (◌∷◌ b) same))
    | inr (i, f, same) ↦ rw e (inr (suc i, ap (Option.map suc) f, ap (◌∷◌ b) same))
  ]
]

substr_zero : (i : ℕ) (s : List ℕ) → substr 0 (some i) s ≡ ok (take i s)
unfolding substr
substr_zero i s = ground arith

strip-before : (s : List ℕ) → strip s ≡ ok (before b'?' s)
strip-before s = elim (find_byte-before b'?' s) [
  | inl (f, same) ↦ rw (f, strip) (ap ok (sym same))
  | inr (i, f, same) ↦ rw (f, strip) (substr_zero i s ∙ ap ok same)
]

first_space : (s : List ℕ) → find_byte b' ' (get ++ s) ≡ some 3
unfolding find_byte
first_space s = refl

substr_target :
    (n : Option ℕ) (s : List ℕ)
    → substr 4 n (get ++ s) ≡ ok (elim n [ none ↦ s | some k ↦ take k s ])
unfolding substr
substr_target n s = ground arith

next_space :
    (target rest : List ℕ)
    → Lacks b' ' target
    → find_byte_from b' ' 4 (get ++ target ++ b' ' ∷ rest) ≡ some (4 + length target)
unfolding find_byte_from
next_space target rest h = ap (Option.map (λ i. 4 + i)) (find_byte-append b' ' target rest h)

no_next_space : (target : List ℕ) → Lacks b' ' target → find_byte_from b' ' 4 (get ++ target) ≡ none
unfolding find_byte_from
no_next_space target h = ap (Option.map (λ i. 4 + i)) (find_byte_missing b' ' target h)

-- The path of "GET target rest" is the target up to its first question mark.
pub request_uri-target :
    (target rest : List ℕ)
    → Lacks b' ' target
    → request_uri (get ++ target ++ b' ' ∷ rest) ≡ ok (before b'?' target)
unfolding request_uri
request_uri-target target rest h =
    let width : 4 + length target - 4 ≡ length target = omega arith in
    rw (first_space (target ++ b' ' ∷ rest)) (
      rw (next_space target rest h) (
        rw (substr_target (some (4 + length target - 4)) (target ++ b' ' ∷ rest))
          (rw (width, take-append target (b' ' ∷ rest)) (strip-before target))))

pub request_uri_to_end :
    (target : List ℕ) → Lacks b' ' target → request_uri (get ++ target) ≡ ok (before b'?' target)
unfolding request_uri
request_uri_to_end target h =
    rw (first_space target)
      (rw (no_next_space target h) (rw (substr_target none target) (strip-before target)))

handle_line-get :
    (fs : Fs) (root s : List ℕ)
    → handle_line fs root (get ++ s) ≡ outcome fs (request_uri (get ++ s) >>= resolve_path fs root)
unfolding handle_line
handle_line-get fs root s = refl

pub handle_line-target :
    (fs : Fs) (root target rest : List ℕ)
    → Lacks b' ' target
    → handle_line fs root (get ++ target ++ b' ' ∷ rest)
      ≡ outcome fs (resolve_path fs root (before b'?' target))
handle_line-target fs root target rest h =
    handle_line-get fs root (target ++ b' ' ∷ rest)
    ∙ ap (λ u. outcome fs (u >>= resolve_path fs root)) (request_uri-target target rest h)

resolve_path-nil : (fs : Fs) (root : List ℕ) → resolve_path fs root [] ≡ err "basic_string::substr"
unfolding resolve_path
resolve_path-nil fs root = refl

outcome-ok : (fs : Fs) (path : List ℕ) → outcome fs (ok path) ≢ terminated
unfolding outcome serve
outcome-ok fs path e = ground arith

before-append : (path query : List ℕ) → Lacks b'?' path → before b'?' (path ++ b'?' ∷ query) ≡ path
before-append [] query h = refl
before-append (b ∷ path) query h = ground (arith, before-append path query h.1, h.0)

before_all : (path : List ℕ) → Lacks b'?' path → before b'?' path ≡ path
before_all [] h = refl
before_all (b ∷ path) h = ground (arith, before_all path h.1, h.0)

-- What follows a question mark does not matter: the request with a query gets what the request
-- without it gets.
pub handle_line-query :
    (fs : Fs) (root path query rest other : List ℕ)
    → Lacks b' ' path
    → Lacks b'?' path
    → Lacks b' ' query
    → handle_line fs root (get ++ (path ++ b'?' ∷ query) ++ b' ' ∷ rest)
      ≡ handle_line fs root (get ++ path ++ b' ' ∷ other)
handle_line-query fs root path query rest other h q k =
    handle_line-target fs root (path ++ b'?' ∷ query) rest
      (All-append (λ b. b ≢ b' ') path (b'?' ∷ query) h (ground arith, k))
    ∙ ap (λ u. outcome fs (resolve_path fs root u))
        (before-append path query q ∙ sym (before_all path q))
    ∙ sym (handle_line-target fs root path other h)

-- A GET line ends the process exactly when the path of its target is empty.
pub handle_line-terminated_iff :
    (fs : Fs) (root target rest : List ℕ)
    → Lacks b' ' target
    → (handle_line fs root (get ++ target ++ b' ' ∷ rest) ≡ terminated) ↔ (before b'?' target ≡ [])
handle_line-terminated_iff fs root target rest h =
    rw (handle_line-target fs root target rest h) (ends (before b'?' target))
  where
    ends : (u : List ℕ) → (outcome fs (resolve_path fs root u) ≡ terminated) ↔ (u ≡ [])
    ends [] = (λ _. refl, λ _. rw (resolve_path-nil fs root) (unfold outcome in refl))
    ends (b ∷ s) = (
      λ e. absurd (outcome-ok fs _ (sym (ap (outcome fs) (resolve_path-relative fs root b s)) ∙ e)),
      λ e. cc,
    )

take_all : (n : ℕ) (s : List ℕ) → length s ≤ n → take n s ≡ s
take_all zero [] h = refl
take_all zero (b ∷ s) h = absurd (omega arith)
take_all (suc n) [] h = refl
take_all (suc n) (b ∷ s) h = ap (◌∷◌ b) (take_all n s (omega arith))

c_string_id : (s : List ℕ) → Lacks 0 s → c_string s ≡ s
unfolding c_string
c_string_id [] h = refl
c_string_id (b ∷ s) h = ground (arith, c_string_id s h.1, h.0)

pub find-crlf :
    (line more : List ℕ) → Lacks 13 line → find crlf (line ++ 13 ∷ 10 ∷ more) ≡ some (length line)
unfolding find
find-crlf [] more h = refl
find-crlf (b ∷ line) more h = rw (find-crlf line more h.1) (ground (arith, h.0))

-- A request that fits the buffer and holds no NUL is served by its first line alone.
pub handle_client-line :
    (fs : Fs) (root line more : List ℕ)
    → Lacks 13 line
    → Lacks 0 (line ++ 13 ∷ 10 ∷ more)
    → length (line ++ 13 ∷ 10 ∷ more) ≤ 4095
    → handle_client fs root (some (line ++ 13 ∷ 10 ∷ more)) ≡ handle_line fs root line
handle_client-line fs root line more h z n =
    received (line ++ 13 ∷ 10 ∷ more) (omega (arith, length-append line (13 ∷ 10 ∷ more))) n z
    ∙ requested
  where
    received :
        (s : List ℕ)
        → 0 < length s
        → length s ≤ 4095
        → Lacks 0 s
        → handle_client fs root (some s) ≡ handle_request fs root s
    received [] p m l = elim p [ ]
    received (b ∷ s) p m l =
        unfold handle_client in
        ap (λ t. handle_request fs root (c_string t)) (take_all 4095 (b ∷ s) m)
        ∙ ap (handle_request fs root) (c_string_id (b ∷ s) l)

    requested : handle_request fs root (line ++ 13 ∷ 10 ∷ more) ≡ handle_line fs root line
    requested =
        unfold handle_request in
        rw (find-crlf line more h, handle_request)
          (ap (handle_line fs root) (take-append line (13 ∷ 10 ∷ more)))

-- A whole request "GET target rest" ends the process exactly when the path of its target is empty,
-- as in "GET  HTTP/1.1" or "GET ?a=b HTTP/1.1": the exception of `substr` leaves the thread.
pub handle_client-terminated_iff :
    (fs : Fs) (root target rest more : List ℕ)
    → Lacks b' ' target
    → Lacks 13 (get ++ target ++ b' ' ∷ rest)
    → Lacks 0 ((get ++ target ++ b' ' ∷ rest) ++ 13 ∷ 10 ∷ more)
    → length ((get ++ target ++ b' ' ∷ rest) ++ 13 ∷ 10 ∷ more) ≤ 4095
    → (handle_client fs root (some ((get ++ target ++ b' ' ∷ rest) ++ 13 ∷ 10 ∷ more)) ≡ terminated)
      ↔ (before b'?' target ≡ [])
handle_client-terminated_iff fs root target rest more h c z n =
    rw (handle_client-line fs root (get ++ target ++ b' ' ∷ rest) more c z n)
      (handle_line-terminated_iff fs root target rest h)
