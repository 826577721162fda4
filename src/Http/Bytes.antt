-- ===== src/Http/Bytes.antt =====
-- `std::string` as src/http_server.cpp uses it: byte strings.
use mathlib.Core.Option
use ioh_robodog_webrtc.Prelude.{
  ℕ, suc, ◌+◌, ◌≡◌, ◌≢◌, ◌↔◌, refl, sym, ap, ◌∙◌, arith, Bool, true, false, ◌&&◌, Option, none,
  some, List, [], ◌∷◌, ◌++◌, length, take, drop, ◌==◌, ltb, if◌then◌else◌, take-append,
  take-append-drop, All,
}
use ioh_robodog_webrtc.Prelude.Results.{Result, ok, err}

-- `a == b`.
unfoldable pub eq : List ℕ → List ℕ → Bool
eq [] [] = true
eq (a ∷ s) (b ∷ t) = a == b && eq s t
eq _ _ = false

pub eq_iff : (s t : List ℕ) → (eq s t ≡ true) ↔ (s ≡ t)
unfolding eq
eq_iff [] [] = ground arith
eq_iff [] (b ∷ t) = ground arith
eq_iff (a ∷ s) [] = ground arith
eq_iff (a ∷ s) (b ∷ t) = ground (arith, eq_iff s t)

-- `s.find(c)`, with `none` for `npos`.
unfoldable pub find_byte : ℕ → List ℕ → Option ℕ
find_byte c [] = none
find_byte c (b ∷ s) = let rest = Option.map suc (find_byte c s) in if b == c then some 0 else rest

-- `s.find(c, from)`.
unfoldable pub find_byte_from : ℕ → ℕ → List ℕ → Option ℕ
unfolding find_byte
find_byte_from c from s = Option.map (λ i. from + i) (find_byte c (drop from s))

-- `s.starts with t`, written `s.substr(0, t.size()) == t` in the code.
unfoldable pub has_prefix : List ℕ → List ℕ → Bool
unfolding eq
has_prefix t s = eq (take (length t) s) t

-- `s.find(t)`.
unfoldable pub find : List ℕ → List ℕ → Option ℕ
unfolding has_prefix
find t [] = if eq t [] then some 0 else none
find t (b ∷ s) =
    let rest = Option.map suc (find t s) in if has_prefix t (b ∷ s) then some 0 else rest

-- `s.substr(pos, n)`, to the end where the count is `npos`; a position past the end throws.
unfoldable pub substr : ℕ → Option ℕ → List ℕ → Result (List ℕ)
substr pos n s =
    if ltb (length s) pos
    then err "basic_string::substr"
    else ok (elim n [ none ↦ drop pos s | some k ↦ take k (drop pos s) ])

-- `std::string(buf)`: up to the first NUL.
unfoldable pub c_string : List ℕ → List ℕ
c_string [] = []
c_string (b ∷ s) = let rest = c_string s in if b == 0 then [] else b ∷ rest

-- `::tolower` in the C locale.
unfoldable pub tolower : ℕ → ℕ
tolower c = if ltb 64 c && ltb c 91 then c + 32 else c

abbrev pub Lacks : ℕ → List ℕ → Type 0
Lacks c = All (λ b. b ≢ c)

pub find_byte-append :
    (c : ℕ) (s t : List ℕ) → Lacks c s → find_byte c (s ++ c ∷ t) ≡ some (length s)
unfolding find_byte
find_byte-append c [] t h = ground arith
find_byte-append c (b ∷ s) t h = rw (find_byte-append c s t h.1) (ground arith)

pub find_byte_missing : (c : ℕ) (s : List ℕ) → Lacks c s → find_byte c s ≡ none
unfolding find_byte
find_byte_missing c [] h = refl
find_byte_missing c (b ∷ s) h = rw (find_byte_missing c s h.1) (ground arith)

pub has_prefix_iff : (t s : List ℕ) → (has_prefix t s ≡ true) ↔ ((r : List ℕ) × (s ≡ t ++ r))
unfolding has_prefix
has_prefix_iff t s = (
  λ h. (
    drop (length t) s,
    sym (take-append-drop (length t) s) ∙ ap (λ x. x ++ drop (length t) s) ((eq_iff _ t).0 h),
  ),
  λ (r, e). rw e ((eq_iff _ t).1 (take-append t r)),
)

-- A search that finds nothing shows that the byte is not there.
pub find_byte-Lacks : (c : ℕ) (s : List ℕ) → find_byte c s ≡ none → Lacks c s
unfolding find_byte
find_byte-Lacks c [] e = tt
find_byte-Lacks c (b ∷ s) e = ground (arith, find_byte-Lacks c s)
