-- ===== src/Http/Response.antt =====
-- The messages of src/http_server.cpp, and a reader of header lines for them.
use mathlib.Core.Option
use mathlib.Core.List.{append_assoc}
use ioh_robodog_webrtc.Prelude.{
  ℕ, zero, suc, ◌+◌, ◌<◌, ◌≡◌, ◌≢◌, refl, ap, ap₂, ◌∙◌, arith, false, Option, none, some, List, [],
  ◌∷◌, ◌++◌, codes, length, length-append, take, drop, take-append, if◌then◌else◌, ◌==◌, All,
  All-append, map,
}
use ioh_robodog_webrtc.Prelude.Decimal.{decimal, IsDigit, decimal-IsDigit}
use ioh_robodog_webrtc.Http.Bytes.{find, Lacks}
use ioh_robodog_webrtc.Http.Request.{find-crlf}
use ioh_robodog_webrtc.Http.{send_response, file_header, crlf}

-- A client's reader: the lines up to the first empty one, and what follows it.
pub read_lines : ℕ → List ℕ → Option (List (List ℕ) × List ℕ)
read_lines zero s = none
read_lines (suc f) s = elim (find crlf s) [
  | none ↦ none
  | some i ↦
      if i == 0
      then some ([], drop 2 s)
      else Option.map (λ r. (take i s ∷ r.0, r.1)) (read_lines f (drop (i + 2) s))
]

abbrev unlines : List (List ℕ) → List ℕ → List ℕ
unlines [] body = 13 ∷ 10 ∷ body
unlines (l ∷ ls) body = l ++ 13 ∷ 10 ∷ unlines ls body

-- A line that can stand in a header.
abbrev IsLine : List ℕ → Type 0
IsLine l = (0 < length l) × Lacks 13 l

drop_past : (l s : List ℕ) → drop (length l + 2) (l ++ 13 ∷ 10 ∷ s) ≡ s
drop_past [] s = refl
drop_past (x ∷ l) s =
    let e : suc (length l) + 2 ≡ suc (length l + 2) = omega arith in rw e (drop_past l s)

find_blank : (body : List ℕ) → find crlf (13 ∷ 10 ∷ body) ≡ some 0
find_blank body = find-crlf [] body tt

abbrev cons_line : List ℕ → List (List ℕ) × List ℕ → List (List ℕ) × List ℕ
cons_line l r = (l ∷ r.0, r.1)

read_lines-line :
    (f : ℕ) (l s : List ℕ)
    → IsLine l
    → read_lines (suc f) (l ++ 13 ∷ 10 ∷ s) ≡ Option.map (cons_line l) (read_lines f s)
unfolding read_lines
read_lines-line f l s (p, h) =
    let full : (length l == 0) ≡ false = ground arith in
    rw (find-crlf l s h, read_lines)
      (rw full (
        ap₂ (λ x y. Option.map (cons_line x) (read_lines f y)) (take-append l (13 ∷ 10 ∷ s))
          (drop_past l s)))

read_lines-unlines :
    (ls : List (List ℕ)) (body : List ℕ)
    → All IsLine ls
    → read_lines (suc (length ls)) (unlines ls body) ≡ some (ls, body)
read_lines-unlines [] body h = unfold read_lines in rw (find_blank body, read_lines) refl
read_lines-unlines (l ∷ ls) body (h, hs) =
    read_lines-line (suc (length ls)) l (unlines ls body) h
    ∙ ap (Option.map (cons_line l)) (read_lines-unlines ls body hs)

Lacks-decimal : (n : ℕ) → Lacks 13 (decimal n)
Lacks-decimal n = digits (decimal n) (decimal-IsDigit n)
  where
    digits : (s : List ℕ) → All IsDigit s → Lacks 13 s
    digits [] h = tt
    digits (c ∷ s) (d, h) = (omega (arith, d), digits s h)

-- The header lines of a response, of a file.
abbrev pub response_lines : ℕ → List ℕ → List ℕ → ℕ → List (List ℕ)
response_lines status status_text content_type size =
    (codes "HTTP/1.1 " ++ decimal status ++ codes " " ++ status_text)
    ∷ (codes "Content-Type: " ++ content_type)
    ∷ (codes "Content-Length: " ++ decimal size)
    ∷ codes "Access-Control-Allow-Origin: *"
    ∷ codes "Connection: close"
    ∷ []

abbrev pub file_lines : List ℕ → ℕ → List (List ℕ)
file_lines mime size =
    codes "HTTP/1.1 200 OK"
    ∷ (codes "Content-Type: " ++ mime)
    ∷ (codes "Content-Length: " ++ decimal size)
    ∷ codes "Access-Control-Allow-Origin: *"
    ∷ codes "Cache-Control: no-cache"
    ∷ codes "Connection: close"
    ∷ []

send_response-unlines :
    (status : ℕ) (status_text content_type body : List ℕ)
    → send_response status status_text content_type body
      ≡ unlines (response_lines status status_text content_type (length body)) body ∷ []
unfolding send_response
send_response-unlines status status_text content_type body = simp append_assoc

IsLine-append : (s t : List ℕ) → IsLine s → Lacks 13 t → IsLine (s ++ t)
IsLine-append s t (p, h) k = (omega (arith, length-append s t), All-append (λ b. b ≢ 13) s t h k)

-- Where neither the status text nor the type holds a carriage return, a reader of a response gets
-- its five header lines, the announced length being that of the body, and then the body itself.
pub read_lines-send_response :
    (status : ℕ) (status_text content_type body : List ℕ)
    → Lacks 13 status_text
    → Lacks 13 content_type
    → map (read_lines 6) (send_response status status_text content_type body)
      ≡ some (response_lines status status_text content_type (length body), body) ∷ []
read_lines-send_response status status_text content_type body h k =
    ap (map (read_lines 6)) (send_response-unlines status status_text content_type body)
    ∙ ap (λ r. r ∷ [])
        (read_lines-unlines (response_lines status status_text content_type (length body)) body (
          IsLine-append ((codes "HTTP/1.1 " ++ decimal status) ++ codes " ") status_text
              (IsLine-append (codes "HTTP/1.1 " ++ decimal status) (codes " ")
                (IsLine-append (codes "HTTP/1.1 ") (decimal status) (omega arith)
                  (Lacks-decimal status))
                (omega arith))
              h,
          (
            IsLine-append (codes "Content-Type: ") content_type (omega arith) k,
            (
              IsLine-append (codes "Content-Length: ") (decimal (length body)) (omega arith)
                  (Lacks-decimal (length body)),
              omega arith,
            ),
          ),
        ))

file_header-unlines :
    (mime body : List ℕ)
    → file_header mime (length body) ++ body ≡ unlines (file_lines mime (length body)) body
unfolding file_header
file_header-unlines mime body = simp append_assoc

-- The same of a file: the header and the body, sent one after the other, are read back as the six
-- lines with the length of the body, and the body.
pub read_lines-file_header :
    (mime body : List ℕ)
    → Lacks 13 mime
    → read_lines 7 (file_header mime (length body) ++ body)
      ≡ some (file_lines mime (length body), body)
read_lines-file_header mime body h =
    ap (read_lines 7) (file_header-unlines mime body)
    ∙ read_lines-unlines (file_lines mime (length body)) body (
      omega arith,
      (
        IsLine-append (codes "Content-Type: ") mime (omega arith) h,
        (
          IsLine-append (codes "Content-Length: ") (decimal (length body)) (omega arith)
              (Lacks-decimal (length body)),
          omega arith,
        ),
      ),
    )
