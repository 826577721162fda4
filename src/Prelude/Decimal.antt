-- ===== src/Prelude/Decimal.antt =====
-- `std::to_string` and `operator<<` on integers, in bytes and as a text, and `std::stoi`.
use Prim.Native.Nat.{ℕ, zero, suc, ◌+◌, ◌-◌, ◌*◌, ◌/◌, ◌%◌, ◌^◌, ◌≤◌, ◌<◌}
use Prim.Native.String
use Prim.Native.String.{String}
use mathlib.Core.Path.{◌≡◌, refl, ap, ◌∙◌}
use mathlib.Core.Bool.{Bool, true, false, ◌&&◌, ◌||◌}
use mathlib.Core.List.{List, [], ◌∷◌, ◌++◌}
use native.Mathlib.Omega.{arith}
use ioh_robodog_webrtc.Prelude.Tests.{ltb, leb, ◌==◌, if◌then◌else◌}
use ioh_robodog_webrtc.Prelude.Lists.{length, length-append, All, All-append}
use ioh_robodog_webrtc.Prelude.Int.{ℤ, pos, negsuc, IsInt32}
use ioh_robodog_webrtc.Prelude.Results.{Result, ok, err}

-- The decimal digits of a number, as bytes; the fuel `suc n` is enough for `n`.
unfoldable pub decimal_from : ℕ → ℕ → List ℕ
decimal_from zero n = []
decimal_from (suc f) n =
    let front = decimal_from f (n / 10) in
    if ltb n 10 then (48 + n) ∷ [] else front ++ (48 + n % 10) ∷ []

unfoldable pub decimal : ℕ → List ℕ
unfolding decimal_from
decimal n = decimal_from (suc n) n

unfoldable pub to_bytes : ℤ → List ℕ
unfolding decimal
to_bytes (pos n) = decimal n
to_bytes (negsuc n) = b'-' ∷ decimal (suc n)

-- The text of such bytes.
unfoldable pub char_text : ℕ → String
char_text c =
    if c == b'0'
    then "0"
    else if c == b'1'
    then "1"
    else if c == b'2'
    then "2"
    else if c == b'3'
    then "3"
    else if c == b'4'
    then "4"
    else if c == b'5'
    then "5"
    else if c == b'6'
    then "6"
    else if c == b'7'
    then "7"
    else if c == b'8'
    then "8"
    else if c == b'9'
    then "9"
    else "-"

unfoldable pub text_of : List ℕ → String
unfolding char_text
text_of [] = ""
text_of (c ∷ s) = String.◌++◌ (char_text c) (text_of s)

unfoldable pub to_string : ℤ → String
unfolding to_bytes text_of
to_string a = text_of (to_bytes a)

abbrev pub is_digit : ℕ → Bool
is_digit c = leb b'0' c && leb c b'9'

-- `isspace` in the C locale.
abbrev pub is_space : ℕ → Bool
is_space c = c == b' ' || (leb 9 c && leb c 13)

unfoldable pub skip_space : List ℕ → List ℕ
skip_space [] = []
skip_space (c ∷ s) = let rest = skip_space s in if is_space c then rest else c ∷ s

-- The value of the digits at the head of a text; what follows them is ignored.
unfoldable pub scan : ℕ → List ℕ → ℕ
scan acc [] = acc
scan acc (c ∷ s) = let more = scan (acc * 10 + (c - 48)) s in if is_digit c then more else acc

-- The number after the sign; `std::invalid_argument` and `std::out_of_range` both say "stoi".
unfoldable pub in_int : Bool → ℕ → Result ℤ
in_int true n =
    if n == 0 then ok (pos 0) else if leb n (2 ^ 31) then ok (negsuc (n - 1)) else err "stoi"
in_int false n = if ltb n (2 ^ 31) then ok (pos n) else err "stoi"

unfoldable pub stoi_digits : Bool → List ℕ → Result ℤ
unfolding scan in_int
stoi_digits negative [] = err "stoi"
stoi_digits negative (c ∷ s) = if is_digit c then in_int negative (scan 0 (c ∷ s)) else err "stoi"

unfoldable pub stoi_sign : List ℕ → Result ℤ
unfolding stoi_digits
stoi_sign [] = err "stoi"
stoi_sign (c ∷ s) =
    if c == b'-'
    then stoi_digits true s
    else if c == b'+'
    then stoi_digits false s
    else stoi_digits false (c ∷ s)

unfoldable pub stoi : List ℕ → Result ℤ
unfolding skip_space stoi_sign
stoi s = stoi_sign (skip_space s)

abbrev pub IsDigit : ℕ → Type 0
IsDigit c = (48 ≤ c) × (c ≤ 57)

decimal_from-IsDigit : (f n : ℕ) → All IsDigit (decimal_from f n)
unfolding decimal_from
decimal_from-IsDigit zero n = tt
decimal_from-IsDigit (suc f) n = ground (
  arith,
  All-append IsDigit (decimal_from f (n / 10)) ((48 + n % 10) ∷ [])
      (decimal_from-IsDigit f (n / 10)) ((omega arith, omega arith), tt),
)

pub decimal-IsDigit : (n : ℕ) → All IsDigit (decimal n)
unfolding decimal
decimal-IsDigit n = decimal_from-IsDigit (suc n) n

scan-append :
    (acc : ℕ) (xs ys : List ℕ) → All IsDigit xs → scan acc (xs ++ ys) ≡ scan (scan acc xs) ys
unfolding scan
scan-append acc [] ys h = refl
scan-append acc (x ∷ xs) ys h = ground (arith, scan-append (acc * 10 + (x - 48)) xs ys h.1)

scan_last : (acc d : ℕ) → d < 10 → scan acc ((48 + d) ∷ []) ≡ acc * 10 + d
unfolding scan
scan_last acc d h = ground arith

scan-decimal_from : (f n : ℕ) → n < f → scan 0 (decimal_from f n) ≡ n
unfolding decimal_from
scan-decimal_from zero n h = elim h [ ]
scan-decimal_from (suc f) n h = ground (
  arith,
  scan_last 0 n,
  scan_last (n / 10) (n % 10),
  scan-append 0 (decimal_from f (n / 10)) ((48 + n % 10) ∷ []) (decimal_from-IsDigit f (n / 10)),
  scan-decimal_from f (n / 10),
)

length-decimal_from : (f n : ℕ) → 0 < length (decimal_from (suc f) n)
unfolding decimal_from
length-decimal_from f n =
    ground (arith, length-append (decimal_from f (n / 10)) ((48 + n % 10) ∷ []))

stoi_digits_of_IsDigit :
    (negative : Bool) (xs : List ℕ)
    → All IsDigit xs
    → 0 < length xs
    → stoi_digits negative xs ≡ in_int negative (scan 0 xs)
unfolding stoi_digits
stoi_digits_of_IsDigit negative [] a h = elim h [ ]
stoi_digits_of_IsDigit negative (c ∷ xs) a h = ground arith

stoi_of_IsDigit :
    (xs : List ℕ) → All IsDigit xs → 0 < length xs → stoi xs ≡ in_int false (scan 0 xs)
unfolding stoi
stoi_of_IsDigit [] a h = elim h [ ]
stoi_of_IsDigit (c ∷ xs) a h = ground (arith, stoi_digits_of_IsDigit false (c ∷ xs) a h)

stoi-decimal : (n : ℕ) → stoi (decimal n) ≡ in_int false n
unfolding decimal
stoi-decimal n =
    stoi_of_IsDigit (decimal_from (suc n) n) (decimal_from-IsDigit (suc n) n)
      (length-decimal_from n n)
    ∙ ap (in_int false) (scan-decimal_from (suc n) n (omega arith))

stoi-minus : (n : ℕ) → stoi (b'-' ∷ decimal n) ≡ in_int true n
unfolding stoi
stoi-minus n =
    minus (decimal n) n (unfold decimal in decimal_from-IsDigit (suc n) n)
      (unfold decimal in length-decimal_from n n)
      (unfold decimal in scan-decimal_from (suc n) n (omega arith))
  where
    minus :
        (xs : List ℕ) (n : ℕ)
        → All IsDigit xs
        → 0 < length xs
        → scan 0 xs ≡ n
        → stoi (b'-' ∷ xs) ≡ in_int true n
    minus xs n a h e = stoi_digits_of_IsDigit true xs a h ∙ ap (in_int true) e

-- `std::stoi` reads back what `std::to_string` writes, for every `int`.
pub stoi-to_bytes : (a : ℤ) → IsInt32 a → stoi (to_bytes a) ≡ ok a
unfolding to_bytes
stoi-to_bytes (pos n) h = stoi-decimal n ∙ (unfold in_int in ground arith)
stoi-to_bytes (negsuc n) h = stoi-minus (suc n) ∙ (unfold in_int in ground arith)
