-- ===== src/WebRtc/PeerId.antt =====
-- `generate_peer_id` of src/webrtc_server.cpp: "peer-" and eight hexadecimal digits.
use Prim.Native.String
use Prim.Native.String.{count}
use native.Mathlib.Nat.{pow-suc}
use text.Mathlib.TextLemmas.{append_inj, append_assoc, append_cancel_left, length-append}
use ioh_robodog_webrtc.Prelude.{
  ℕ, zero, suc, ◌-◌, ◌/◌, ◌%◌, ◌^◌, ◌<◌, ◌≡◌, ◌≢◌, refl, sym, ap, ◌∙◌, arith, String, true, ltb,
  ◌==◌, if◌then◌else◌, inl, inr, Bool-cases, text_eq, passes, passes-below, ==_iff,
}

unfoldable pub hex_digit : ℕ → String
hex_digit d =
    if d == 0
    then "0"
    else if d == 1
    then "1"
    else if d == 2
    then "2"
    else if d == 3
    then "3"
    else if d == 4
    then "4"
    else if d == 5
    then "5"
    else if d == 6
    then "6"
    else if d == 7
    then "7"
    else if d == 8
    then "8"
    else if d == 9
    then "9"
    else if d == 10
    then "a"
    else if d == 11
    then "b"
    else if d == 12
    then "c"
    else if d == 13
    then "d"
    else if d == 14
    then "e"
    else "f"

-- The digits that `std::hex` prints, none of them a leading zero; the fuel bounds their number.
unfoldable pub hex_from : ℕ → ℕ → String
unfolding hex_digit
hex_from zero n = ""
hex_from (suc f) n =
    let front = hex_from f (n / 16) in
    if ltb n 16 then hex_digit n else String.◌++◌ front (hex_digit (n % 16))

unfoldable pub zeros : ℕ → String
zeros zero = ""
zeros (suc n) = String.◌++◌ "0" (zeros n)

-- `std::setfill('0') << std::setw(w)`.
unfoldable pub pad : ℕ → String → String
unfolding zeros
pad w s = String.◌++◌ (zeros (w - count s)) s

-- Eight digits are enough for a `uint32_t`.
unfoldable pub generate_peer_id : ℕ → String
unfolding pad hex_from
generate_peer_id draw = String.◌++◌ "peer-" (pad 8 (hex_from 8 draw))

-- The w digits of a number, from the last.
fixed : ℕ → ℕ → String
fixed zero n = ""
fixed (suc w) n = String.◌++◌ (fixed w (n / 16)) (hex_digit (n % 16))

-- A digit read back.
digit_value : String → ℕ
digit_value s =
    if text_eq s "0"
    then 0
    else if text_eq s "1"
    then 1
    else if text_eq s "2"
    then 2
    else if text_eq s "3"
    then 3
    else if text_eq s "4"
    then 4
    else if text_eq s "5"
    then 5
    else if text_eq s "6"
    then 6
    else if text_eq s "7"
    then 7
    else if text_eq s "8"
    then 8
    else if text_eq s "9"
    then 9
    else if text_eq s "a"
    then 10
    else if text_eq s "b"
    then 11
    else if text_eq s "c"
    then 12
    else if text_eq s "d"
    then 13
    else if text_eq s "e"
    then 14
    else 15

digit_table : passes (λ d. digit_value (hex_digit d) == d) 16 ≡ true
unfolding hex_digit digit_value passes
digit_table = refl

count_table : passes (λ d. count (hex_digit d) == 1) 16 ≡ true
unfolding hex_digit passes
count_table = refl

digit_value-hex_digit : (d : ℕ) → d < 16 → digit_value (hex_digit d) ≡ d
digit_value-hex_digit d h =
    (==_iff _ d).0 (passes-below (λ x. digit_value (hex_digit x) == x) 16 d digit_table h)

count-hex_digit : (d : ℕ) → d < 16 → count (hex_digit d) ≡ 1
count-hex_digit d h =
    (==_iff _ 1).0 (passes-below (λ x. count (hex_digit x) == 1) 16 d count_table h)

count-fixed : (w n : ℕ) → count (fixed w n) ≡ w
unfolding fixed
count-fixed zero n = refl
count-fixed (suc w) n = omega (
  arith,
  length-append (fixed w (n / 16)) (hex_digit (n % 16)),
  count-fixed w (n / 16),
  count-hex_digit (n % 16) (omega arith),
)

fixed-injective : (w m n : ℕ) → m < 16 ^ w → n < 16 ^ w → fixed w m ≡ fixed w n → m ≡ n
unfolding fixed
fixed-injective zero m n h k e = omega arith
fixed-injective (suc w) m n h k e =
    let (front, last) =
      append_inj {s₁ = fixed w (m / 16)} {s₂ = fixed w (n / 16)} e
        (count-fixed w (m / 16) ∙ sym (count-fixed w (n / 16))) in
    let fronts : m / 16 ≡ n / 16 =
      fixed-injective w (m / 16) (n / 16) (omega (arith, pow-suc 16 w))
        (omega (arith, pow-suc 16 w)) front in
    let lasts : m % 16 ≡ n % 16 =
      sym (digit_value-hex_digit (m % 16) (omega arith))
      ∙ ap digit_value last
      ∙ digit_value-hex_digit (n % 16) (omega arith) in
    omega arith

zeros-concat : (n : ℕ) → String.◌++◌ (zeros n) "0" ≡ zeros (suc n)
unfolding zeros
zeros-concat zero = refl
zeros-concat (suc n) = append_assoc "0" (zeros n) "0" ∙ ap (String.◌++◌ "0") (zeros-concat n)

fixed_zero : (w : ℕ) → fixed w 0 ≡ zeros w
unfolding fixed hex_digit
fixed_zero zero = unfold zeros in refl
fixed_zero (suc w) = ap (λ s. String.◌++◌ s "0") (fixed_zero w) ∙ zeros-concat w

pad_small : (w n : ℕ) → n < 16 → pad (suc w) (hex_digit n) ≡ fixed (suc w) n
unfolding pad fixed
pad_small w n h =
    let quotient : n / 16 ≡ 0 = omega arith in
    let rest : n % 16 ≡ n = omega arith in
    let width : suc w - count (hex_digit n) ≡ w = omega (arith, count-hex_digit n h) in
    rw (width, quotient, rest, fixed_zero w)

pad-append :
    (w : ℕ) (s t : String) → count t ≡ 1 → pad (suc w) (String.◌++◌ s t) ≡ String.◌++◌ (pad w s) t
unfolding pad
pad-append w s t h =
    let width : suc w - count (String.◌++◌ s t) ≡ w - count s = omega (arith, length-append s t) in
    rw width (sym (append_assoc (zeros (w - count s)) s t))

-- Printing without leading zeros and filling up gives the fixed digits.
pad-hex_from : (w n : ℕ) → n < 16 ^ suc w → pad (suc w) (hex_from (suc w) n) ≡ fixed (suc w) n
unfolding hex_from fixed
pad-hex_from zero n h =
    let small : ltb n 16 ≡ true = ground arith in rw small (pad_small zero n (omega arith))
pad-hex_from (suc w) n h = elim (Bool-cases (ltb n 16)) [
  | inl small ↦ rw small (pad_small (suc w) n (ground arith))
  | inr large ↦ rw large (
      pad-append (suc w) (hex_from (suc w) (n / 16)) (hex_digit (n % 16))
        (count-hex_digit (n % 16) (omega arith))
      ∙ ap (λ s. String.◌++◌ s (hex_digit (n % 16)))
          (pad-hex_from w (n / 16) (omega (arith, pow-suc 16 (suc w)))))
]

generate_peer_id-fixed :
    (draw : ℕ) → draw < 2 ^ 32 → generate_peer_id draw ≡ String.◌++◌ "peer-" (fixed 8 draw)
unfolding generate_peer_id
generate_peer_id-fixed draw h = ap (String.◌++◌ "peer-") (pad-hex_from 7 draw h)

-- Two 32-bit numbers with the same name are one number.
pub generate_peer_id_injective :
    (draw other : ℕ)
    → draw < 2 ^ 32
    → other < 2 ^ 32
    → generate_peer_id draw ≡ generate_peer_id other
    → draw ≡ other
generate_peer_id_injective draw other h k e = fixed-injective 8 draw other h k (
    append_cancel_left "peer-" (fixed 8 draw) (fixed 8 other)
      (sym (generate_peer_id-fixed draw h) ∙ e ∙ generate_peer_id-fixed other k))

-- The name of a 32-bit number has thirteen characters.
pub count-generate_peer_id : (draw : ℕ) → draw < 2 ^ 32 → count (generate_peer_id draw) ≡ 13
count-generate_peer_id draw h =
    rw (generate_peer_id-fixed draw h)
      (omega (arith, length-append "peer-" (fixed 8 draw), count-fixed 8 draw))

-- A name is never the empty text that stands for a refusal.
pub generate_peer_id-ne-nil : (draw : ℕ) → generate_peer_id draw ≢ ""
unfolding generate_peer_id
generate_peer_id-ne-nil draw e =
    absurd (omega (arith, length-append "peer-" (pad 8 (hex_from 8 draw)), ap count e))
