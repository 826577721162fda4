-- ===== src/App/Arguments.antt =====
-- The arguments of src/main.cpp.
use native.Mathlib.Omega.{arith}
use ioh_robodog_webrtc.Prelude.{
  ◌≡◌, ◌⊎◌, sym, ap, ◌∙◌, String, true, false, ◌||◌, Option, none, some, List, [], ◌∷◌, text_eq,
  text_eq_iff, Bool-cases, inl, inr,
}
use ioh_robodog_webrtc.App.{is_config, is_help, parse_arguments}

abbrev pub IsConfigFlag : String → Type 0
IsConfigFlag arg = (arg ≡ "--config") ⊎ (arg ≡ "-c")

abbrev pub IsHelpFlag : String → Type 0
IsHelpFlag arg = (arg ≡ "--help") ⊎ (arg ≡ "-h")

-- How the arguments are read, from the left and with a path so far: the path of the configuration, or
-- `none` where the help is asked for.
pub data Parses : List String → String → Option String → Type 0 where
  done : (path : String) → Parses [] path (some path)
  config :
      {arg next path : String} {rest : List String} {r : Option String}
      → IsConfigFlag arg
      → Parses rest next r
      → Parses (arg ∷ next ∷ rest) path r
  help : {arg path : String} {rest : List String} → IsHelpFlag arg → Parses (arg ∷ rest) path none
  last : {arg path : String} → ¬ IsHelpFlag arg → Parses (arg ∷ []) path (some path)
  skip :
      {arg next path : String} {rest : List String} {r : Option String}
      → ¬ IsConfigFlag arg
      → ¬ IsHelpFlag arg
      → Parses (next ∷ rest) path r
      → Parses (arg ∷ next ∷ rest) path r

either_is : (arg a b : String) → (text_eq arg a || text_eq arg b) ≡ true → (arg ≡ a) ⊎ (arg ≡ b)
either_is arg a b e = elim (Bool-cases (text_eq arg a)) [
  | inl same ↦ inl ((text_eq_iff arg a).0 same)
  | inr differs ↦ inr ((text_eq_iff arg b).0 (ap (λ x. x || text_eq arg b) (sym differs) ∙ e))
]

neither_is :
    (arg a b : String) → (text_eq arg a || text_eq arg b) ≡ false → ¬ ((arg ≡ a) ⊎ (arg ≡ b))
neither_is arg a b e (inl same) = ground (arith, (text_eq_iff arg a).1 same)
neither_is arg a b e (inr same) = ground (arith, (text_eq_iff arg b).1 same)

pub parse_arguments-Parses :
    (arguments : List String) (path : String)
    → Parses arguments path (parse_arguments arguments path)
unfolding parse_arguments
parse_arguments-Parses [] path = done path
parse_arguments-Parses (arg ∷ []) path = elim (Bool-cases (is_help arg)) [
  | inl h ↦ rw (h, parse_arguments) (help (either_is arg "--help" "-h" h))
  | inr h ↦ rw (h, parse_arguments) (last (neither_is arg "--help" "-h" h))
]
parse_arguments-Parses (arg ∷ next ∷ rest) path =
    let after_path = parse_arguments-Parses rest next in
    let after_other = parse_arguments-Parses (next ∷ rest) path in
    elim (Bool-cases (is_config arg)) [
      | inl c ↦ rw (c, parse_arguments) (config (either_is arg "--config" "-c" c) after_path)
      | inr c ↦ elim (Bool-cases (is_help arg)) [
        | inl h ↦ rw (c, h, parse_arguments) (help (either_is arg "--help" "-h" h))
        | inr h ↦
            rw (c, h, parse_arguments)
              (skip (neither_is arg "--config" "-c" c) (neither_is arg "--help" "-h" h) after_other)
      ]
    ]
