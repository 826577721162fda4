-- ===== src/Prelude/Map.antt =====
-- `std::unordered_map` from texts: an association list. The order of its entries stands for the
-- unspecified order in which the map is walked.
use Prim.Native.Nat.{suc, ◌≤◌}
use Prim.Native.String.{String}
use mathlib.Core.Path.{◌≡◌, refl}
use mathlib.Core.Bool.{Bool}
use mathlib.Core.Logic.{◌≢◌}
use mathlib.Core.Option.{Option, none, some}
use mathlib.Core.List.{List, [], ◌∷◌}
use native.Mathlib.Omega.{arith}
use text.Mathlib.TextEquality.{eq_iff}
use ioh_robodog_webrtc.Prelude.Tests.{if◌then◌else◌}
use ioh_robodog_webrtc.Prelude.Lists.{length, keep, All, All-keep}
use ioh_robodog_webrtc.Prelude.Texts.{text_eq}

module _ {ℓ} {V : Type ℓ} where
  -- `m.find(k)`.
  unfoldable pub find : String → List (String × V) → Option V
  find k [] = none
  find k ((j, v) ∷ m) = if text_eq j k then some v else find k m

  -- `m[k] = v`.
  unfoldable pub insert : String → V → List (String × V) → List (String × V)
  insert k v [] = (k, v) ∷ []
  insert k v ((j, w) ∷ m) = if text_eq j k then (k, v) ∷ m else (j, w) ∷ insert k v m

  -- `m.erase(k)`.
  unfoldable pub erase : String → List (String × V) → List (String × V)
  erase k [] = []
  erase k ((j, v) ∷ m) = let rest = erase k m in if text_eq j k then rest else (j, v) ∷ rest

  -- A change of the value at a key, where there is one.
  unfoldable pub update : String → (V → V) → List (String × V) → List (String × V)
  update k f [] = []
  update k f ((j, v) ∷ m) = if text_eq j k then (j, f v) ∷ m else (j, v) ∷ update k f m

  pub find-insert :
      (k j : String) (v : V) (m : List (String × V))
      → find j (insert k v m) ≡ (if text_eq k j then some v else find j m)
  unfolding find insert
  find-insert k j v [] = refl
  find-insert k j v ((i, w) ∷ m) =
      ground (arith, eq_iff k j, eq_iff i k, eq_iff i j, find-insert k j v m)

  pub find-erase :
      (k j : String) (m : List (String × V))
      → find j (erase k m) ≡ (if text_eq k j then none else find j m)
  unfolding find erase
  find-erase k j [] = ground arith
  find-erase k j ((i, w) ∷ m) = ground (arith, eq_iff k j, eq_iff i k, eq_iff i j, find-erase k j m)

  pub find-update :
      (k j : String) (f : V → V) (v : V) (m : List (String × V))
      → find k m ≡ some v
      → find j (update k f m) ≡ (if text_eq k j then some (f v) else find j m)
  unfolding find update
  find-update k j f v [] h = ground arith
  find-update k j f v ((i, w) ∷ m) h =
      ground (arith, eq_iff k j, eq_iff i k, eq_iff i j, find-update k j f v m)

  pub length-insert :
      (k : String) (v : V) (m : List (String × V))
      → find k m ≡ none
      → length (insert k v m) ≡ suc (length m)
  unfolding find insert
  length-insert k v [] h = refl
  length-insert k v ((j, w) ∷ m) h = ground (arith, length-insert k v m)

  pub length-insert-le :
      (k : String) (v : V) (m : List (String × V)) → length (insert k v m) ≤ suc (length m)
  unfolding insert
  length-insert-le k v [] = omega arith
  length-insert-le k v ((j, w) ∷ m) = ground (arith, length-insert-le k v m)

  pub length-erase-le : (k : String) (m : List (String × V)) → length (erase k m) ≤ length m
  unfolding erase
  length-erase-le k [] = omega arith
  length-erase-le k ((j, w) ∷ m) = ground (arith, length-erase-le k m)

  pub length-update :
      (k : String) (f : V → V) (m : List (String × V)) → length (update k f m) ≡ length m
  unfolding update
  length-update k f [] = refl
  length-update k f ((j, w) ∷ m) = ground (arith, length-update k f m)

-- No key stands twice.
module _ {ℓ} {V : Type ℓ} where
  abbrev pub Lacks : String → List (String × V) → Type 0
  Lacks k = All (λ e. e.0 ≢ k)

  abbrev pub Distinct : List (String × V) → Type 0
  Distinct [] = Unit
  Distinct (e ∷ m) = Lacks e.0 m × Distinct m

  pub Lacks-insert :
      (k j : String) (v : V) (m : List (String × V)) → k ≢ j → Lacks j m → Lacks j (insert k v m)
  unfolding insert
  Lacks-insert k j v [] n h = (n, tt)
  Lacks-insert k j v ((i, w) ∷ m) n h = ground (arith, Lacks-insert k j v m n h.1)

  pub insert-Distinct :
      (k : String) (v : V) (m : List (String × V)) → Distinct m → Distinct (insert k v m)
  unfolding insert
  insert-Distinct k v [] h = (tt, tt)
  insert-Distinct k v ((i, w) ∷ m) h =
      ground (arith, eq_iff i k, insert-Distinct k v m h.1, Lacks-insert k i v m)

  pub Lacks-erase : (k j : String) (m : List (String × V)) → Lacks j m → Lacks j (erase k m)
  unfolding erase
  Lacks-erase k j [] h = tt
  Lacks-erase k j ((i, w) ∷ m) h = ground (arith, Lacks-erase k j m h.1)

  pub erase-Distinct : (k : String) (m : List (String × V)) → Distinct m → Distinct (erase k m)
  unfolding erase
  erase-Distinct k [] h = tt
  erase-Distinct k ((i, w) ∷ m) h = ground (arith, erase-Distinct k m h.1, Lacks-erase k i m h.0)

  pub Lacks-update :
      (k j : String) (f : V → V) (m : List (String × V)) → Lacks j m → Lacks j (update k f m)
  unfolding update
  Lacks-update k j f [] h = tt
  Lacks-update k j f ((i, w) ∷ m) h = ground (arith, Lacks-update k j f m h.1)

  pub update-Distinct :
      (k : String) (f : V → V) (m : List (String × V)) → Distinct m → Distinct (update k f m)
  unfolding update
  update-Distinct k f [] h = tt
  update-Distinct k f ((i, w) ∷ m) h =
      ground (arith, update-Distinct k f m h.1, Lacks-update k i f m h.0)

  pub keep-Distinct :
      (p : String × V → Bool) (m : List (String × V)) → Distinct m → Distinct (keep p m)
  keep-Distinct p [] h = tt
  keep-Distinct p (e ∷ m) h =
      ground (arith, keep-Distinct p m h.1, All-keep (λ x. x.0 ≢ e.0) p m h.0)
