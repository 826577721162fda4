-- ===== src/Prelude/Thins.antt =====
-- Lists with some entries left out, and lists whose entries differ pairwise in a key.
use Prim.Native.Nat.{◌≤◌}
use mathlib.Core.Logic.{◌≢◌, inl, inr}
use mathlib.Core.Bool.{Bool}
use mathlib.Core.List.{List, [], ◌∷◌, map}
use native.Mathlib.Omega.{arith}
use ioh_robodog_webrtc.Prelude.Lists.{length, All, keep}
use ioh_robodog_webrtc.Prelude.Tests.{Bool-cases}

-- `Thins xs ys`: leaving out entries of ys gives xs.
pub data Thins {ℓ} {A : Type ℓ} : List A → List A → Type ℓ where
  done : Thins [] []
  skip : {y : A} {xs ys : List A} → Thins xs ys → Thins xs (y ∷ ys)
  take_in : {x : A} {xs ys : List A} → Thins xs ys → Thins (x ∷ xs) (x ∷ ys)

module _ {ℓ} {A : Type ℓ} where
  pub Thins-refl : (xs : List A) → Thins xs xs
  Thins-refl [] = done
  Thins-refl (x ∷ xs) = take_in (Thins-refl xs)

  pub Thins-nil : (xs : List A) → Thins [] xs
  Thins-nil [] = done
  Thins-nil (x ∷ xs) = skip (Thins-nil xs)

  pub Thins-trans : {ys zs : List A} → Thins ys zs → {xs : List A} → Thins xs ys → Thins xs zs
  Thins-trans done t = t
  Thins-trans (skip u) t = skip (Thins-trans u t)
  Thins-trans (take_in u) (skip t) = skip (Thins-trans u t)
  Thins-trans (take_in u) (take_in t) = take_in (Thins-trans u t)

  pub Thins-All {κ} : (P : A → Type κ) {xs ys : List A} → Thins xs ys → All P ys → All P xs
  Thins-All P done h = tt
  Thins-All P (skip t) h = Thins-All P t h.1
  Thins-All P (take_in t) h = (h.0, Thins-All P t h.1)

  pub length-Thins : {xs ys : List A} → Thins xs ys → length xs ≤ length ys
  length-Thins done = omega arith
  length-Thins (skip t) = omega (arith, length-Thins t)
  length-Thins (take_in t) = omega (arith, length-Thins t)

  -- No two entries have the same key.
  abbrev pub Apart {κ} : {B : Type κ} → (A → B) → List A → Type κ
  Apart f [] = Unit
  Apart f (x ∷ xs) = All (λ y. f x ≢ f y) xs × Apart f xs

  pub Thins-Apart {κ} :
      {B : Type κ} (f : A → B) {xs ys : List A} → Thins xs ys → Apart f ys → Apart f xs
  Thins-Apart f done h = tt
  Thins-Apart f (skip t) h = Thins-Apart f t h.1
  Thins-Apart f (take_in {x = x} t) h = (Thins-All (λ y. f x ≢ f y) t h.0, Thins-Apart f t h.1)

  pub Thins-map-keep {κ} :
      {B : Type κ} (f : A → B) (p : A → Bool) (xs : List A) → Thins (map f (keep p xs)) (map f xs)
  Thins-map-keep f p [] = done
  Thins-map-keep f p (x ∷ xs) = elim (Bool-cases (p x)) [
    | inl e ↦ rw (e, map) (take_in (Thins-map-keep f p xs))
    | inr e ↦ rw (e, map) (skip (Thins-map-keep f p xs))
  ]
