-- ===== src/Prelude/Orders.antt =====
-- Maps from texts whose entries stand in another order.
use Prim.Native.String.{String}
use mathlib.Core.Path.{◌≡◌, refl, sym, ap, subst, ◌∙◌}
use mathlib.Core.Bool.{Bool, true, false, not}
use mathlib.Core.Logic.{◌≢◌, inl, inr}
use mathlib.Core.List.{List, [], ◌∷◌, map}
use native.Mathlib.Omega.{arith}
use text.Mathlib.TextEquality.{eq_iff}
use ioh_robodog_webrtc.Prelude.Tests.{if◌then◌else◌, Bool-cases}
use ioh_robodog_webrtc.Prelude.Lists.{length, keep, All}
use ioh_robodog_webrtc.Prelude.Texts.{text_eq}
use ioh_robodog_webrtc.Prelude.Map.{find, insert, erase, update, Lacks, Distinct}

-- `Reorders xs ys`: ys has the entries of xs in some order.
pub data Reorders {ℓ} {A : Type ℓ} : List A → List A → Type ℓ where
  empty : Reorders [] []
  under : {x : A} {xs ys : List A} → Reorders xs ys → Reorders (x ∷ xs) (x ∷ ys)
  swap : {x y : A} {xs : List A} → Reorders (x ∷ y ∷ xs) (y ∷ x ∷ xs)
  both : {xs ys zs : List A} → Reorders xs ys → Reorders ys zs → Reorders xs zs

module _ {ℓ} {A : Type ℓ} where
  pub Reorders-refl : (xs : List A) → Reorders xs xs
  Reorders-refl [] = empty
  Reorders-refl (x ∷ xs) = under (Reorders-refl xs)

  pub Reorders-All {κ} : (P : A → Type κ) {xs ys : List A} → Reorders xs ys → All P xs → All P ys
  Reorders-All P empty h = tt
  Reorders-All P (under p) h = (h.0, Reorders-All P p h.1)
  Reorders-All P swap h = (h.1.0, (h.0, h.1.1))
  Reorders-All P (both p q) h = Reorders-All P q (Reorders-All P p h)

  pub length-Reorders : {xs ys : List A} → Reorders xs ys → length xs ≡ length ys
  length-Reorders empty = refl
  length-Reorders (under p) = omega (arith, length-Reorders p)
  length-Reorders swap = refl
  length-Reorders (both p q) = length-Reorders p ∙ length-Reorders q

  pub Reorders-map {κ} :
      {B : Type κ} (f : A → B) {xs ys : List A} → Reorders xs ys → Reorders (map f xs) (map f ys)
  Reorders-map f empty = empty
  Reorders-map f (under p) = under (Reorders-map f p)
  Reorders-map f swap = swap
  Reorders-map f (both p q) = both (Reorders-map f p) (Reorders-map f q)

  pub Reorders-keep :
      (p : A → Bool) {xs ys : List A} → Reorders xs ys → Reorders (keep p xs) (keep p ys)
  Reorders-keep p empty = empty
  Reorders-keep p (under {x = x} r) = elim (Bool-cases (p x)) [
    | inl e ↦ rw e (under (Reorders-keep p r))
    | inr e ↦ rw e (Reorders-keep p r)
  ]
  Reorders-keep p (swap {x = x} {y = y} {xs = xs}) = elim (Bool-cases (p x)) [
    | inl e ↦ elim (Bool-cases (p y)) [
      | inl f ↦ rw (e, f) swap
      | inr f ↦ rw (e, f) (Reorders-refl _)
    ]
    | inr e ↦ rw e (Reorders-refl _)
  ]
  Reorders-keep p (both r q) = both (Reorders-keep p r) (Reorders-keep p q)

module _ {ℓ} {V : Type ℓ} where
  pub Distinct-Reorders : {m n : List (String × V)} → Reorders m n → Distinct m → Distinct n
  Distinct-Reorders empty d = d
  Distinct-Reorders (under {x = x} p) d =
      (Reorders-All (λ e. e.0 ≢ x.0) p d.0, Distinct-Reorders p d.1)
  Distinct-Reorders swap d = ((λ e. d.0.0 (sym e), d.1.0), (d.0.1, d.1.1))
  Distinct-Reorders (both p q) d = Distinct-Reorders q (Distinct-Reorders p d)

  pub find-Reorders :
      (k : String) {m n : List (String × V)} → Reorders m n → Distinct m → find k m ≡ find k n
  unfolding find
  find-Reorders k empty d = refl
  find-Reorders k (under {x = x} p) d = ground (arith, find-Reorders k p d.1)
  find-Reorders k (swap {x = x} {y = y}) d = ground (arith, eq_iff x.0 k, eq_iff y.0 k, d.0.0)
  find-Reorders k (both p q) d = find-Reorders k p d ∙ find-Reorders k q (Distinct-Reorders p d)

  insert-here :
      (k : String) (v : V) (x : String × V) (m : List (String × V))
      → text_eq x.0 k ≡ true
      → insert k v (x ∷ m) ≡ (k, v) ∷ m
  unfolding insert
  insert-here k v x m e = rw e refl

  insert-below :
      (k : String) (v : V) (x : String × V) (m : List (String × V))
      → text_eq x.0 k ≡ false
      → insert k v (x ∷ m) ≡ x ∷ insert k v m
  unfolding insert
  insert-below k v x m e = rw e refl

  insert-swap :
      (k : String) (v : V) (x y : String × V) (m : List (String × V))
      → x.0 ≢ y.0
      → Reorders (insert k v (x ∷ y ∷ m)) (insert k v (y ∷ x ∷ m))
  insert-swap k v x y m n = elim (Bool-cases (text_eq x.0 k)) [
    | inl e ↦ elim (Bool-cases (text_eq y.0 k)) [
      | inl f ↦ absurd (n ((eq_iff x.0 k).0 e ∙ sym ((eq_iff y.0 k).0 f)))
      | inr f ↦
          rw (insert-here k v x (y ∷ m) e, insert-below k v y (x ∷ m) f, insert-here k v x m e) swap
    ]
    | inr e ↦ elim (Bool-cases (text_eq y.0 k)) [
      | inl f ↦
          rw (insert-below k v x (y ∷ m) e, insert-here k v y (x ∷ m) f, insert-here k v y m f) swap
      | inr f ↦
          rw
            (
              insert-below k v x (y ∷ m) e,
              insert-below k v y (x ∷ m) f,
              insert-below k v x m e,
              insert-below k v y m f,
            )
            swap
    ]
  ]

  pub Reorders-insert :
      (k : String) (v : V) {m n : List (String × V)}
      → Reorders m n
      → Distinct m
      → Reorders (insert k v m) (insert k v n)
  Reorders-insert k v empty d = Reorders-refl _
  Reorders-insert k v (under {x = x} {xs = xs} {ys = ys} p) d = elim (Bool-cases (text_eq x.0 k)) [
    | inl e ↦ rw (insert-here k v x xs e, insert-here k v x ys e) (under p)
    | inr e ↦
        rw (insert-below k v x xs e, insert-below k v x ys e) (under (Reorders-insert k v p d.1))
  ]
  Reorders-insert k v (swap {x = x} {y = y} {xs = xs}) d =
      insert-swap k v x y xs (λ e. d.0.0 (sym e))
  Reorders-insert k v (both p q) d =
      both (Reorders-insert k v p d) (Reorders-insert k v q (Distinct-Reorders p d))

  -- `erase` leaves out the entries of a name.
  erase-keep : (k : String) (m : List (String × V)) → erase k m ≡ keep (λ e. not (text_eq e.0 k)) m
  unfolding erase
  erase-keep k [] = refl
  erase-keep k (x ∷ m) = ground (arith, erase-keep k m)

  pub Reorders-erase :
      (k : String) {m n : List (String × V)} → Reorders m n → Reorders (erase k m) (erase k n)
  Reorders-erase k {m} {n} p =
      rw (erase-keep k m, erase-keep k n) (Reorders-keep (λ e. not (text_eq e.0 k)) p)

  abbrev changed : String → (V → V) → String × V → String × V
  changed k f e = if text_eq e.0 k then (e.0, f e.1) else e

  untouched : (k : String) (f : V → V) (m : List (String × V)) → Lacks k m → map (changed k f) m ≡ m
  untouched k f [] h = refl
  untouched k f (x ∷ m) h = ground (arith, eq_iff x.0 k, untouched k f m h.1, h.0)

  -- Where names are distinct, `update` changes every entry of a name.
  update-changed :
      (k : String) (f : V → V) (m : List (String × V))
      → Distinct m
      → update k f m ≡ map (changed k f) m
  unfolding update
  update-changed k f [] d = refl
  update-changed k f (x ∷ m) d = elim (Bool-cases (text_eq x.0 k)) [
    | inl e ↦
        let gone : Lacks k m = subst (λ j. Lacks j m) ((eq_iff x.0 k).0 e) d.0 in
        rw e (ap (◌∷◌ (x.0, f x.1)) (sym (untouched k f m gone)))
    | inr e ↦ rw e (ap (◌∷◌ x) (update-changed k f m d.1))
  ]

  pub Reorders-update :
      (k : String) (f : V → V) {m n : List (String × V)}
      → Reorders m n
      → Distinct m
      → Reorders (update k f m) (update k f n)
  Reorders-update k f {m} {n} p d =
      rw (update-changed k f m d, update-changed k f n (Distinct-Reorders p d))
        (Reorders-map (changed k f) p)
