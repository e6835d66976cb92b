-- ===== src/Base/Sorts.antt =====
-- `sorted`, `max` and `min` by a key, as Python defines them: sorting is stable, also with
-- `reverse=True`, and `max` and `min` return the first of equal candidates.
use Prim.Native.Nat.{suc}
use mathlib.Core.Path.{◌≡◌, refl}
use mathlib.Core.Logic.{inl, inr}
use mathlib.Core.Bool.{Bool, true, false}
use mathlib.Core.Option.{Option, none, some}
use mathlib.Core.List.{List, [], ◌∷◌, Perm}
use mathlib.Core.List.Perm
use native.Mathlib.Omega.{arith}
use aiops_control_lab.Base.Tests.{Bool-cases, if◌then◌else◌}
use aiops_control_lab.Base.Lists.{All, Has, here, there, length}

-- The order is given by its strict Boolean test, `before a b`.
module _ {ℓ} {A : Type ℓ} (before : A → A → Bool) where
  -- Puts `x` in front of the first element that does not stand before it.
  abbrev pub insert_sorted : A → List A → List A
  insert_sorted x [] = x ∷ []
  insert_sorted x (y ∷ ys) =
      let rest = insert_sorted x ys in if before y x then y ∷ rest else x ∷ y ∷ ys

  -- From the last element backwards, so that equal elements keep their order.
  abbrev pub sorted : List A → List A
  sorted [] = []
  sorted (x ∷ xs) = insert_sorted x (sorted xs)

  -- The first of the elements that no other one comes before.
  abbrev pub best_from : A → List A → A
  best_from x [] = x
  best_from x (y ∷ ys) = best_from (if before y x then y else x) ys

  abbrev pub best : List A → Option A
  best [] = none
  best (x ∷ xs) = some (best_from x xs)

  pub insert_sorted-All {κ} :
      (P : A → Type κ) (x : A) (xs : List A) → P x → All P xs → All P (insert_sorted x xs)
  insert_sorted-All P x [] p h = (p, tt)
  insert_sorted-All P x (y ∷ ys) p h = elim (Bool-cases (before y x)) [
    | inl b ↦ rw b (h.0, insert_sorted-All P x ys p h.1)
    | inr b ↦ rw b (p, h)
  ]

  pub sorted-All {κ} : (P : A → Type κ) (xs : List A) → All P xs → All P (sorted xs)
  sorted-All P [] h = tt
  sorted-All P (x ∷ xs) h = insert_sorted-All P x (sorted xs) h.0 (sorted-All P xs h.1)

  pub length-insert_sorted : (x : A) (xs : List A) → length (insert_sorted x xs) ≡ suc (length xs)
  length-insert_sorted x [] = refl
  length-insert_sorted x (y ∷ ys) = ground (arith, length-insert_sorted x ys)

  -- Sorting loses and adds nothing.
  pub length-sorted : (xs : List A) → length (sorted xs) ≡ length xs
  length-sorted [] = refl
  length-sorted (x ∷ xs) = omega (arith, length-insert_sorted x (sorted xs), length-sorted xs)

  pub insert_sorted-Perm : (x : A) (xs : List A) → Perm (insert_sorted x xs) (x ∷ xs)
  insert_sorted-Perm x [] = Perm.refl (x ∷ [])
  insert_sorted-Perm x (y ∷ ys) = elim (Bool-cases (before y x)) [
    | inl b ↦ rw b (Perm.trans (Perm.cons y (insert_sorted-Perm x ys)) (Perm.swap x y ys))
    | inr b ↦ rw b (Perm.refl (x ∷ y ∷ ys))
  ]

  pub sorted-Perm : (xs : List A) → Perm (sorted xs) xs
  sorted-Perm [] = Perm.refl []
  sorted-Perm (x ∷ xs) =
      Perm.trans (insert_sorted-Perm x (sorted xs)) (Perm.cons x (sorted-Perm xs))

  -- The first element of the list does not come before `x`.
  abbrev pub Follows : A → List A → Type 0
  Follows x [] = Unit
  Follows x (y ∷ ys) = before y x ≡ false

  -- No element comes before the one that it stands behind.
  abbrev pub Ordered : List A → Type 0
  Ordered [] = Unit
  Ordered (x ∷ xs) = Follows x xs × Ordered xs

  insert_sorted-Follows :
      (x y : A) (ys : List A) → before x y ≡ false → Follows y ys → Follows y (insert_sorted x ys)
  insert_sorted-Follows x y [] after h = after
  insert_sorted-Follows x y (z ∷ zs) after h = elim (Bool-cases (before z x)) [
    | inl b ↦ rw b h
    | inr b ↦ rw b after
  ]

  insert_sorted-Ordered :
      ((a b : A) → before a b ≡ true → before b a ≡ false)
      → (x : A) (xs : List A) → Ordered xs
      → Ordered (insert_sorted x xs)
  insert_sorted-Ordered asymmetric x [] h = (tt, tt)
  insert_sorted-Ordered asymmetric x (y ∷ ys) h = elim (Bool-cases (before y x)) [
    | inl b ↦ rw b (
      insert_sorted-Follows x y ys (asymmetric y x b) h.0,
      insert_sorted-Ordered asymmetric x ys h.1,
    )
    | inr b ↦ rw b (b, h)
  ]

  pub sorted-Ordered :
      ((a b : A) → before a b ≡ true → before b a ≡ false) → (xs : List A) → Ordered (sorted xs)
  sorted-Ordered asymmetric [] = tt
  sorted-Ordered asymmetric (x ∷ xs) =
      insert_sorted-Ordered asymmetric x (sorted xs) (sorted-Ordered asymmetric xs)

  pub best_from-Has : (x : A) (xs : List A) → Has (best_from x xs) (x ∷ xs)
  best_from-Has x [] = here
  best_from-Has x (y ∷ ys) = elim (Bool-cases (before y x)) [
    | inl b ↦ rw b (there (best_from-Has y ys))
    | inr b ↦ rw b (skip (best_from-Has x ys))
  ]
    where
      skip : {z : A} → Has z (x ∷ ys) → Has z (x ∷ y ∷ ys)
      skip here = here
      skip (there m) = there (there m)
