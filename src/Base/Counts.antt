-- ===== src/Base/Counts.antt =====
-- How many elements of a list, and values of a dictionary, pass a Boolean test.
use Prim.Native.Nat.{ℕ, suc, ◌≤◌}
use mathlib.Core.Path.{◌≡◌, refl}
use mathlib.Core.Logic.{inl, inr}
use mathlib.Core.Bool.{Bool, true}
use mathlib.Core.Option.{none, some}
use mathlib.Core.List.{List, [], ◌∷◌}
use native.Mathlib.Omega.{arith}
use Prim.Native.String.{String}
use aiops_control_lab.Base.Tests.{Bool-cases, if◌then◌else◌}
use aiops_control_lab.Base.Lists.{first}
use aiops_control_lab.Base.Dicts.{Dict, insert, values}
use aiops_control_lab.Base.Sorts.{insert_sorted, sorted}

module _ {ℓ} {A : Type ℓ} where
  abbrev pub count : (A → Bool) → List A → ℕ
  count p [] = 0
  count p (x ∷ xs) = let n = count p xs in if p x then suc n else n

  pub count-first-none : (p : A → Bool) (xs : List A) → first p xs ≡ none → count p xs ≡ 0
  count-first-none p [] h = refl
  count-first-none p (x ∷ xs) h = elim (Bool-cases (p x)) [
    | inl yes_x ↦ absurd (ground arith)
    | inr no_x ↦ rw no_x (count-first-none p xs (rw no_x at h))
  ]

  count-insert_sorted :
      (before : A → A → Bool) (p : A → Bool) (x : A) (xs : List A)
      → count p (insert_sorted before x xs) ≡ count p (x ∷ xs)
  count-insert_sorted before p x [] = refl
  count-insert_sorted before p x (y ∷ ys) = ground (arith, count-insert_sorted before p x ys)

  pub count-sorted :
      (before : A → A → Bool) (p : A → Bool) (xs : List A) → count p (sorted before xs) ≡ count p xs
  count-sorted before p [] = refl
  count-sorted before p (x ∷ xs) =
      ground (arith, count-insert_sorted before p x (sorted before xs), count-sorted before p xs)

  -- An assignment adds at most the new value.
  pub count-insert-le :
      (p : A → Bool) (k : String) (v : A) (d : Dict A)
      → count p (values (insert k v d)) ≤ count p (v ∷ values d)
  unfolding insert values
  count-insert-le p k v [] = omega arith
  count-insert-le p k v ((j, w) ∷ d) = ground (arith, count-insert-le p k v d)

  -- Once a value that passes is assigned, one does.
  pub count-insert-pos :
      (p : A → Bool) (k : String) (v : A) (d : Dict A)
      → p v ≡ true
      → 1 ≤ count p (values (insert k v d))
  unfolding insert values
  count-insert-pos p k v [] h = ground (arith, h)
  count-insert-pos p k v ((j, w) ∷ d) h = ground (arith, count-insert-pos p k v d h)

  pub first-some-count : (p : A → Bool) (xs : List A) (x : A) → first p xs ≡ some x → 1 ≤ count p xs
  first-some-count p [] x h = absurd (ground arith)
  first-some-count p (y ∷ ys) x h = ground (arith, first-some-count p ys x)
