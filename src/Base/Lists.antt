-- ===== src/Base/Lists.antt =====
-- Lists measured by native numbers, and filters and searches by a Boolean test.
use Prim.Native.Nat.{ℕ, zero, suc, ◌+◌, ◌-◌, ◌≤◌, min}
use mathlib.Core.Path.{◌≡◌, refl, ap}
use mathlib.Core.Logic.{inl, inr}
use mathlib.Core.Bool.{Bool, true, false, ◌&&◌, ◌||◌}
use mathlib.Core.Option.{Option, none, some}
use mathlib.Core.List.{List, [], ◌∷◌, ◌++◌}
use native.Mathlib.Omega.{arith}
use text.Mathlib.Text.{◌==◌}
use text.Mathlib.TextPositions.{eq_refl}
use Prim.Native.String.{String}
use aiops_control_lab.Base.Tests.{Bool-cases, if◌then◌else◌}

module _ {ℓ} {A : Type ℓ} where
  abbrev pub length : List A → ℕ
  length [] = 0
  length (x ∷ xs) = suc (length xs)

  -- `xs[:n]`
  abbrev pub take : ℕ → List A → List A
  take zero xs = []
  take (suc n) [] = []
  take (suc n) (x ∷ xs) = x ∷ take n xs

  -- `[x for x in xs if p(x)]`
  abbrev pub keep : (A → Bool) → List A → List A
  keep p [] = []
  keep p (x ∷ xs) = let rest = keep p xs in if p x then x ∷ rest else rest

  -- `next((x for x in xs if p(x)), None)`
  abbrev pub first : (A → Bool) → List A → Option A
  first p [] = none
  first p (x ∷ xs) = if p x then some x else first p xs

  abbrev pub any : (A → Bool) → List A → Bool
  any p [] = false
  any p (x ∷ xs) = p x || any p xs

  abbrev pub all : (A → Bool) → List A → Bool
  all p [] = true
  all p (x ∷ xs) = p x && all p xs

  abbrev pub is_empty : List A → Bool
  is_empty [] = true
  is_empty (x ∷ xs) = false

  pub is_empty-nil : (xs : List A) → is_empty xs ≡ true → xs ≡ []
  is_empty-nil [] h = refl
  is_empty-nil (x ∷ xs) h = cc

  -- Every element satisfies a predicate.
  abbrev pub All {κ} : (A → Type κ) → List A → Type κ
  All P [] = Unit
  All P (x ∷ xs) = P x × All P xs

  -- An element stands in the list, with its place.
  pub data Has : A → List A → Type ℓ where
    here : {x : A} {xs : List A} → Has x (x ∷ xs)
    there : {x y : A} {xs : List A} → Has x xs → Has x (y ∷ xs)

  pub length-append : (xs ys : List A) → length (xs ++ ys) ≡ length xs + length ys
  length-append [] ys = omega arith
  length-append (x ∷ xs) ys = omega (arith, length-append xs ys)

  pub length-take-le : (n : ℕ) (xs : List A) → length (take n xs) ≤ n
  length-take-le zero xs = omega arith
  length-take-le (suc n) [] = omega arith
  length-take-le (suc n) (x ∷ xs) = omega (arith, length-take-le n xs)

  pub length-take : (n : ℕ) (xs : List A) → length (take n xs) ≡ min n (length xs)
  length-take zero xs = omega arith
  length-take (suc n) [] = omega arith
  length-take (suc n) (x ∷ xs) = omega (arith, length-take n xs)

  -- `xs[n:]`
  abbrev pub drop : ℕ → List A → List A
  drop zero xs = xs
  drop (suc n) [] = []
  drop (suc n) (x ∷ xs) = drop n xs

  pub take-drop : (n : ℕ) (xs : List A) → take n xs ++ drop n xs ≡ xs
  take-drop zero xs = refl
  take-drop (suc n) [] = refl
  take-drop (suc n) (x ∷ xs) = ap (x ∷◌) (take-drop n xs)

  pub length-drop : (n : ℕ) (xs : List A) → length (drop n xs) ≡ length xs - n
  length-drop zero xs = omega arith
  length-drop (suc n) [] = omega arith
  length-drop (suc n) (x ∷ xs) = omega (arith, length-drop n xs)

  pub All-take {κ} : (P : A → Type κ) (n : ℕ) (xs : List A) → All P xs → All P (take n xs)
  All-take P zero xs h = tt
  All-take P (suc n) [] h = tt
  All-take P (suc n) (x ∷ xs) h = (h.0, All-take P n xs h.1)

  pub length-keep-le : (p : A → Bool) (xs : List A) → length (keep p xs) ≤ length xs
  length-keep-le p [] = omega arith
  length-keep-le p (x ∷ xs) = ground (arith, length-keep-le p xs)

  -- What `first` finds passes the test.
  pub first-passes : (p : A → Bool) (xs : List A) (x : A) → first p xs ≡ some x → p x ≡ true
  first-passes p [] x h = cc
  first-passes p (y ∷ ys) x h = ground (arith, first-passes p ys x)

  pub Has-head : {x y : A} (ys : List A) → y ≡ x → Has x (y ∷ ys)
  Has-head ys e = rw e here

  pub first-Has : (p : A → Bool) (xs : List A) (x : A) → first p xs ≡ some x → Has x xs
  first-Has p [] x h = absurd (ground arith)
  first-Has p (y ∷ ys) x h = elim (Bool-cases (p y)) [
    | inl yes_y ↦ Has-head ys (ground arith)
    | inr no_y ↦ there (first-Has p ys x (rw no_y at h))
  ]

  pub All-append {κ} : (P : A → Type κ) (xs ys : List A) → All P xs → All P ys → All P (xs ++ ys)
  All-append P [] ys hx hy = hy
  All-append P (x ∷ xs) ys hx hy = (hx.0, All-append P xs ys hx.1 hy)

  pub All-Has {κ} : (P : A → Type κ) {x : A} {xs : List A} → All P xs → Has x xs → P x
  All-Has P h here = h.0
  All-Has P h (there m) = All-Has P h.1 m

  pub all-All : (p : A → Bool) (xs : List A) → all p xs ≡ true → All (λ x. p x ≡ true) xs
  all-All p [] h = tt
  all-All p (x ∷ xs) h = (ground arith, all-All p xs (ground arith))

-- `x in xs`, for texts
abbrev pub contains : String → List String → Bool
contains a xs = any (λ x. x == a) xs

pub contains-Has : {a : String} {xs : List String} → Has a xs → contains a xs ≡ true
contains-Has (here {x}) = rw (eq_refl x) refl
contains-Has (there m) = ground (arith, contains-Has m)
