-- ===== src/Base/Dicts.antt =====
-- Python's `dict` with text keys, in insertion order: an assignment to a key that is there keeps
-- its place.
use mathlib.Core.Path.{◌≡◌, refl, subst₂}
use mathlib.Core.Logic.{◌≢◌, inl, inr}
use mathlib.Core.Option.{Option, none, some}
use mathlib.Core.List.{List, [], ◌∷◌}
use native.Mathlib.Omega.{arith}
use Prim.Native.String.{String}
use text.Mathlib.Text.{◌==◌}
use text.Mathlib.TextEquality.{eq_iff}
use text.Mathlib.TextPositions.{eq_refl}
use aiops_control_lab.Base.Tests.{Bool-cases, if◌then◌else◌}
use aiops_control_lab.Base.Lists.{All, Has, there, Has-head}

abbrev pub Dict {ℓ} : Type ℓ → Type ℓ
Dict V = List (String × V)

module _ {ℓ} {V : Type ℓ} where
  -- `d.get(k)`
  unfoldable pub lookup : String → Dict V → Option V
  lookup k [] = none
  lookup k ((j, v) ∷ d) = if j == k then some v else lookup k d

  -- `d[k] = v`
  unfoldable pub insert : String → V → Dict V → Dict V
  insert k v [] = (k, v) ∷ []
  insert k v ((j, w) ∷ d) = if j == k then (j, v) ∷ d else (j, w) ∷ insert k v d

  -- `d.pop(k, None)`
  unfoldable pub remove : String → Dict V → Dict V
  remove k [] = []
  remove k ((j, w) ∷ d) = let rest = remove k d in if j == k then rest else (j, w) ∷ rest

  -- `list(d.values())`
  unfoldable pub values : Dict V → List V
  values [] = []
  values ((j, v) ∷ d) = v ∷ values d

  pub lookup-insert :
      (k j : String) (v : V) (d : Dict V)
      → lookup j (insert k v d) ≡ (if k == j then some v else lookup j d)
  unfolding lookup insert
  lookup-insert k j v [] = refl
  lookup-insert k j v ((i, w) ∷ d) =
      ground (arith, eq_iff k j, eq_iff i k, eq_iff i j, lookup-insert k j v d)

  pub lookup-insert_self : (k : String) (v : V) (d : Dict V) → lookup k (insert k v d) ≡ some v
  lookup-insert_self k v d = simp (lookup-insert, eq_refl)

  pub lookup-insert_ne :
      (k j : String) (v : V) (d : Dict V) → k ≢ j → lookup j (insert k v d) ≡ lookup j d
  lookup-insert_ne k j v d h = ground (arith, lookup-insert k j v d, eq_iff k j)

  pub lookup-remove_self : (k : String) (d : Dict V) → lookup k (remove k d) ≡ none
  unfolding lookup remove
  lookup-remove_self k [] = refl
  lookup-remove_self k ((j, w) ∷ d) = ground (arith, lookup-remove_self k d)

  pub lookup-remove_ne : (k j : String) (d : Dict V) → k ≢ j → lookup j (remove k d) ≡ lookup j d
  unfolding lookup remove
  lookup-remove_ne k j [] h = refl
  lookup-remove_ne k j ((i, v) ∷ d) h =
      ground (arith, lookup-remove_ne k j d h, eq_iff i k, eq_iff i j)

  -- Every value of the dictionary satisfies a predicate of its key and itself.
  abbrev pub Entries {κ} : (String → V → Type κ) → Dict V → Type κ
  Entries P [] = Unit
  Entries P ((k, v) ∷ d) = P k v × Entries P d

  pub insert-Entries {κ} :
      (P : String → V → Type κ) (k : String) (v : V) (d : Dict V)
      → P k v
      → Entries P d
      → Entries P (insert k v d)
  unfolding insert
  insert-Entries P k v [] p h = (p, tt)
  insert-Entries P k v ((j, w) ∷ d) p h = elim (Bool-cases (j == k)) [
    | inl same ↦ rw same (rw ((eq_iff j k).0 same) p, h.1)
    | inr other ↦ rw other (h.0, insert-Entries P k v d p h.1)
  ]

  pub lookup-Entries {κ} :
      (P : String → V → Type κ) (k : String) (v : V) (d : Dict V)
      → Entries P d
      → lookup k d ≡ some v
      → P k v
  unfolding lookup
  lookup-Entries P k v [] h e = absurd (ground arith)
  lookup-Entries P k v ((j, w) ∷ d) h e = elim (Bool-cases (j == k)) [
    | inl same ↦
        let same_value : w ≡ v = ground arith in subst₂ P ((eq_iff j k).0 same) same_value h.0
    | inr other ↦ lookup-Entries P k v d h.1 (rw other at e)
  ]

  pub values-All {κ} : (P : V → Type κ) (d : Dict V) → Entries (λ _ v. P v) d → All P (values d)
  unfolding values
  values-All P [] h = tt
  values-All P ((k, v) ∷ d) h = (h.0, values-All P d h.1)

  -- What stands under a key is one of the values.
  pub lookup-Has : (k : String) (v : V) (d : Dict V) → lookup k d ≡ some v → Has v (values d)
  unfolding lookup values
  lookup-Has k v [] e = absurd (ground arith)
  lookup-Has k v ((j, w) ∷ d) e = elim (Bool-cases (j == k)) [
    | inl same ↦ Has-head (values d) (ground arith)
    | inr other ↦ there (lookup-Has k v d (rw other at e))
  ]
