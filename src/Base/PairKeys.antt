-- ===== src/Base/PairKeys.antt =====
-- A `dict` or `defaultdict` whose keys are pairs of texts.
use mathlib.Core.Path.{◌≡◌, refl}
use mathlib.Core.Bool.{◌&&◌}
use mathlib.Core.Option.{Option, none, some}
use mathlib.Core.List.{List, [], ◌∷◌}
use native.Mathlib.Omega.{arith}
use Prim.Native.String.{String}
use text.Mathlib.Text.{◌==◌}
use text.Mathlib.TextEquality.{eq_iff}
use aiops_control_lab.Base.Tests.{if◌then◌else◌}

abbrev pub Pairs {ℓ} : Type ℓ → Type ℓ
Pairs V = List (String × String × V)

module _ {ℓ} {V : Type ℓ} where
  unfoldable pub lookup_pair : String → String → Pairs V → Option V
  lookup_pair a b [] = none
  lookup_pair a b ((x, y, v) ∷ d) = if x == a && y == b then some v else lookup_pair a b d

  unfoldable pub insert_pair : String → String → V → Pairs V → Pairs V
  insert_pair a b v [] = (a, b, v) ∷ []
  insert_pair a b v ((x, y, w) ∷ d) =
      if x == a && y == b then (x, y, v) ∷ d else (x, y, w) ∷ insert_pair a b v d

  pub lookup_pair-insert_pair :
      (a b c e : String) (v : V) (d : Pairs V)
      → lookup_pair c e (insert_pair a b v d)
        ≡ (if a == c && b == e then some v else lookup_pair c e d)
  unfolding lookup_pair insert_pair
  lookup_pair-insert_pair a b c e v [] = refl
  lookup_pair-insert_pair a b c e v ((x, y, w) ∷ d) = ground (
    arith,
    eq_iff a c,
    eq_iff b e,
    eq_iff x a,
    eq_iff y b,
    eq_iff x c,
    eq_iff y e,
    lookup_pair-insert_pair a b c e v d,
  )
