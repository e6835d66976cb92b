-- ===== src/Base/Effects.antt =====
-- Methods that change the state of the process and may raise. What was written before a raise
-- stays written, so the state comes back beside the error too.
use mathlib.Core.Path.{◌≡◌, refl}
use mathlib.Core.Logic.{◌⊎◌, inl, inr}
use mathlib.Core.Bool.{Bool, true, false}
use mathlib.Core.List.{List, [], ◌∷◌}

-- domain/errors.py, `AgentIdentityError`, and what Python and the adapters raise themselves.
pub data Error : Type 0 where
  entity_not_found invalid_state_transition approval_expired integrity_violation : Error
  external_source agent_identity value_error date_overflow http_forbidden http_unauthorized
        http_unavailable grpc_failed_precondition grpc_permission_denied http_limited
        http_unprocessable http_bad_gateway http_not_found runtime_error zero_division index_error
        key_error :
      Error

pub data Result {ℓ} (A : Type ℓ) : Type ℓ where
  ok : A → Result A
  err : Error → Result A

abbrev pub Exec : Type 0 → Type 0 → Type 0
Exec S A = S → Result A × S

module _ {S A : Type 0} where
  abbrev pub pure : A → Exec S A
  pure a s = (ok a, s)

  abbrev pub raise : Error → Exec S A
  raise e s = (err e, s)

  abbrev pub lift : Result A → Exec S A
  lift r s = (r, s)

  abbrev pub gets : (S → A) → Exec S A
  gets f s = (ok (f s), s)

module _ {S : Type 0} where
  abbrev pub modify : (S → S) → Exec S (Unit {0})
  modify f s = (ok tt, f s)

  abbrev pub raise_if : Bool → Error → Exec S (Unit {0})
  raise_if true e s = (err e, s)
  raise_if false e s = (ok tt, s)

module _ {S A B : Type 0} where
  abbrev pub continue : Result A → (A → Exec S B) → Exec S B
  continue (ok a) f s = f a s
  continue (err e) f s = (err e, s)

  infixl 5 ◌>>=◌ ◌>>◌
  abbrev pub ◌>>=◌ : Exec S A → (A → Exec S B) → Exec S B
  ◌>>=◌ m f s = let (r, s') = m s in continue r f s'

  abbrev pub ◌>>◌ : Exec S A → Exec S B → Exec S B
  m >> k = m >>= λ _. k

-- A call of a method for each element in turn.
module _ {S A : Type 0} where
  unfoldable pub for_each : (A → Exec S (Unit {0})) → List A → Exec S (Unit {0})
  for_each f [] = pure tt
  for_each f (x ∷ xs) = f x >> for_each f xs

-- To split on a result and keep the equation.
pub Result-cases :
    {A : Type 0} (r : Result A) → ((a : A) × (r ≡ ok a)) ⊎ ((e : Error) × (r ≡ err e))
Result-cases (ok a) = inl (a, refl)
Result-cases (err e) = inr (e, refl)

-- To prove a predicate of a call and what follows it from a predicate of the call's outcome.
pub bind_rule {ℓ κ} :
    {S A B : Type 0} (P : Result A × S → Type ℓ) (R : Result B × S → Type κ) (f : A → Exec S B)
    (out : Result A × S)
    → P out
    → ((a : A) (t : S) → P (ok a, t) → R (f a t))
    → ((e : Error) (t : S) → P (err e, t) → R (err e, t))
    → R (continue out.0 f out.1)
bind_rule P R f (ok a, t) h good bad = good a t h
bind_rule P R f (err e, t) h good bad = bad e t h
