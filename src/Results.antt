-- ===== src/Results.antt =====
-- Chains of fallible steps that change no state: an error ends the chain.
use aiops_control_lab.Base.{◌≡◌, refl, Result, ok, err, arith}

infixl 5 ◌>>=◌
abbrev pub ◌>>=◌ : {A B : Type 0} → Result A → (A → Result B) → Result B
ok a >>= f = f a
err e >>= f = err e

pub >>=-eq-ok :
    {A B : Type 0} (m : Result A) (f : A → Result B) (b : B)
    → (m >>= f) ≡ ok b
    → (a : A) × (m ≡ ok a) × (f a ≡ ok b)
>>=-eq-ok (ok a) f b h = (a, refl, h)
>>=-eq-ok (err e) f b h = absurd (ground arith)
