-- ===== src/Prelude/Result.antt =====
-- What a function that may raise returns: Python's exceptions as values.
use mathlib.Core.Path.{◌≡◌, refl}
use mathlib.Core.Logic.{◌⊎◌, inl, inr}
use mathlib.Core.Bool.{Bool, true, false}

-- `err` holds the exception that was raised.
pub data Result {ℓ} (E A : Type ℓ) : Type ℓ where
  err : E → Result E A
  ok : A → Result E A

-- `if test: raise e`
abbrev pub raise_if : {E : Type 0} → Bool → E → Result E (Unit {0})
raise_if false e = ok tt
raise_if true e = err e

infixl 5 ◌>>◌ ◌>>=◌
abbrev pub ◌>>=◌ {ℓ} : {E A B : Type ℓ} → Result E A → (A → Result E B) → Result E B
err e >>= next = err e
ok value >>= next = next value

-- What comes after a call runs if the call returned.
abbrev pub ◌>>◌ {ℓ} : {E B : Type ℓ} → Result E (Unit {ℓ}) → Result E B → Result E B
call >> next = call >>= λ done. next

-- Inversion of a successful bind.
pub >>=-eq-ok {ℓ} :
    {E A B : Type ℓ} (call : Result E A) (next : A → Result E B) {b : B}
    → call >>= next ≡ ok b
    → (a : A) × (call ≡ ok a) × (next a ≡ ok b)
>>=-eq-ok (err e) next raised = cc
>>=-eq-ok (ok a) next returned = (a, refl, returned)

pub Result-cases {ℓ} :
    {E A : Type ℓ} (r : Result E A) → ((e : E) × (r ≡ err e)) ⊎ ((a : A) × (r ≡ ok a))
Result-cases (err e) = inl (e, refl)
Result-cases (ok a) = inr (a, refl)

-- What is returned, if anything is, has the property.
abbrev pub Returned {ℓ} : {E A : Type ℓ} → (A → Type ℓ) → Result E A → Type ℓ
Returned P (err e) = Unit
Returned P (ok a) = P a

-- The function returns.
abbrev pub is_ok {ℓ} : {E A : Type ℓ} → Result E A → Bool
is_ok (err e) = false
is_ok (ok a) = true
