-- ===== src/Common/Errors.antt =====
-- Go's `(value, error)` returns: a value, or an error of a type `E` that the component chooses.
use mathlib.Core.Path.{◌≡◌, refl}
use mathlib.Core.Logic.{◌⊎◌, inl, inr}

pub data Result {ℓ κ} (E : Type ℓ) (A : Type κ) : Type (ℓ ⊔ κ) where
  ok : A → Result E A
  err : E → Result E A

abbrev pub ◌>>=◌ {ℓ κ ι} :
    {E : Type ℓ} {A : Type κ} {B : Type ι} → Result E A → (A → Result E B) → Result E B
(ok value) >>= next = next value
(err error) >>= next = err error

abbrev pub ◌>>◌ {ℓ κ} : {E : Type ℓ} {B : Type κ} → Result E (Unit {0}) → Result E B → Result E B
first >> second = first >>= λ _. second

infixl 5 ◌>>=◌ ◌>>◌
-- Inversion of a chain of fallible calls that succeeded.
pub >>=-eq-ok {ℓ κ ι} :
    {E : Type ℓ} {A : Type κ} {B : Type ι} (call : Result E A) (next : A → Result E B) {result : B}
    → (call >>= next) ≡ ok result
    → (value : A) × (call ≡ ok value) × (next value ≡ ok result)
>>=-eq-ok (ok value) next h = (value, refl, h)
>>=-eq-ok (err error) next h = cc

pub Result-cases {ℓ κ} :
    {E : Type ℓ} {A : Type κ} (r : Result E A) → ((e : E) × (r ≡ err e)) ⊎ ((a : A) × (r ≡ ok a))
Result-cases (err e) = inl (e, refl)
Result-cases (ok a) = inr (a, refl)
