-- ===== src/Outcome.antt =====
-- The exceptions that the modelled code raises or lets pass, and Python's `raise` as a result.
use devops_backend.Prelude.{◌≡◌, refl, ◌⊎◌, inl, inr, Bool, true, false, Option, none, some}

pub data Error : Type 0 where
  value_error index_error attribute_error type_error does_not_exist : Error
  key_error assertion_error ok_api_exception : Error
  integrity_error unbound_local_error client_error : Error

pub data Result {ℓ} (A : Type ℓ) : Type ℓ where
  ok : A → Result A
  err : Error → Result A

infixl 10 ◌>>=◌
abbrev pub ◌>>=◌ {ℓ κ} : {A : Type ℓ} {B : Type κ} → Result A → (A → Result B) → Result B
ok a >>= f = f a
err e >>= f = err e

-- an operation that gives no value raises the exception instead
abbrev pub or_raise {ℓ} : {A : Type ℓ} → Error → Option A → Result A
or_raise e none = err e
or_raise e (some a) = ok a

-- a serializer's `is_valid()` followed by a raise of its errors
abbrev pub require {ℓ} : {A : Type ℓ} → Bool → Error → A → Result A
require true e a = ok a
require false e a = err e

pub Result-cases {ℓ} :
    {A : Type ℓ} (r : Result A) → ((a : A) × (r ≡ ok a)) ⊎ ((e : Error) × (r ≡ err e))
Result-cases (ok a) = inl (a, refl)
Result-cases (err e) = inr (e, refl)
