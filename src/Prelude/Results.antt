-- ===== src/Prelude/Results.antt =====
-- Calls that may throw, as values: the exceptions of NestJS that the services throw, with their
-- messages (a value that a message interpolates is left out).
use Prim.Native.String.{String}
use mathlib.Core.Path.{◌≡◌, refl}
use mathlib.Core.Logic.{◌⊎◌, inl, inr}
use mathlib.Core.Bool.{Bool, true, false}
use mathlib.Core.Option.{Option, none, some}

-- The classes of @nestjs/common, each with its message.
pub data Error : Type 0 where
  bad_request not_found conflict forbidden unavailable unauthorized : String → Error

pub data Result {ℓ} (A : Type ℓ) : Type ℓ where
  err : Error → Result A
  ok : A → Result A

-- `if (c) throw e`
abbrev pub throw_if : Bool → Error → Result (Unit {0})
throw_if false thrown = ok tt
throw_if true thrown = err thrown

module _ {ℓ} {A : Type ℓ} where
  -- `if (!o) throw e`
  abbrev pub or_throw : Option A → Error → Result A
  or_throw (some found) thrown = ok found
  or_throw none thrown = err thrown

  pub Result-cases : (r : Result A) → ((a : A) × (r ≡ ok a)) ⊎ ((e : Error) × (r ≡ err e))
  Result-cases (err thrown) = inr (thrown, refl)
  Result-cases (ok value) = inl (value, refl)

-- What follows a call runs only if the call returned.
module _ {ℓ κ} {A : Type ℓ} {B : Type κ} where
  infixl 5 ◌>>=◌
  abbrev pub ◌>>=◌ : Result A → (A → Result B) → Result B
  err thrown >>= next = err thrown
  ok value >>= next = next value

module _ {ℓ} {A : Type ℓ} where
  infixl 5 ◌>>◌
  abbrev pub ◌>>◌ : Result (Unit {0}) → Result A → Result A
  check >> next = check >>= λ _. next
