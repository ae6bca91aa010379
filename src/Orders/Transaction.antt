-- ===== src/Orders/Transaction.antt =====
-- src/modules/orders/reservation-transaction.util.ts: a reservation is a serializable transaction
-- that is tried again when the database reports a conflict. A transaction that commits runs alone
-- on the database as it was; one that fails, by its own exception or by the database's, leaves it as
-- it was. Which attempts the database lets commit is the argument `engine`.
pub mod Laws
use Prim.Native.String.{String}
use text.Mathlib.Text.{◌==◌ as str_eq}
use wash_flow.Prelude.{
  ℕ, zero, suc, ◌+◌, Bool, true, false, Option, none, some, ◌&&◌, ◌||◌, leb, if◌then◌else◌, Result,
  ok, err, Error, conflict,
}
use wash_flow.Database.{Db}

pub record Cause : Type 0 where
  pub kind : String
  pub code : String
  pub original_code : String

-- The errors that Prisma raises, by what `isReservationConflict` reads of them.
pub data DbError : Type 0 where
  driver_adapter_error : Option Cause → DbError
  known_request_error : (code : String) → (driver_adapter_cause : Option Cause) → DbError
  other_error : DbError

pub data Thrown : Type 0 where
  http : Error → Thrown
  database : DbError → Thrown

is_adapter_conflict : Option Cause → Bool
is_adapter_conflict none = false
is_adapter_conflict (some c) =
    (str_eq c.kind "TransactionWriteConflict" && str_eq c.original_code "40001")
    || (str_eq c.kind "postgres" && (str_eq c.code "40P01" && str_eq c.original_code "40P01"))

is_raw_conflict : Option Cause → Bool
is_raw_conflict none = false
is_raw_conflict (some c) =
    str_eq c.kind "TransactionWriteConflict"
    || (str_eq c.original_code "40001" || str_eq c.original_code "40P01")

unfoldable pub is_reservation_conflict : DbError → Bool
unfolding is_adapter_conflict is_raw_conflict
is_reservation_conflict (driver_adapter_error cause) = is_adapter_conflict cause
is_reservation_conflict (known_request_error code cause) =
    if str_eq code "P2034"
    then true
    else if str_eq code "P2010"
    then is_raw_conflict cause
    else false
is_reservation_conflict other_error = false

abbrev pub max_reservation_attempts : ℕ
max_reservation_attempts = 3

pub data Outcome {ℓ} (A : Type ℓ) : Type ℓ where
  returned : A → Outcome A
  threw : Thrown → Outcome A

module _ {ℓ} {A : Type ℓ} (engine : ℕ → Option DbError) (reserve : Db → Result (A × Db)) where
  -- `$transaction(reserve, { isolationLevel: Serializable })`
  abbrev settled : Db → Result (A × Db) → Outcome A × Db
  settled db (ok (a, db')) = (returned a, db')
  settled db (err e) = (threw (http e), db)

  -- The loop from attempt `n` on; `none` is out of fuel.
  unfoldable pub attempts : ℕ → ℕ → Db → Option (Outcome A × Db)
  attempts zero n db = none
  attempts (suc fuel) n db =
      let again = attempts fuel (n + 1) db in
      elim (engine n) [
        | none ↦ some (settled db (reserve db))
        | some e ↦
            if is_reservation_conflict e
            then (if leb max_reservation_attempts n
                then some (
                  threw (
                      http
                        (conflict "The requested resources are being reserved. Please try again.")),
                  db,
                )
                else again)
            else some (threw (database e), db)
      ]

  unfoldable pub run_reservation_transaction : Db → Option (Outcome A × Db)
  run_reservation_transaction db = attempts max_reservation_attempts 1 db
