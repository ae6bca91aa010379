-- ===== src/Orders/Transaction/Laws.antt =====
-- How often a reservation is tried, and what it leaves.
use wash_flow.Prelude.{
  ℕ, zero, suc, ◌+◌, ◌≤◌, ◌<◌, ◌≡◌, subst, ◌≢◌, inl, inr, true, false, Option, none, some, Result,
  ok, conflict, arith, Result-cases, Option-cases, Bool-cases, leb,
}
use wash_flow.Database.{Db}
use wash_flow.Orders.Transaction.{
  DbError, Thrown, http, database, is_reservation_conflict, Outcome, returned, threw, settled,
  max_reservation_attempts, attempts, run_reservation_transaction,
}

module _ {ℓ} {A : Type ℓ} (engine : ℕ → Option DbError) (reserve : Db → Result (A × Db)) where
  -- Attempt `n` fails with a conflict that is tried again.
  abbrev pub IsRetried : ℕ → Type 0
  IsRetried n = (e : DbError) × (engine n ≡ some e) × (is_reservation_conflict e ≡ true)

  abbrev pub exhausted : Db → Outcome A × Db
  exhausted db =
      (threw (http (conflict "The requested resources are being reserved. Please try again.")), db)

  -- What the attempt that is not tried again gives, for each verdict of the database.
  abbrev pub Ends : ℕ → Db → Option (Outcome A × Db) → Type ℓ
  Ends n db r =
      (engine n ≡ none → r ≡ some (settled engine reserve db (reserve db)))
      × ((e : DbError)
          → engine n ≡ some e
          → is_reservation_conflict e ≡ false
          → r ≡ some (threw (database e), db))

  after_one : (db : Db) → IsRetried 1 → Ends 2 db (run_reservation_transaction engine reserve db)
  unfolding run_reservation_transaction attempts
  after_one db (e, h, c) = ground arith

  after_two :
      (db : Db)
      → IsRetried 1
      → IsRetried 2
      → Ends 3 db (run_reservation_transaction engine reserve db)
  unfolding run_reservation_transaction attempts
  after_two db (e, h, c) (e', h', c') = ground arith

  after_three :
      (db : Db)
      → IsRetried 1
      → IsRetried 2
      → IsRetried 3
      → run_reservation_transaction engine reserve db ≡ some (exhausted db)
  unfolding run_reservation_transaction attempts
  after_three db (e, h, c) (e', h', c') (e'', h'', c'') = ground arith

  -- A reservation is tried up to three times. The first attempt that the database does not fail with
  -- a serialization or deadlock conflict decides: if it lets the attempt commit, the body has run
  -- once, on the database as it was, and has been undone if it threw; if it fails it otherwise, that
  -- error is thrown and nothing is changed. After three conflicts a ConflictException is thrown and
  -- nothing is changed.
  pub run_reservation_transaction_attempts :
      (db : Db)
      → let r = run_reservation_transaction engine reserve db in
        Ends 1 db r
        × (IsRetried 1 → Ends 2 db r)
        × (IsRetried 1 → IsRetried 2 → Ends 3 db r)
        × (IsRetried 1 → IsRetried 2 → IsRetried 3 → r ≡ some (exhausted db))
  unfolding run_reservation_transaction attempts
  run_reservation_transaction_attempts db =
      (ground arith, after_one db, after_two db, after_three db)

  attempts_total :
      (fuel n : ℕ) (db : Db)
      → n ≤ max_reservation_attempts
      → max_reservation_attempts < n + fuel
      → attempts engine reserve fuel n db ≢ none
  unfolding attempts
  attempts_total zero n db le h = absurd (omega arith)
  attempts_total (suc fuel) n db le h = ground (arith, attempts_total fuel (n + 1) db)

  -- The loop ends: a reservation always has an outcome.
  pub run_reservation_transaction_total :
      (db : Db) → (r : Outcome A × Db) × (run_reservation_transaction engine reserve db ≡ some r)
  unfolding run_reservation_transaction
  run_reservation_transaction_total db = elim (Option-cases (attempts engine reserve 3 1 db)) [
    | inl out ↦ absurd (attempts_total 3 1 db (omega arith) (omega arith) out)
    | inr found ↦ found
  ]

  module _ {κ} (P : Outcome A × Db → Type κ) (db : Db)
      (good : (a : A) (db' : Db) → reserve db ≡ ok (a, db') → P (returned a, db'))
      (bad : (t : Thrown) → P (threw t, db)) where
    settled_cases : P (settled engine reserve db (reserve db))
    settled_cases = elim (Result-cases (reserve db)) [
      | inl ((a, db'), fine) ↦ rw fine (good a db' fine)
      | inr (x, failed) ↦ rw failed (bad (http x))
    ]

    attempts_cases :
        (fuel n : ℕ) (r : Outcome A × Db) → attempts engine reserve fuel n db ≡ some r → P r
    unfolding attempts
    attempts_cases zero n r h = cc
    attempts_cases (suc fuel) n r h = elim (Option-cases (engine n)) [
      | inl commits ↦ subst P (ground arith) settled_cases
      | inr (e, failed) ↦ elim (Bool-cases (is_reservation_conflict e)) [
        | inr other ↦ subst P (ground arith) (bad (database e))
        | inl retry ↦ elim (Bool-cases (leb max_reservation_attempts n)) [
          | inl last ↦ subst P (ground arith) (
              bad (http (conflict "The requested resources are being reserved. Please try again.")))
          | inr again ↦ attempts_cases fuel (n + 1) r (ground arith)
        ]
      ]
    ]

    -- Whatever holds of each outcome of the body, and of each failure that changes nothing, holds of
    -- the reservation.
    pub run_reservation_transaction_cases :
        (r : Outcome A × Db) → run_reservation_transaction engine reserve db ≡ some r → P r
    unfolding run_reservation_transaction
    run_reservation_transaction_cases r h = attempts_cases 3 1 r h
