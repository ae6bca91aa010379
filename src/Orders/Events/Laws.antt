-- ===== src/Orders/Events/Laws.antt =====
-- When the events of an order are dispatched.
use wash_flow.Prelude.{ℕ, ◌≡◌, refl, subst, Option, some, List, [], arith, Result, ok}
use wash_flow.Database.{Db}
use wash_flow.Orders.Transaction.{
  DbError, Thrown, Outcome, returned, threw, run_reservation_transaction,
}
use wash_flow.Orders.Transaction.Laws.{
  run_reservation_transaction_cases, run_reservation_transaction_total,
}
use wash_flow.Orders.Events.{Event, Done, after, dispatch_after}

-- What an outcome says of the database it is left with.
abbrev Settles : {A : Type 0} → (Db → Result (A × Db)) → Db → Outcome A × Db → Type 0
Settles reserve db (returned a, db') = reserve db ≡ ok (a, db')
Settles reserve db (threw t, db') = db' ≡ db

module _ {A B : Type 0} where
  -- What a call of the service leaves behind: `result` and `events` are taken of what the body of
  -- its transaction gives.
  abbrev pub IsDone : (Db → Result (A × Db)) → (A → B) → (A → List Event) → Db → Done B → Type 0
  IsDone reserve result events db done =
      ((t : Thrown) → done.outcome ≡ threw t → (done.db ≡ db) × (done.events ≡ []))
      × ((b : B)
          → done.outcome ≡ returned b
          → (a : A) × (reserve db ≡ ok (a, done.db)) × (b ≡ result a) × (done.events ≡ events a))

module _ {A B : Type 0} (engine : ℕ → Option DbError) (reserve : Db → Result (A × Db))
    (result : A → B) (events : A → List Event) (db : Db) where
  after-IsDone :
      (r : Outcome A × Db)
      → Settles reserve db r
      → IsDone reserve result events db (after result events r)
  after-IsDone (returned a, db') settles = (λ t e. cc, λ b e. (a, settles, ground arith, refl))
  after-IsDone (threw t, db') settles = (λ u e. (settles, refl), λ b e. cc)

  -- A call that throws has changed nothing and sent no event; a call that returns has done, once,
  -- what the body of its transaction does, and sent the events of that.
  pub dispatch_after-IsDone :
      (done : Done B)
      → dispatch_after result events (run_reservation_transaction engine reserve db) ≡ some done
      → IsDone reserve result events db done
  unfolding dispatch_after
  dispatch_after-IsDone done h =
      let (r, ran) = run_reservation_transaction_total engine reserve db in
      let settles : Settles reserve db r =
        run_reservation_transaction_cases engine reserve (Settles reserve db) db (λ a db' e. e)
          (λ t. refl) r ran in
      let left : after result events r ≡ done = ground arith in
      subst (IsDone reserve result events db) left (after-IsDone r settles)
